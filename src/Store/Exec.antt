-- ===== src/Store/Exec.antt =====
-- Calls that change the store and may fail. What was written before an error stays written, so the
-- state comes back beside the error too.
use dafs.Prelude.{◌≡◌, refl, ℕ, String}
use dafs.HashMap.{HashMap}
use dafs.Store.Tables.{Db}

-- `StoreError`, and `ScanError`, which wraps it: `constraint` is a statement that breaks a constraint
-- of the schema, `walk` an entry whose metadata cannot be read.
pub data Error : Type 0 where
  constraint empty_path walk missing_root : Error

pub data Result {ℓ} (A : Type ℓ) : Type ℓ where
  ok : A → Result A
  err : Error → Result A

-- The connection and the interner, which every call is handed together.
pub record Store : Type 0 where
  pub db : Db
  pub cache : HashMap String ℕ

abbrev pub Exec : Type 0 → Type 0
Exec A = Store → Result A × Store

module _ {A : Type 0} where
  abbrev pub pure : A → Exec A
  pure a s = (ok a, s)

  abbrev pub fail : Error → Exec A
  fail e s = (err e, s)

module _ {A B : Type 0} where
  abbrev pub continue : Result A → (A → Exec B) → Exec B
  continue (ok a) f s = f a s
  continue (err e) f s = (err e, s)

  infixl 5 ◌>>=◌ ◌>>◌
  abbrev pub ◌>>=◌ : Exec A → (A → Exec B) → Exec B
  ◌>>=◌ m f s = let (r, s') = m s in continue r f s'

  abbrev pub ◌>>◌ : Exec A → Exec B → Exec B
  m >> n = m >>= λ _. n

module _ {A B C : Type 0} where
  continue_assoc :
      (r : Result A) (f : A → Exec B) (g : B → Exec C) (s : Store)
      → (continue r f >>= g) s ≡ continue r (λ a. f a >>= g) s
  continue_assoc (ok a) f g s = refl
  continue_assoc (err e) f g s = refl

  pub bind_assoc :
      (m : Exec A) (f : A → Exec B) (g : B → Exec C) (s : Store)
      → (m >>= f >>= g) s ≡ (m >>= λ a. f a >>= g) s
  bind_assoc m f g s = continue_assoc (m s).0 f g (m s).1
