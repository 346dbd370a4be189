-- ===== src/FilePath.antt =====
-- `std::path`: a path as the components that `Path::components` reads from it. Equality, hashing,
-- `starts_with` and `strip_prefix` of the standard library go by components too. A `PathBuf` of a
-- configuration also has the length of its text, which `as_os_str().len()` returns.
use dafs.Prelude.{
  ℕ, String, ◌≡◌, refl, ◌↔◌, Bool, true, false, ◌&&◌, Option, none, some, List, [], ◌∷◌, ◌++◌,
  arith, if◌then◌else◌, PartialEq, ◌==◌, eq_string, eq_list,
}

-- `std::path::Component`; `Prefix` exists on Windows only. A name is a text: the source converts
-- each one by `to_string_lossy` before it uses it.
pub data Component : Type 0 where
  root_dir cur_dir parent_dir : Component
  normal : String → Component

abbrev pub component_eqb : Component → Component → Bool
component_eqb root_dir root_dir = true
component_eqb cur_dir cur_dir = true
component_eqb parent_dir parent_dir = true
component_eqb (normal a) (normal b) = a == b
component_eqb _ _ = false

pub component_eqb_iff : (a b : Component) → (component_eqb a b ≡ true) ↔ (a ≡ b)
component_eqb_iff (normal a) (normal b) = ground (arith, eq_string.eqb_iff a b)
component_eqb_iff root_dir b = ground arith
component_eqb_iff a b = ground arith

instance abbrev pub eq_component : PartialEq Component
eq_component = record { eqb = component_eqb; eqb_iff = component_eqb_iff }

abbrev pub FilePath : Type 0
FilePath = List Component

pub path_eqb_iff : (a b : FilePath) → ((a == b) ≡ true) ↔ (a ≡ b)
path_eqb_iff a b = eq_list.eqb_iff a b

pub record PathBuf : Type 0 where
  pub components : FilePath
  pub os_len : ℕ

-- `Path::file_name`: the last component, if it is a name.
abbrev pub name_of : Component → Option String
name_of (normal s) = some s
name_of _ = none

unfoldable pub file_name : FilePath → Option String
file_name [] = none
file_name (c ∷ []) = name_of c
file_name (c ∷ d ∷ cs) = file_name (d ∷ cs)

unfoldable pub without_last : FilePath → FilePath
without_last [] = []
without_last (c ∷ []) = []
without_last (c ∷ d ∷ cs) = c ∷ without_last (d ∷ cs)

-- `Path::parent`: none of the empty path and of a path that ends in its root.
unfoldable pub parent : FilePath → Option FilePath
unfolding without_last
parent [] = none
parent (root_dir ∷ []) = none
parent (c ∷ []) = some []
parent (c ∷ d ∷ cs) = some (without_last (c ∷ d ∷ cs))

-- `Path::starts_with`
unfoldable pub starts_with : FilePath → FilePath → Bool
starts_with path [] = true
starts_with [] (b ∷ base) = false
starts_with (c ∷ path) (b ∷ base) = (c == b) && starts_with path base

-- `Path::strip_prefix`
unfoldable pub strip_prefix : FilePath → FilePath → Option FilePath
strip_prefix path [] = some path
strip_prefix [] (b ∷ base) = none
strip_prefix (c ∷ path) (b ∷ base) =
    let rest = strip_prefix path base in if c == b then rest else none

-- A prefix can be stripped, and what is left gives the path back behind it.
pub strip_prefix-append :
    (path base : FilePath)
    → starts_with path base ≡ true
    → (rest : FilePath) × (strip_prefix path base ≡ some rest) × (path ≡ base ++ rest)
unfolding starts_with strip_prefix
strip_prefix-append path [] h = (path, refl, refl)
strip_prefix-append [] (b ∷ base) h = ground arith
strip_prefix-append (c ∷ path) (b ∷ base) h =
    let (rest, found, split) = strip_prefix-append path base (ground arith) in
    (rest, ground (arith, component_eqb_iff c b), ground (arith, component_eqb_iff c b))
