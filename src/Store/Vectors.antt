-- ===== src/Store/Vectors.antt =====
-- The encodings of crates/dafs-store/src/embeddings.rs. An `f32` is its 32-bit pattern; a blob is a
-- list of bytes.
use Prim.Native.Nat.{bit_or}
use dafs.Prelude.{
  ℕ, zero, suc, ◌+◌, ◌-◌, ◌*◌, ◌/◌, ◌%◌, ◌^◌, ◌<◌, ◌≡◌, refl, ap, Bool, ◌||◌, List, [], ◌∷◌, ◌++◌,
  length, All, leb, arith, if◌then◌else◌, if_both, ◌==◌, eq_nat,
}

-- `f32::to_le_bytes`
abbrev pub to_le_bytes : ℕ → List ℕ
to_le_bytes p = p % 256 ∷ (p / 256 % 256 ∷ (p / 65536 % 256 ∷ (p / 16777216 % 256 ∷ [])))

unfoldable pub to_blob : List ℕ → List ℕ
to_blob [] = []
to_blob (p ∷ vector) = to_le_bytes p ++ to_blob vector

-- `f32::from_le_bytes` of each chunk of `as_chunks::<4>().0`, which leaves out what is short of one.
unfoldable pub from_blob : List ℕ → List ℕ
from_blob (a ∷ b ∷ c ∷ d ∷ blob) = (a + 256 * b + 65536 * c + 16777216 * d) ∷ from_blob blob
from_blob _ = []

abbrev pub IsF32 : ℕ → Type 0
IsF32 p = p < 2 ^ 32

-- Every vector of 32-bit patterns is read back from its blob as it was.
pub from_blob-to_blob : (vector : List ℕ) → All IsF32 vector → from_blob (to_blob vector) ≡ vector
unfolding from_blob to_blob
from_blob-to_blob [] h = refl
from_blob-to_blob (p ∷ vector) (h, hs) =
    let digits : p % 256
          + 256 * (p / 256 % 256)
          + 65536 * (p / 65536 % 256)
          + 16777216 * (p / 16777216 % 256)
        ≡ p =
      omega arith in
    cc (digits, from_blob-to_blob vector hs)

pub length-to_blob : (vector : List ℕ) → length (to_blob vector) ≡ 4 * length vector
unfolding to_blob
length-to_blob [] = refl
length-to_blob (p ∷ vector) = omega (arith, length-to_blob vector)

-- `f >= 0.0`: the sign bit is clear and the rest is not above infinity, or it is the negative zero.
abbrev pub is_non_negative : ℕ → Bool
is_non_negative p = leb p 2139095040 || (p == 2147483648)

abbrev pub div_ceil : ℕ → ℕ → ℕ
div_ceil a b = (a + b - 1) / b

unfoldable pub zeroes : ℕ → List ℕ
zeroes zero = []
zeroes (suc n) = 0 ∷ zeroes n

-- `bytes[i] |= b`; out of range the source panics, and `quantize_bits` stays in range.
unfoldable pub or_at : ℕ → ℕ → List ℕ → List ℕ
or_at i b [] = []
or_at zero b (x ∷ bytes) = bit_or x b ∷ bytes
or_at (suc i) b (x ∷ bytes) = x ∷ or_at i b bytes

-- The loop of `quantize_bits`, from dimension `i` on.
unfoldable pub set_bits : ℕ → List ℕ → List ℕ → List ℕ
unfolding or_at
set_bits i [] bytes = bytes
set_bits i (f ∷ vector) bytes =
    set_bits (i + 1) vector (if is_non_negative f then or_at (i / 8) (2 ^ (i % 8)) bytes else bytes)

unfoldable pub quantize_bits : List ℕ → List ℕ
unfolding set_bits zeroes
quantize_bits vector = set_bits 0 vector (zeroes (div_ceil (length vector) 8))

length-or_at : (i b : ℕ) (bytes : List ℕ) → length (or_at i b bytes) ≡ length bytes
unfolding or_at
length-or_at i b [] = refl
length-or_at zero b (x ∷ bytes) = refl
length-or_at (suc i) b (x ∷ bytes) = ap suc (length-or_at i b bytes)

length-set_bits : (i : ℕ) (vector bytes : List ℕ) → length (set_bits i vector bytes) ≡ length bytes
unfolding set_bits
length-set_bits i [] bytes = refl
length-set_bits i (f ∷ vector) bytes =
    let next = if is_non_negative f then or_at (i / 8) (2 ^ (i % 8)) bytes else bytes in
    let same : length next ≡ length bytes =
      if_both (λ (b : List ℕ). length b ≡ length bytes) (is_non_negative f)
        (length-or_at (i / 8) (2 ^ (i % 8)) bytes) refl in
    cc (length-set_bits (i + 1) vector next, same)

length-zeroes : (n : ℕ) → length (zeroes n) ≡ n
unfolding zeroes
length-zeroes zero = refl
length-zeroes (suc n) = ap suc (length-zeroes n)

pub length-quantize_bits :
    (vector : List ℕ) → length (quantize_bits vector) ≡ div_ceil (length vector) 8
unfolding quantize_bits
length-quantize_bits vector =
    let bytes = zeroes (div_ceil (length vector) 8) in
    cc (length-set_bits 0 vector bytes, length-zeroes (div_ceil (length vector) 8))
