-- ===== src/Daemon/Frames.antt =====
-- `read_frame` and `write_frame` of crates/dafs-daemon/src/extract_worker.rs, which speak to
-- crates/dafs-pdf-worker: a length of four bytes, the highest first, and that many bytes.
use dafs.Prelude.{
  ℕ, zero, suc, ◌+◌, ◌*◌, ◌/◌, ◌%◌, ◌^◌, ◌<◌, ◌≡◌, refl, Option, none, some, List, [], ◌∷◌, ◌++◌,
  length, arith,
}

-- `(bytes.len() as u32).to_be_bytes()`: the cast keeps the low 32 bits.
unfoldable pub to_be_bytes : ℕ → List ℕ
to_be_bytes n = n / 16777216 % 256 ∷ (n / 65536 % 256 ∷ (n / 256 % 256 ∷ (n % 256 ∷ [])))

unfoldable pub write_frame : List ℕ → List ℕ
unfolding to_be_bytes
write_frame bytes = to_be_bytes (length bytes) ++ bytes

-- `read_exact`: the first bytes and what is left of the stream; `none` is its end.
unfoldable pub read_exact : ℕ → List ℕ → Option (List ℕ × List ℕ)
read_exact zero stream = some ([], stream)
read_exact (suc n) [] = none
read_exact (suc n) (b ∷ stream) = elim (read_exact n stream) [
  | none ↦ none
  | some (bytes, rest) ↦ some (b ∷ bytes, rest)
]

unfoldable pub read_frame : List ℕ → Option (List ℕ × List ℕ)
unfolding read_exact
read_frame (a ∷ b ∷ c ∷ d ∷ stream) = read_exact (16777216 * a + 65536 * b + 256 * c + d) stream
read_frame _ = none

read_exact-append :
    (bytes rest : List ℕ) → read_exact (length bytes) (bytes ++ rest) ≡ some (bytes, rest)
unfolding read_exact
read_exact-append [] rest = refl
read_exact-append (b ∷ bytes) rest = rw (read_exact-append bytes rest) refl

-- A frame of fewer than 2^32 bytes is read back as it was written, whatever follows it on the stream,
-- and what follows is left.
pub read_frame-write_frame :
    (bytes rest : List ℕ)
    → length bytes < 2 ^ 32
    → read_frame (write_frame bytes ++ rest) ≡ some (bytes, rest)
unfolding read_frame write_frame to_be_bytes
read_frame-write_frame bytes rest short =
    let n = length bytes in
    let digits : 16777216 * (n / 16777216 % 256)
          + 65536 * (n / 65536 % 256)
          + 256 * (n / 256 % 256)
          + n % 256
        ≡ n =
      omega (arith, short) in
    rw digits (read_exact-append bytes rest)
