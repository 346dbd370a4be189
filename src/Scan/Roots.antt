-- ===== src/Scan/Roots.antt =====
-- Which watch root a path belongs to.
use dafs.Prelude.{
  ◌≤◌, ◌≡◌, ◌∙◌, refl, sym, ap, subst, true, false, inl, inr, none, some, List, [], ◌∷◌, In, keep,
  leb, arith, Bool-cases, Option-cases,
}
use dafs.FilePath.{FilePath, PathBuf, starts_with}
use dafs.Store.Rows.{In-keep, keep-In}
use dafs.Scan.Lookup.{longest, owning_root}

abbrev IsLongest : PathBuf → List PathBuf → Type 0
IsLongest r roots = In r roots × ((q : PathBuf) → In q roots → q.os_len ≤ r.os_len)

longest-none : (roots : List PathBuf) → longest roots ≡ none → roots ≡ []
unfolding longest
longest-none [] h = refl
longest-none (r ∷ roots) h = elim (Option-cases (longest roots)) [
  | inl e ↦ absurd (ground (arith, e))
  | inr (q, e) ↦ absurd (ground (arith, e))
]

longest-IsLongest :
    (roots : List PathBuf) (r : PathBuf) → longest roots ≡ some r → IsLongest r roots
unfolding longest
longest-IsLongest [] r h = cc
longest-IsLongest (p ∷ roots) r h = elim (Option-cases (longest roots)) [
  | inl e ↦
      let same : p ≡ r = ground (arith, e) in
      let empty = longest-none roots e in
      (
        inl same,
        λ q i. elim i [
          | inl here ↦ rw (sym here, same) (omega arith)
          | inr there ↦ absurd (subst (In q) empty there)
        ],
      )
  | inr (q, e) ↦
      let (i, most) = longest-IsLongest roots q e in
      elim (Bool-cases (leb p.os_len q.os_len)) [
        | inl le ↦
            let same : q ≡ r = ground (arith, e) in
            (
              inr (subst (λ x. In x roots) same i),
              λ x j. elim j [
                | inl here ↦ rw (sym here, sym same) (ground arith)
                | inr there ↦ rw (sym same) (most x there)
              ],
            )
        | inr gt ↦
            let same : p ≡ r = ground (arith, e) in
            (
              inl same,
              λ x j. elim j [
                | inl here ↦ rw (sym here, same) (omega arith)
                | inr there ↦ let m = most x there in rw (sym same) (ground (arith, m))
              ],
            )
      ]
]

-- The root of a path is one of the roots, is a prefix of the path, and of such roots the longest
-- as it is written.
pub owning_root-IsLongest :
    (roots : List PathBuf) (path root : FilePath)
    → owning_root roots path ≡ some root
    → (r : PathBuf) × In r roots
      × (r.components ≡ root)
      × (starts_with path root ≡ true)
      × ((q : PathBuf) → In q roots → starts_with path q.components ≡ true → q.os_len ≤ r.os_len)
unfolding owning_root
owning_root-IsLongest roots path root h =
    let test = λ (r : PathBuf). starts_with path r.components in
    elim (Option-cases (longest (keep test roots))) [
      | inl e ↦ absurd (ground (arith, e))
      | inr (r, e) ↦
          let same : r.components ≡ root = ground (arith, e) in
          let (i, most) = longest-IsLongest (keep test roots) r e in
          let (j, t) = In-keep test r roots i in
          (
            r,
            j,
            same,
            ap (starts_with path) (sym same) ∙ t,
            λ q k s. most q (keep-In test q roots k s),
          )
    ]

-- A path has no root only where no root is a prefix of it.
pub owning_root-none :
    (roots : List PathBuf) (path : FilePath) (q : PathBuf)
    → owning_root roots path ≡ none
    → In q roots
    → starts_with path q.components ≡ false
unfolding owning_root
owning_root-none roots path q h i =
    let test = λ (r : PathBuf). starts_with path r.components in
    elim (Bool-cases (test q)) [
      | inr out ↦ out
      | inl t ↦ elim (Option-cases (longest (keep test roots))) [
        | inl e ↦
            absurd (subst (In q) (longest-none (keep test roots) e) (keep-In test q roots i t))
        | inr (r, e) ↦ absurd (ground (arith, e))
      ]
    ]
