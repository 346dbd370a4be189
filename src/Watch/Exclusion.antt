-- ===== src/Watch/Exclusion.antt =====
-- `is_excluded` against what it is meant to decide.
use mathlib.Core.Path.{subst}
use dafs.Prelude.{String, ◌≡◌, ◌↔◌, refl, true, List, In, any-In, In-any, arith, ◌==◌, eq_string}
use dafs.FilePath.{Component, root_dir, normal, FilePath}
use dafs.Watch.{is_skipped_component, is_excluded}

skipped_name :
    (skip_dirs : List String) (c : Component)
    → is_skipped_component skip_dirs c ≡ true
    → (name : String) × (c ≡ normal name) × In name skip_dirs
skipped_name skip_dirs (normal name) h =
    let (d, i, e) = any-In (λ d. d == name) skip_dirs h in
    (name, refl, subst (λ x. In x skip_dirs) ((eq_string.eqb_iff d name).0 e) i)
skipped_name skip_dirs root_dir h = absurd (ground arith)
skipped_name skip_dirs _ h = absurd (ground arith)

-- A path is excluded exactly if one of its components, the last one or not, is as a whole one of the
-- names to skip.
pub is_excluded_iff :
    (path : FilePath) (skip_dirs : List String)
    → (is_excluded path skip_dirs ≡ true)
      ↔ ((name : String) × In (normal name) path × In name skip_dirs)
unfolding is_excluded
is_excluded_iff path skip_dirs = (
  λ h.
      let (c, i, e) = any-In (is_skipped_component skip_dirs) path h in
      let (name, same, j) = skipped_name skip_dirs c e in (name, subst (λ x. In x path) same i, j),
  λ found.
      let (name, i, j) = found in
      In-any (is_skipped_component skip_dirs) (normal name) path i
        (In-any (λ d. d == name) name skip_dirs j ((eq_string.eqb_iff name name).1 refl)),
)
