-- ===== src/Store/Facets.antt =====
-- `distinct_facets` of crates/dafs-store/src/metadata.rs and enrichment.rs: the values of a column
-- with their numbers.
use dafs.Prelude.{
  ℕ, zero, suc, ◌≤◌, ◌≡◌, ◌∙◌, refl, ap, String, inl, inr, Option, none, some, List, [], ◌∷◌, take,
  map, All, leb, arith, Bool-cases, if◌then◌else◌, ◌==◌, eq_nat, eq_string,
}
use dafs.HashMap.{HashMap, get, insert, get-insert, Distinct, insert-Distinct}
use dafs.Store.Timeline.{or_else}
use dafs.Store.Catalog.{MetadataRow, EnrichmentRow, Work}

-- `metadata::FacetColumn` and `enrichment::FacetColumn`.
pub data FacetColumn : Type 0 where
  doc_type author language git_branch : FacetColumn

pub data EnrichmentColumn : Type 0 where
  classification : EnrichmentColumn

abbrev pub column : FacetColumn → MetadataRow → Option String
column doc_type m = m.columns.doc_type
column author m = m.columns.author
column language m = m.columns.language
column git_branch m = m.columns.git_branch

abbrev pub enrichment_column : EnrichmentColumn → EnrichmentRow → Option String
enrichment_column classification e = e.columns.classification

-- `WHERE … IS NOT NULL`
abbrev pub not_null : List (Option String) → List String
not_null [] = []
not_null (none ∷ values) = not_null values
not_null (some v ∷ values) = v ∷ not_null values

-- `COUNT(*) … GROUP BY …`
unfoldable pub group_by : List String → HashMap String ℕ
group_by [] = []
group_by (v ∷ values) = let t = group_by values in insert v (suc (or_else (get v t) 0)) t

-- `ORDER BY COUNT(*) DESC`; which of two values with one number comes first is left open.
unfoldable pub insert_by_count : String × ℕ → List (String × ℕ) → List (String × ℕ)
insert_by_count e [] = e ∷ []
insert_by_count e (x ∷ rows) =
    let rest = insert_by_count e rows in if leb x.1 e.1 then e ∷ x ∷ rows else x ∷ rest

unfoldable pub order_by_count : List (String × ℕ) → List (String × ℕ)
unfolding insert_by_count
order_by_count [] = []
order_by_count (e ∷ rows) = insert_by_count e (order_by_count rows)

unfoldable pub count_values : ℕ → List (Option String) → List (String × ℕ)
unfolding group_by order_by_count
count_values limit values = take limit (order_by_count (group_by (not_null values)))

unfoldable pub distinct_facets : FacetColumn → ℕ → Work → List (String × ℕ)
unfolding count_values
distinct_facets c limit w = count_values limit (map (λ e. column c e.1) w.file_metadata)

unfoldable pub enrichment_facets : EnrichmentColumn → ℕ → Work → List (String × ℕ)
unfolding count_values
enrichment_facets c limit w =
    count_values limit (map (λ e. enrichment_column c e.1) w.file_enrichment)

-- How often a value stands in a column.
abbrev pub occurrences : String → List String → ℕ
occurrences v [] = 0
occurrences v (x ∷ values) = let rest = occurrences v values in if x == v then suc rest else rest

-- The number of a value that stands in a column at all.
abbrev pub counted : ℕ → Option ℕ
counted zero = none
counted (suc n) = some (suc n)

or_else-counted : (n : ℕ) → or_else (counted n) 0 ≡ n
or_else-counted zero = refl
or_else-counted (suc n) = refl

get-group_by :
    (v : String) (values : List String) → get v (group_by values) ≡ counted (occurrences v values)
unfolding group_by
get-group_by v [] = refl
get-group_by v (x ∷ values) =
    let t = group_by values in
    let put = get-insert x v (suc (or_else (get x t) 0)) t in
    elim (Bool-cases (x == v)) [
      | inl e ↦
          let same : x ≡ v = (eq_string.eqb_iff x v).0 e in
          put
          ∙ rw e (
              ap (λ o. some (suc (or_else o 0))) (get-group_by x values)
              ∙ ap (λ n. some (suc n)) (or_else-counted (occurrences x values))
              ∙ ap (λ y. some (suc (occurrences y values))) same)
      | inr e ↦ put ∙ rw e (get-group_by v values)
    ]

group_by-Distinct : (values : List String) → Distinct (group_by values)
unfolding group_by
group_by-Distinct [] = tt
group_by-Distinct (v ∷ values) =
    let t = group_by values in
    insert-Distinct v (suc (or_else (get v t) 0)) t (group_by-Distinct values)

get-insert_by_count :
    (v k : String) (n : ℕ) (rows : List (String × ℕ))
    → get k rows ≡ none
    → get v (insert_by_count (k, n) rows) ≡ (if k == v then some n else get v rows)
unfolding insert_by_count
get-insert_by_count v k n [] h = refl
get-insert_by_count v k n (x ∷ rows) h = elim (Bool-cases (leb x.1 n)) [
  | inl t ↦ rw t refl
  | inr t ↦ rw t (
      ground (
        arith,
        h,
        get-insert_by_count v k n rows (ground (arith, h)),
        eq_string.eqb_iff k v,
        eq_string.eqb_iff x.0 v,
        eq_string.eqb_iff x.0 k,
      ))
]

insert_by_count-Distinct :
    (k : String) (n : ℕ) (rows : List (String × ℕ))
    → get k rows ≡ none
    → Distinct rows
    → Distinct (insert_by_count (k, n) rows)
unfolding insert_by_count
insert_by_count-Distinct k n [] h d = (refl, tt)
insert_by_count-Distinct k n (x ∷ rows) h d = elim (Bool-cases (leb x.1 n)) [
  | inl t ↦ rw t (h, d)
  | inr t ↦
      let absent : get k rows ≡ none = ground (arith, h) in
      rw t (
        ground (
          arith,
          h,
          d.0,
          get-insert_by_count x.0 k n rows absent,
          eq_string.eqb_iff k x.0,
          eq_string.eqb_iff x.0 k,
        ),
        insert_by_count-Distinct k n rows absent d.1,
      )
]

-- Ordering leaves every value its number.
order_by_count-get :
    (rows : List (String × ℕ))
    → Distinct rows
    → Distinct (order_by_count rows) × ((v : String) → get v (order_by_count rows) ≡ get v rows)
unfolding order_by_count
order_by_count-get [] d = (tt, λ v. refl)
order_by_count-get ((k, n) ∷ rows) d =
    let (once, same) = order_by_count-get rows d.1 in
    let absent : get k (order_by_count rows) ≡ none = same k ∙ d.0 in
    (
      insert_by_count-Distinct k n (order_by_count rows) absent once,
      λ v.
          get-insert_by_count v k n (order_by_count rows) absent
          ∙ ap (λ o. if k == v then some n else o) (same v),
    )

module _ (P : String × ℕ → Type 0) where
  All-insert_by_count :
      (e : String × ℕ) (rows : List (String × ℕ))
      → P e
      → All P rows
      → All P (insert_by_count e rows)
  unfolding insert_by_count
  All-insert_by_count e [] p h = (p, tt)
  All-insert_by_count e (x ∷ rows) p (q, h) = elim (Bool-cases (leb x.1 e.1)) [
    | inl t ↦ rw t (p, (q, h))
    | inr t ↦ rw t (q, All-insert_by_count e rows p h)
  ]

-- Most common first.
abbrev pub IsDescending : List (String × ℕ) → Type 0
IsDescending [] = Unit
IsDescending (x ∷ rows) = All (λ (y : String × ℕ). y.1 ≤ x.1) rows × IsDescending rows

below-All :
    (a b : ℕ) (rows : List (String × ℕ))
    → a ≤ b
    → All (λ (y : String × ℕ). y.1 ≤ a) rows
    → All (λ (y : String × ℕ). y.1 ≤ b) rows
below-All a b [] l h = tt
below-All a b (x ∷ rows) l (p, h) = (omega (arith, l, p), below-All a b rows l h)

insert_by_count-IsDescending :
    (e : String × ℕ) (rows : List (String × ℕ))
    → IsDescending rows
    → IsDescending (insert_by_count e rows)
unfolding insert_by_count
insert_by_count-IsDescending e [] h = (tt, tt)
insert_by_count-IsDescending e (x ∷ rows) (p, h) = elim (Bool-cases (leb x.1 e.1)) [
  | inl t ↦
      let less : x.1 ≤ e.1 = ground (arith, t) in
      rw t ((less, below-All x.1 e.1 rows less p), (p, h))
  | inr t ↦ rw t (
    All-insert_by_count (λ (y : String × ℕ). y.1 ≤ x.1) e rows (ground (arith, t)) p,
    insert_by_count-IsDescending e rows h,
  )
]

order_by_count-IsDescending : (rows : List (String × ℕ)) → IsDescending (order_by_count rows)
unfolding order_by_count
order_by_count-IsDescending [] = tt
order_by_count-IsDescending (e ∷ rows) =
    insert_by_count-IsDescending e (order_by_count rows) (order_by_count-IsDescending rows)

-- The rows are the front of a list that has each value of the column once, with its number, and
-- nothing else, and comes most common first.
abbrev pub IsCounted : List String → ℕ → List (String × ℕ) → Type 0
IsCounted values limit rows =
    (ordered : List (String × ℕ)) × Distinct ordered
    × ((v : String) → get v ordered ≡ counted (occurrences v values))
    × IsDescending ordered
    × (rows ≡ take limit ordered)

-- The facets of a column of `file_metadata` are its `limit` most common values, most common first, or
-- all of them if there are not more: each once, with the number of rows that have it, and none that no row
-- has.
pub distinct_facets-IsCounted :
    (c : FacetColumn) (limit : ℕ) (w : Work)
    → IsCounted
        (not_null (map (λ e. column c e.1) w.file_metadata))
        limit
        (distinct_facets c limit w)
unfolding distinct_facets count_values
distinct_facets-IsCounted c limit w =
    let values = not_null (map (λ e. column c e.1) w.file_metadata) in
    let (once, same) = order_by_count-get (group_by values) (group_by-Distinct values) in
    (
      order_by_count (group_by values),
      once,
      (λ v. same v ∙ get-group_by v values),
      order_by_count-IsDescending (group_by values),
      refl,
    )
