-- ===== src/Daemon/Searched.antt =====
-- What a search of crates/dafs-daemon/src/store_adapter.rs returns.
use dafs.Prelude.{
  ℕ, zero, suc, ◌≤◌, ◌≡◌, ◌∙◌, refl, String, true, inl, inr, Option, some, List, [], ◌∷◌, length,
  take, keep, map, In, All, Option-cases, Bool-cases, ◌==◌, eq_nat, arith, nat_eqb_iff,
}
use dafs.HashMap.{HashMap, get, insert, get-insert}
use dafs.Store.Timeline.{TimelineEntry}
use dafs.Store.Catalog.{Work, library}
use dafs.Store.Latest.{AreOf, latest_for_file_ids, latest_for_file_ids-AreOf}
use dafs.Store.Embeddings.{Vec0, Float64}
use dafs.Store.Embeddings
use dafs.Api.Handlers.{SearchFilters}
use dafs.Daemon.StoreAdapter.{
  to_dto, entry_matches_filters, candidate_limit, SearchHit, distances, Searched, found, failed,
  panicked, prepend_hit, with_distances, select_hits, sqlite_search,
}

module _ ⦃float : Float64⦄ where
  -- A hit is an entry of the store that passes the filters.
  abbrev pub Passes : SearchFilters → SearchHit → Type 0
  Passes filters hit =
      (e : TimelineEntry) × (hit.item ≡ to_dto e) × (entry_matches_filters filters e ≡ true)

  -- A search that failed, or at most `limit` hits that pass; not a panic.
  abbrev pub IsSelection : ℕ → SearchFilters → Searched → Type 0
  IsSelection limit filters (found hits) = All (Passes filters) hits × (length hits ≤ limit)
  IsSelection limit filters failed = Unit
  IsSelection limit filters panicked = ⊥

  prepend_hit-IsSelection :
      (limit : ℕ) (filters : SearchFilters) (d : float.F64) (e : TimelineEntry) (s : Searched)
      → entry_matches_filters filters e ≡ true
      → IsSelection limit filters s
      → IsSelection (suc limit) filters (prepend_hit d e s)
  prepend_hit-IsSelection limit filters d e (found hits) p (all, short) =
      (((e, refl, p), all), omega (arith, short))
  prepend_hit-IsSelection limit filters d e failed p h = tt
  prepend_hit-IsSelection limit filters d e panicked p h = h

  -- The entries that have a distance and pass.
  abbrev Usable : HashMap ℕ float.F64 → SearchFilters → TimelineEntry → Type 0
  Usable t filters e =
      ((d : float.F64) × (get e.file_id t ≡ some d)) × (entry_matches_filters filters e ≡ true)

  with_distances-IsSelection :
      (t : HashMap ℕ float.F64) (filters : SearchFilters) (entries : List TimelineEntry)
      → All (Usable t filters) entries
      → IsSelection (length entries) filters (with_distances t entries)
  unfolding with_distances
  with_distances-IsSelection t filters [] h = (tt, omega arith)
  with_distances-IsSelection t filters (e ∷ entries) (((d, there), p), h) =
      rw (there, with_distances)
        (prepend_hit-IsSelection (length entries) filters d e (with_distances t entries) p
          (with_distances-IsSelection t filters entries h))

  distances-kept :
      (hits : List (ℕ × float.F64)) (t : HashMap ℕ float.F64) (id : ℕ) (d : float.F64)
      → get id t ≡ some d
      → (x : float.F64) × (get id (distances hits t) ≡ some x)
  distances-kept [] t id d h = (d, h)
  distances-kept (y ∷ hits) t id d h = elim (Bool-cases (y.0 == id)) [
    | inl e ↦ distances-kept hits (insert y.0 y.1 t) id y.1 (get-insert y.0 id y.1 t ∙ rw e refl)
    | inr e ↦ distances-kept hits (insert y.0 y.1 t) id d (get-insert y.0 id y.1 t ∙ rw e h)
  ]

  distances-there :
      (hits : List (ℕ × float.F64)) (t : HashMap ℕ float.F64) (id : ℕ)
      → In id (map (λ h. h.0) hits)
      → (x : float.F64) × (get id (distances hits t) ≡ some x)
  distances-there [] t id i = absurd i
  distances-there (y ∷ hits) t id (inl same) =
      let e : (y.0 == id) ≡ true = (nat_eqb_iff y.0 id).1 same in
      distances-kept hits (insert y.0 y.1 t) id y.1 (get-insert y.0 id y.1 t ∙ rw e refl)
  distances-there (y ∷ hits) t id (inr i) = distances-there hits (insert y.0 y.1 t) id i

  selected-Usable :
      (hits : List (ℕ × float.F64)) (filters : SearchFilters) (limit : ℕ)
      (entries : List TimelineEntry)
      → AreOf (map (λ h. h.0) hits) entries
      → All
          (Usable (distances hits []) filters)
          (take limit (keep (entry_matches_filters filters) entries))
  selected-Usable hits filters zero entries h = tt
  selected-Usable hits filters (suc limit) [] h = tt
  selected-Usable hits filters (suc limit) (e ∷ entries) (i, h) =
      elim (Bool-cases (entry_matches_filters filters e)) [
        | inl p ↦
            rw p (
              (distances-there hits [] e.file_id i, p),
              selected-Usable hits filters limit entries h,
            )
        | inr p ↦ rw p (selected-Usable hits filters (suc limit) entries h)
      ]

  length-take : {A : Type 0} (n : ℕ) (xs : List A) → length (take n xs) ≤ n
  length-take zero xs = omega arith
  length-take (suc n) [] = omega arith
  length-take (suc n) (x ∷ xs) = omega (arith, length-take n xs)

  shorter-IsSelection :
      (n limit : ℕ) (filters : SearchFilters) (s : Searched)
      → n ≤ limit
      → IsSelection n filters s
      → IsSelection limit filters s
  shorter-IsSelection n limit filters (found hits) l (all, short) = (all, omega (arith, l, short))
  shorter-IsSelection n limit filters failed l h = tt
  shorter-IsSelection n limit filters panicked l h = h

  select_hits-IsSelection :
      (limit : ℕ) (filters : SearchFilters) (w : Work) (hits : List (ℕ × float.F64))
      → IsSelection limit filters (select_hits limit filters w hits)
  unfolding select_hits
  select_hits-IsSelection limit filters w hits =
      let ids = map (λ h. h.0) hits in
      let entries = latest_for_file_ids (library w) ids in
      let kept = take limit (keep (entry_matches_filters filters) entries) in
      shorter-IsSelection (length kept) limit filters (with_distances (distances hits []) kept)
        (length-take limit (keep (entry_matches_filters filters) entries))
        (with_distances-IsSelection (distances hits []) filters kept
          (selected-Usable hits filters limit entries (latest_for_file_ids-AreOf (library w) ids)))

  -- A search never panics for want of a distance: it fails, or returns at most `limit` hits, each an
  -- entry that passes every filter that is set.
  pub sqlite_search-IsSelection :
      ⦃vec : Vec0⦄ (embed : String → Option (List ℕ)) (query : String) (limit : ℕ)
      (filters : SearchFilters) (w : Work)
      → IsSelection limit filters (sqlite_search embed query limit filters w)
  unfolding sqlite_search
  sqlite_search-IsSelection embed query limit filters w = elim (Option-cases (embed query)) [
    | inl e ↦ rw (e, sqlite_search) tt
    | inr (vector, e) ↦
        elim (Option-cases (Embeddings.search vector (candidate_limit limit filters) w)) [
          | inl f ↦ rw (e, sqlite_search, f) tt
          | inr (hits, f) ↦ rw (e, sqlite_search, f) (select_hits-IsSelection limit filters w hits)
        ]
  ]
