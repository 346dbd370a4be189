-- ===== src/Scan/Changes.antt =====
-- What the calls of the live watch leave in the log.
use dafs.Prelude.{
  ℕ, String, ◌≡◌, refl, subst, false, inl, inr, Option, none, some, List, [], ◌∷◌, arith, eq_nat,
  eq_string, nat_eqb_iff,
}
use dafs.HashMap.{get}
use dafs.FilePath.{FilePath, PathBuf, file_name, parent}
use dafs.Store.Tables.{FileRow, EventRow, deleted, Db, Sqlite}
use dafs.Store.Exec.{Store, Exec, Result, ok, err, pure, continue, ◌>>=◌}
use dafs.Store.Statements.{component_id_of, update_file, insert_event, select_live}
use dafs.Store.Paths.{ensure_dir_chain}
use dafs.Scan.Lookup.{owning_root, relative_to, place, lookup_parent, descend_from}
use dafs.Scan.Recording.{
  Metadata, Stat, found, not_found, unreadable, World, event_now, observe, tombstone, mark_deleted,
  remove_live, remove_under, remove_named, remove_below, record_removal, report, record_named,
  record_stat, record_below, record_path,
}
use dafs.Scan.Quiet.{Quiet, bind-Quiet, ensure_dir_chain-Quiet, place-Quiet, update_file-Quiet}
use dafs.Scan.Recorded.{Recorded, observe-Records}
use dafs.Scan.Logging.{
  HasEvent, IsLoggedWith, Inserted, insert_event-Inserted, with_event, without_event,
}

-- Where the call succeeds, a log that was complete is so afterwards.
abbrev pub IsComplete : Store → Type 0
IsComplete s = IsLoggedWith [] s.db

abbrev pub Keeps : {A : Type 0} → Exec A → Type 0
Keeps {A} m = (s : Store) → IsComplete s → (a : A) → (m s).0 ≡ ok a → IsComplete (m s).1

pub Quiet-Keeps : {A : Type 0} (m : Exec A) → Quiet m → Keeps m
Quiet-Keeps m q s l a h i f = elim (l i ((q s).old i f)) [
  | inl (j, e, g, k) ↦ inl (j, e, rw (q s).log g, k)
  | inr none_there ↦ inr none_there
]

module _ {A B : Type 0} where
  continue-Keeps :
      (r : Result A) (f : A → Exec B) (s : Store)
      → ((a : A) → r ≡ ok a → IsComplete s)
      → ((a : A) → Keeps (f a))
      → (b : B) → (continue r f s).0 ≡ ok b
      → IsComplete (continue r f s).1
  continue-Keeps (ok a) f s l k b h = k a s (l a refl) b h
  continue-Keeps (err e) f s l k b h = cc

  pub bind-Keeps :
      (m : Exec A) (f : A → Exec B) → Keeps m → ((a : A) → Keeps (f a)) → Keeps (m >>= f)
  bind-Keeps m f p k s l b h = continue-Keeps (m s).0 f (m s).1 (p s l) k b h

pub pure-Keeps : {A : Type 0} (a : A) → Keeps (pure a)
pure-Keeps a s l b h = l

module _ ⦃sql : Sqlite⦄ where
  pub insert_event-Keeps : (e : EventRow) → Keeps (insert_event e)
  insert_event-Keeps e s l id h i f =
      let p = insert_event-Inserted e s in
      elim (l i (subst (λ t. (q : FileRow) × (get i t ≡ some q) × (q.is_dir ≡ false)) p.files f)) [
        | inl event ↦ inl (p.kept i event)
        | inr none_there ↦ inr none_there
      ]

  pub mark_deleted-Keeps : (now id : ℕ) → Keeps (mark_deleted now id)
  unfolding mark_deleted
  mark_deleted-Keeps now id =
      bind-Keeps (update_file id (tombstone now)) _
        (Quiet-Keeps (update_file id (tombstone now))
          (update_file-Quiet id (tombstone now) (λ r. refl)))
        λ _.
          bind-Keeps (insert_event (event_now id deleted none now)) _
            (insert_event-Keeps (event_now id deleted none now)) λ _. pure-Keeps tt

  remove_live-Keeps : (now : ℕ) (o : Option (ℕ × FileRow)) → Keeps (remove_live now o)
  remove_live-Keeps now none = pure-Keeps tt
  remove_live-Keeps now (some (id, _)) = mark_deleted-Keeps now id

  remove_under-Keeps :
      (now component_id : ℕ) (o : Option ℕ) → Keeps (remove_under now component_id o)
  remove_under-Keeps now component_id none = pure-Keeps tt
  remove_under-Keeps now component_id (some p) =
      λ s. remove_live-Keeps now (select_live (some p) component_id s.db) s

  descend_from-Quiet : (id : ℕ) (o : Option FilePath) → Quiet (descend_from id o)
  descend_from-Quiet id none = λ s. record { log = refl; old = λ i f. f }
  descend_from-Quiet id (some p) = λ s. record { log = refl; old = λ i f. f }

  pub lookup_parent-Quiet : (root relative : FilePath) → Quiet (lookup_parent root relative)
  unfolding lookup_parent
  lookup_parent-Quiet root relative =
      bind-Quiet (ensure_dir_chain root) _ (ensure_dir_chain-Quiet root)
        λ id. descend_from-Quiet id (parent relative)

  remove_named-Keeps :
      (now : ℕ) (root path : FilePath) (o : Option ℕ) → Keeps (remove_named now root path o)
  remove_named-Keeps now root path none = pure-Keeps tt
  remove_named-Keeps now root path (some c) =
      let m = lookup_parent root (relative_to root path) in
      bind-Keeps m _ (Quiet-Keeps m (lookup_parent-Quiet root (relative_to root path)))
        (remove_under-Keeps now c)

  remove_below-Keeps :
      (now : ℕ) (path : FilePath) (root : Option FilePath) (name : Option String)
      → Keeps (remove_below now path root name)
  remove_below-Keeps now path none name = pure-Keeps tt
  remove_below-Keeps now path (some root) none = pure-Keeps tt
  remove_below-Keeps now path (some root) (some name) =
      λ s. remove_named-Keeps now root path (component_id_of name s.db.path_components) s

  pub record_removal-Keeps :
      (roots : List PathBuf) (world : World) (path : FilePath)
      → Keeps (record_removal roots world path)
  unfolding record_removal
  record_removal-Keeps roots world path =
      remove_below-Keeps world.now path (owning_root roots path) (file_name path)

  Inserted-IsComplete :
      (e : EventRow) (db : Db) (out : Result ℕ × Store) (v : Option ℕ)
      → Inserted e db out.0 out.1.db
      → IsLoggedWith (e ∷ []) db
      → (b : Option ℕ) → (continue out.0 (λ _. pure v) out.1).0 ≡ ok b
      → IsComplete (continue out.0 (λ _. pure v) out.1).1
  Inserted-IsComplete e db (err x, t) v p l b h = cc
  Inserted-IsComplete e db (ok id, t) v p l b h = λ i f.
      elim (l i (subst (λ t. (q : FileRow) × (get i t ≡ some q) × (q.is_dir ≡ false)) p.files f)) [
        | inl event ↦ inl (p.kept i event)
        | inr named ↦
            let same : e.file_id ≡ i = ground (arith, named, nat_eqb_iff e.file_id i) in
            inl (subst (λ n. HasEvent n t.db) same (p.new id refl))
      ]

  continue-report-IsComplete :
      (db : Db) (r : Result (Option EventRow)) (s : Store)
      → Recorded db r s.db
      → IsLoggedWith [] db
      → (b : Option ℕ) → (continue r report s).0 ≡ ok b
      → IsComplete (continue r report s).1
  continue-report-IsComplete db (err x) s p l b h = cc
  continue-report-IsComplete db (ok none) s p l b h =
      without_event [] (ok none) db s.db p (λ _ k. cc) l
  continue-report-IsComplete db (ok (some e)) s p l b h =
      Inserted-IsComplete e s.db (insert_event e s) (some e.file_id) (insert_event-Inserted e s)
        (with_event [] e db s.db p l) b h

  record_named-Keeps :
      (now : ℕ) (m : Metadata) (parent_id : ℕ) (o : Option String)
      → Keeps (record_named now m parent_id o)
  record_named-Keeps now m parent_id none = pure-Keeps none
  record_named-Keeps now m parent_id (some name) = λ s l b h.
      let o = observe parent_id name m now s in
      continue-report-IsComplete s.db o.0 o.1 (observe-Records parent_id name m now s) l b h

  record_stat-Keeps :
      (roots : List PathBuf) (world : World) (root path : FilePath) (stat : Stat)
      → Keeps (record_stat roots world root path stat)
  record_stat-Keeps roots world root path not_found =
      bind-Keeps (record_removal roots world path) _ (record_removal-Keeps roots world path)
        λ _. pure-Keeps none
  record_stat-Keeps roots world root path unreadable = pure-Keeps none
  record_stat-Keeps roots world root path (found m) =
      bind-Keeps (ensure_dir_chain root) _
        (Quiet-Keeps (ensure_dir_chain root) (ensure_dir_chain-Quiet root))
        λ root_id.
          let at = place root_id (relative_to root path) in
          bind-Keeps at _ (Quiet-Keeps at (place-Quiet root_id (relative_to root path)))
            λ parent_id. record_named-Keeps world.now m parent_id (file_name path)

  record_below-Keeps :
      (roots : List PathBuf) (world : World) (path : FilePath) (o : Option FilePath)
      → Keeps (record_below roots world path o)
  record_below-Keeps roots world path none = pure-Keeps none
  record_below-Keeps roots world path (some root) =
      record_stat-Keeps roots world root path (world.lstat path)

  pub record_path-Keeps :
      (roots : List PathBuf) (world : World) (path : FilePath)
      → Keeps (record_path roots world path)
  unfolding record_path
  record_path-Keeps roots world path = record_below-Keeps roots world path (owning_root roots path)
