-- ===== src/Api/LogEvents.antt =====
-- The ring of crates/dafs-api/src/log_history.rs over the log events of `init_tracing` in
-- crates/dafs-daemon/src/main.rs.
use dafs.Prelude.{
  ℕ, ◌≡◌, ◌∙◌, refl, sym, ap, inl, inr, Option, List, [], ◌∷◌, ◌++◌, Bool-cases, if◌then◌else◌,
  eq_nat,
}
use dafs.Api.Ends.{last, append_nil, append_assoc}
use dafs.Api.LogHistory.{Text, capacity, LogHistoryWriter, is_empty, push_line, write, drop_writer}
use dafs.Api.LogLines.{
  kept, lines_of, Holds, kept-append, push_line-last, write_all, written, write_all-Holds,
}

module _ (from_utf8 : List ℕ → Option Text) where
  -- The formatter makes a writer for each event, and drops it when the event is written.
  unfoldable pub log_event : List (List ℕ) → List Text → List Text
  unfolding write drop_writer
  log_event bufs ring =
      (drop_writer (write_all from_utf8 bufs (record { history = ring; buffer = [] }))).history

  unfoldable pub log_events : List (List (List ℕ)) → List Text → List Text
  unfolding log_event
  log_events [] ring = ring
  log_events (bufs ∷ events) ring = log_events events (log_event bufs ring)

  -- The lines of a text, with what stands behind the last newline as one of them.
  abbrev pub all_lines : Text → List Text
  all_lines text = (lines_of text).0 ++ (lines_of text).1 ∷ []

  -- The lines of the events, those without text left out.
  abbrev pub event_lines : List (List (List ℕ)) → List Text
  event_lines [] = []
  event_lines (bufs ∷ events) = kept (all_lines (written from_utf8 bufs)) ++ event_lines events

  drop_writer-history :
      (w : LogHistoryWriter)
      → (drop_writer w).history
        ≡ (if is_empty w.buffer then w.history else push_line w.buffer w.history)
  unfolding drop_writer
  drop_writer-history w = elim (Bool-cases (is_empty w.buffer)) [
    | inl e ↦ rw (drop_writer, e) refl
    | inr e ↦ rw (drop_writer, e) refl
  ]

  drop_writer-last :
      (seen : List Text) (text : Text) (w : LogHistoryWriter)
      → Holds seen text w
      → (drop_writer w).history ≡ last capacity (seen ++ kept (all_lines text))
  drop_writer-last seen text w (hist, buffered) =
      let (lines, rest) = lines_of text in
      let split : kept lines ++ kept (rest ∷ []) ≡ kept (all_lines text) =
        kept-append lines (rest ∷ []) in
      elim (Bool-cases (is_empty rest)) [
        | inl e ↦
            let same : kept lines ≡ kept (all_lines text) =
              sym (append_nil (kept lines)) ∙ (rw e at split) in
            drop_writer-history w
            ∙ rw (buffered, e) (hist ∙ ap (λ l. last capacity (seen ++ l)) same)
        | inr e ↦
            let same : kept lines ++ rest ∷ [] ≡ kept (all_lines text) = rw e at split in
            drop_writer-history w
            ∙ rw (buffered, e)
                (ap (push_line rest) hist
                  ∙ push_line-last rest (seen ++ kept lines) e
                  ∙ ap (last capacity)
                      (append_assoc seen (kept lines) (rest ∷ []) ∙ ap (λ l. seen ++ l) same))
      ]

  log_event-last :
      (bufs : List (List ℕ)) (seen : List Text)
      → log_event bufs (last capacity seen)
        ≡ last capacity (seen ++ kept (all_lines (written from_utf8 bufs)))
  unfolding log_event lines_of
  log_event-last bufs seen =
      let w : LogHistoryWriter = record { history = last capacity seen; buffer = [] } in
      drop_writer-last seen (written from_utf8 bufs) (write_all from_utf8 bufs w) (
        write_all-Holds from_utf8 seen bufs [] w (ap (last capacity) (sym (append_nil seen)), refl))

  -- However many events are written, one writer after the other, and however each is cut into calls.
  pub log_events-last :
      (events : List (List (List ℕ))) (seen : List Text)
      → log_events events (last capacity seen) ≡ last capacity (seen ++ event_lines events)
  unfolding log_events
  log_events-last [] seen = ap (last capacity) (sym (append_nil seen))
  log_events-last (bufs ∷ events) seen =
      let here = kept (all_lines (written from_utf8 bufs)) in
      ap (log_events events) (log_event-last bufs seen)
      ∙ log_events-last events (seen ++ here)
      ∙ ap (last capacity) (append_assoc seen here (event_lines events))
