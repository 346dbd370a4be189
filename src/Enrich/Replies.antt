-- ===== src/Enrich/Replies.antt =====
-- crates/dafs-enrich/src/lib.rs: what is read of a reply.
use dafs.Prelude.{
  ◌≡◌, ◌≢◌, refl, sym, ap, ◌∙◌, ◌+◌, ◌-◌, ◌≤◌, ◌<◌, ℕ, Option, none, some, [], ◌∷◌, ◌++◌, length,
  ltb, ltb→lt, Bool-cases, Option-cases, arith, inl, inr, eq_nat,
}
use dafs.Api.LogHistory.{Text}
use dafs.Api.Ends.{length-append, append_assoc}
use dafs.Enrich.{
  Enrichment, Result, err, no_json_in_reply, unexpected_shape, Json, find, rfind, open_brace,
  close_brace, slice, ok_or, parse_model_reply,
}
use dafs.Enrich.Positions.{
  Lacks, find-splits, find-first, rfind-splits, rfind-last, between, drop-length, take-length,
}

-- The text between the outermost braces, these included.
abbrev span_of : Text → Text
span_of inner = open_brace ∷ (inner ++ close_brace ∷ [])

slice-span_of :
    (before inner after : Text)
    → slice
        (length before)
        (length before + 1 + length inner)
        (before ++ open_brace ∷ (inner ++ close_brace ∷ after))
      ≡ span_of inner
slice-span_of before inner after =
    let whole = append_assoc inner (close_brace ∷ []) after in
    let n : length before + 1 + length inner + 1 - length before ≡ length (span_of inner) =
      omega (arith, length-append inner (close_brace ∷ [])) in
    rw (drop-length before (open_brace ∷ (inner ++ close_brace ∷ after)), n, sym whole)
      (take-length (span_of inner) after)

-- The span of a text: from its first opening brace to its last closing one, or `none` if no opening
-- brace has a closing one behind it.
pub IsSpan : Text → Option Text → Type 0
IsSpan content none =
    (before inner after : Text) → content ≢ before ++ open_brace ∷ (inner ++ close_brace ∷ after)
IsSpan content (some span) =
    (before : Text) × (inner : Text) × (after : Text) × (content
      ≡ before ++ open_brace ∷ (inner ++ close_brace ∷ after))
    × (span ≡ span_of inner)
    × Lacks open_brace before
    × Lacks close_brace after

-- What is made of the span.
abbrev pub read_span : {Body : Type 0} → Json Body → Option Text → Result Enrichment
read_span json none = err no_json_in_reply
read_span json (some span) = ok_or (json.model_reply span) unexpected_shape

no_open : (content : Text) → find open_brace content ≡ none → IsSpan content none
unfolding IsSpan
no_open content n before inner after same =
    let (i, e, _) = find-first open_brace before (inner ++ close_brace ∷ after) in
    ground (arith, sym n ∙ ap (find open_brace) same ∙ e)

-- The last closing brace behind an opening one.
rfind-behind :
    (before inner after : Text)
    → (j : ℕ) × (rfind close_brace (before ++ open_brace ∷ (inner ++ close_brace ∷ after)) ≡ some j)
      × (length before < j)
rfind-behind before inner after =
    let (j, e, b) = rfind-last close_brace (before ++ open_brace ∷ inner) after in
    (
      j,
      sym (ap (rfind close_brace) (append_assoc before (open_brace ∷ inner) (close_brace ∷ after)))
          ∙ e,
      omega (arith, b, length-append before (open_brace ∷ inner)),
    )

no_close : (content : Text) → rfind close_brace content ≡ none → IsSpan content none
unfolding IsSpan
no_close content n before inner after same =
    let (j, e, _) = rfind-behind before inner after in
    ground (arith, sym n ∙ ap (rfind close_brace) same ∙ e)

closes_first :
    (content : Text) (i j : ℕ)
    → find open_brace content ≡ some i
    → rfind close_brace content ≡ some j
    → j < i
    → IsSpan content none
unfolding IsSpan
closes_first content i j f g l before inner after same =
    let (i', e, b) = find-first open_brace before (inner ++ close_brace ∷ after) in
    let (j', e', b') = rfind-behind before inner after in
    let first : i ≡ i' = ground (arith, sym f ∙ ap (find open_brace) same ∙ e) in
    let last : j ≡ j' = ground (arith, sym g ∙ ap (rfind close_brace) same ∙ e') in
    omega (arith, first, last, b, b', l)

opens_first :
    (content : Text) (i j : ℕ)
    → find open_brace content ≡ some i
    → rfind close_brace content ≡ some j
    → i ≤ j
    → IsSpan content (some (slice i j content))
unfolding IsSpan
opens_first content i j f g l =
    let (b, r, same, len, lacks) = find-splits open_brace content i f in
    let (h, a, same', len', lacks') = rfind-splits close_brace content j g in
    let (inner, tail, far) =
      between b h r a open_brace close_brace (sym same ∙ same') (omega (arith, len, len', l))
        (λ q. omega (arith, q)) in
    let whole : content ≡ b ++ open_brace ∷ (inner ++ close_brace ∷ a) =
      same ∙ ap (λ z. b ++ open_brace ∷ z) tail in
    let starts : i ≡ length b = sym len in
    let ends : j ≡ length b + 1 + length inner = sym len' ∙ far in
    let cut : slice i j content ≡ span_of inner =
      ap (λ k. slice k j content) starts
      ∙ ap (λ k. slice (length b) k content) ends
      ∙ ap (slice (length b) (length b + 1 + length inner)) whole
      ∙ slice-span_of b inner a in
    (b, inner, a, whole, cut, lacks, lacks')

-- Whatever reads JSON: the model's reply is read from the outermost braces of its text, from the first
-- opening to the last closing brace and both included, and from nothing else of it; there is no JSON in the
-- reply exactly if no opening brace has a closing one behind it, and any other error is that of what
-- reads the span.
pub parse_model_reply-IsSpan :
    {Body : Type 0} (json : Json Body) (content : Text)
    → (span : Option Text) × IsSpan content span
      × (parse_model_reply json content ≡ read_span json span)
unfolding parse_model_reply
parse_model_reply-IsSpan json content = elim (Option-cases (find open_brace content)) [
  | inl n ↦ (none, no_open content n, rw n refl)
  | inr (i, f) ↦ elim (Option-cases (rfind close_brace content)) [
    | inl n ↦ (none, no_close content n, rw (f, n) refl)
    | inr (j, g) ↦ elim (Bool-cases (ltb j i)) [
      | inl h ↦ (none, closes_first content i j f g (ltb→lt j i h), rw (f, g, h) refl)
      | inr h ↦ (
        some (slice i j content),
        opens_first content i j f g (ground (arith, h)),
        rw (f, g, h) refl,
      )
    ]
  ]
]
