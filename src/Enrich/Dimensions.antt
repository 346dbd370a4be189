-- ===== src/Enrich/Dimensions.antt =====
-- crates/dafs-enrich/src/lib.rs and crates/dafs-store/src/embeddings.rs: an embedding that the client
-- hands on is one that the tables take.
use dafs.Prelude.{
  ◌≡◌, ℕ, String, some, List, length, Bool-cases, arith, inl, inr, if◌then◌else◌, ◌==◌, eq_nat,
}
use dafs.Store.Catalog.{Work}
use dafs.Store.Embeddings.{Vec0, done, ensure_table, store}
use dafs.Store.Lockstep.{IsLockstep, store_iff}
use dafs.Store.Prepared.{ensure_table-IsLockstep, ensure_table-config}
use dafs.Enrich.{
  EmbeddingConfig, Config, Result, ok, err, Request, Answer, Json, embeddings, embed,
  unexpected_dimensions, malformed_envelope, parse_embedding_response, first_vector, body_of,
  embedding_request, cap_input, try_with, ok_or,
}

try_with-ok :
    {A B : Type 0} (r : Result A) (f : A → Result B) (b : B)
    → try_with r f ≡ ok b
    → (a : A) × (f a ≡ ok b)
try_with-ok (ok a) f b e = (a, e)
try_with-ok (err x) f b e = absurd (ground (arith, e))

module _ {Body : Type 0} (json : Json Body) where
  parse_embedding_response-length :
      (body : Body) (model : String) (expected : ℕ) (vector : List ℕ)
      → parse_embedding_response json body model expected ≡ ok vector
      → length vector ≡ expected
  unfolding parse_embedding_response
  parse_embedding_response-length body model expected vector e =
      let check = λ (v : List ℕ).
        if length v == expected
        then ok v
        else err (unexpected_dimensions model expected (length v)) in
      let (data_, first) =
        try_with-ok (ok_or (json.embedding_response body) malformed_envelope)
          (λ data_. try_with (first_vector data_) check) vector e in
      let (v, checked) = try_with-ok (first_vector data_) check vector first in
      elim (Bool-cases (length v == expected)) [
        | inl h ↦ ground (arith, rw h at checked, h)
        | inr h ↦ absurd (ground (arith, rw h at checked))
      ]

  module _ (trim_slashes : String → String) (send : Request → Answer Body) where
    embed-length :
        (text : String) (config : Config) (c : EmbeddingConfig) (vector : List ℕ)
        → config.embedding ≡ some c
        → embed json trim_slashes send text config ≡ ok vector
        → length vector ≡ c.dimensions
    unfolding embed
    embed-length text config c vector set e =
        let (body, parsed) =
          try_with-ok
            (body_of config (
              send (record {
                base_url = trim_slashes config.base_url;
                route = embeddings;
                authorization = config.api_key;
                body = embedding_request c.model (cap_input text);
              })))
            (λ body. parse_embedding_response json body c.model c.dimensions) vector
            (rw set at e) in
        parse_embedding_response-length body c.model c.dimensions vector parsed

    -- With the tables in lockstep before the start, and set up at the start for the configured model and its
    -- dimensions: whatever the endpoint and the reader of JSON answer, a vector that `embed` returns is
    -- one that `store` takes.
    pub embed-store :
        ⦃vec : Vec0⦄ (text : String) (config : Config) (c : EmbeddingConfig) (vector : List ℕ)
        (file_id : ℕ) (w : Work)
        → IsLockstep w
        → config.embedding ≡ some c
        → (ensure_table c.model c.dimensions w).0 ≡ done
        → embed json trim_slashes send text config ≡ ok vector
        → (store file_id vector (ensure_table c.model c.dimensions w).1).0 ≡ done
    embed-store text config c vector file_id w l set prepared e =
        let fits =
          store_iff file_id vector (record { model = c.model; dimensions = c.dimensions })
            (ensure_table c.model c.dimensions w).1
            (ensure_table-IsLockstep c.model c.dimensions w l)
            (ensure_table-config c.model c.dimensions w prepared) in
        fits.1 (embed-length text config c vector set e)
