-- ===== src/Enrich.antt =====
-- crates/dafs-enrich/src/lib.rs: the client of the models. What answers a request (the network and
-- `ureq`) and what reads JSON (`serde_json`) are arguments.
use dafs.Prelude.{
  ℕ, String, Bool, Option, none, some, List, [], ◌∷◌, ◌+◌, ◌-◌, length, take, ltb, if◌then◌else◌,
  ◌==◌, eq_nat,
}
use dafs.Api.LogHistory.{Text, drop}
use dafs.Extract.{take_chars}
pub mod Positions
pub mod Replies
pub mod Dimensions

abbrev pub max_input_chars : ℕ
max_input_chars = 8000

pub record EmbeddingConfig : Type 0 where
  pub model : String
  pub dimensions : ℕ

-- The time limit of a request is part of what answers it.
pub record Config : Type 0 where
  pub base_url : String
  pub api_key : Option String
  pub model : String
  pub embedding : Option EmbeddingConfig

pub record Enrichment : Type 0 where
  pub summary : Option String
  pub keywords : List String
  pub entities : List String
  pub classification : Option String

-- `got` of the last one is the length of the vector. The errors of the libraries are left out.
pub data EnrichError : Type 0 where
  connection : String → EnrichError
  status : String → ℕ → EnrichError
  unreadable_body malformed_envelope no_choices no_json_in_reply unexpected_shape : EnrichError
  embeddings_not_configured no_embedding_data : EnrichError
  unexpected_dimensions : String → ℕ → ℕ → EnrichError

pub data Result (A : Type 0) : Type 0 where
  ok : A → Result A
  err : EnrichError → Result A

abbrev pub try_with : {A B : Type 0} → Result A → (A → Result B) → Result B
try_with (ok a) f = f a
try_with (err e) f = err e

abbrev pub ok_or : {A : Type 0} → Option A → EnrichError → Result A
ok_or none e = err e
ok_or (some a) e = ok a

-- The two request bodies; of the messages of a chat it has that of the user, since that of the system
-- and the temperature are fixed.
pub data RequestBody : Type 0 where
  chat_request : String → String → RequestBody
  embedding_request : String → String → RequestBody

pub data Route : Type 0 where
  chat_completions embeddings : Route

-- The URL as the base, without the slashes at its end, and the route; the key of `Authorization`.
pub record Request : Type 0 where
  pub base_url : String
  pub route : Route
  pub authorization : Option String
  pub body : RequestBody

-- What `send_json` and `into_string` give; `Body` is the text of a response.
pub data Answer (Body : Type 0) : Type 0 where
  response : Body → Answer Body
  status_code : ℕ → Answer Body
  transport interrupted : Answer Body

-- `serde_json::from_str` at the three types of a reply: the contents of the choices, the vectors of the
-- data, and the object of the model, with its defaults; `none` is an error.
pub record Json (Body : Type 0) : Type 0 where
  pub chat_response : Body → Option (List Text)
  pub embedding_response : Body → Option (List (List ℕ))
  pub model_reply : Text → Option Enrichment

unfoldable pub cap_input : String → String
unfolding take_chars
cap_input = take_chars max_input_chars

-- `find` and `rfind`, by characters.
unfoldable pub find : ℕ → Text → Option ℕ
find c [] = none
find c (x ∷ xs) =
    let later = find c xs in
    if x == c then some 0 else elim later [ none ↦ none | some i ↦ some (i + 1) ]

unfoldable pub rfind : ℕ → Text → Option ℕ
rfind c [] = none
rfind c (x ∷ xs) = elim (rfind c xs) [
  | none ↦ if x == c then some 0 else none
  | some i ↦ some (i + 1)
]

abbrev pub open_brace : ℕ
open_brace = 123

abbrev pub close_brace : ℕ
close_brace = 125

-- `&content[start..=end]`
abbrev pub slice : ℕ → ℕ → Text → Text
slice start end content = take (end + 1 - start) (drop start content)

-- `first()`
abbrev pub first_choice : List Text → Result Text
first_choice [] = err no_choices
first_choice (content ∷ choices) = ok content

abbrev pub first_vector : List (List ℕ) → Result (List ℕ)
first_vector [] = err no_embedding_data
first_vector (vector ∷ data_) = ok vector

-- From `send_json` to the body.
abbrev pub body_of : {Body : Type 0} → Config → Answer Body → Result Body
body_of config (response body) = ok body
body_of config (status_code code) = err (status config.base_url code)
body_of config transport = err (connection config.base_url)
body_of config interrupted = err unreadable_body

module _ {Body : Type 0} (json : Json Body) where
  unfoldable pub parse_model_reply : Text → Result Enrichment
  unfolding find rfind
  parse_model_reply content = try_with (ok_or (find open_brace content) no_json_in_reply) (λ start.
      try_with (ok_or (rfind close_brace content) no_json_in_reply) (λ end.
        if ltb end start
        then err no_json_in_reply
        else ok_or (json.model_reply (slice start end content)) unexpected_shape))

  unfoldable pub parse_chat_response : Body → Result Enrichment
  unfolding parse_model_reply
  parse_chat_response body =
      try_with (ok_or (json.chat_response body) malformed_envelope)
        (λ choices. try_with (first_choice choices) parse_model_reply)

  unfoldable pub parse_embedding_response : Body → String → ℕ → Result (List ℕ)
  parse_embedding_response body model expected =
      try_with (ok_or (json.embedding_response body) malformed_envelope) (λ data_.
        try_with (first_vector data_) (λ vector.
          if length vector == expected
          then ok vector
          else err (unexpected_dimensions model expected (length vector))))

  module _ (trim_slashes : String → String) (send : Request → Answer Body) where
    unfoldable pub enrich : String → Config → Result Enrichment
    unfolding cap_input parse_chat_response
    enrich text config =
        try_with
          (body_of config (
            send (record {
              base_url = trim_slashes config.base_url;
              route = chat_completions;
              authorization = config.api_key;
              body = chat_request config.model (cap_input text);
            })))
          parse_chat_response

    unfoldable pub embed : String → Config → Result (List ℕ)
    unfolding cap_input parse_embedding_response
    embed text config = try_with (ok_or config.embedding embeddings_not_configured) (λ c.
        try_with
          (body_of config (
            send (record {
              base_url = trim_slashes config.base_url;
              route = embeddings;
              authorization = config.api_key;
              body = embedding_request c.model (cap_input text);
            })))
          (λ body. parse_embedding_response body c.model c.dimensions))
