-- ===== src/Tests/EnrichRuns.antt =====
-- Runs of the client of crates/dafs-enrich, with an endpoint and a reader of JSON to stand for those
-- outside.
use dafs.Prelude.{ℕ, Option, none, some, [], ◌∷◌, ◌≡◌, refl}
use dafs.Api.LogHistory.{Text}
use dafs.Store.Catalog.{empty_work}
use dafs.Store.Embeddings.{done, ensure_table, store}
use dafs.Enrich.{
  Config, ok, err, no_json_in_reply, unexpected_dimensions, Request, Answer, response, Json, embed,
  parse_model_reply,
}
use dafs.Enrich.Replies.{IsSpan, read_span, parse_model_reply-IsSpan}
use dafs.Enrich.Dimensions.{embed-store}
use dafs.Tests.VectorRuns.{vec}

-- A body is a number, and names the vector that it holds.
abbrev json : Json ℕ
json = record {
  chat_response = λ body. none;
  embedding_response = λ body. some ((body ∷ body ∷ 1 ∷ []) ∷ []);
  model_reply =
      λ span. some (record { summary = none; keywords = []; entities = []; classification = none });
}

abbrev send : Request → Answer ℕ
send request = response 7

abbrev configured : ℕ → Config
configured dimensions = record {
  base_url = "http://localhost/v1";
  api_key = none;
  model = "chat";
  embedding = some (record { model = "m"; dimensions = dimensions });
}

embeds : embed json (λ url. url) send "text" (configured 3) ≡ ok (7 ∷ 7 ∷ 1 ∷ [])
unfolding embed
embeds = refl

misfit : embed json (λ url. url) send "text" (configured 4) ≡ err (unexpected_dimensions "m" 4 3)
unfolding embed
misfit = refl

-- `x{y}}`
abbrev braces : Text
braces = 120 ∷ 123 ∷ 121 ∷ 125 ∷ 125 ∷ []

-- `}{`
abbrev crossed : Text
crossed = 125 ∷ 123 ∷ []

no_json : parse_model_reply json crossed ≡ err no_json_in_reply
unfolding parse_model_reply
no_json = refl

parse_model_reply-IsSpan_example :
    (span : Option Text) × IsSpan braces span
    × (parse_model_reply json braces ≡ read_span json span)
parse_model_reply-IsSpan_example = parse_model_reply-IsSpan json braces

embed-store_example : (store 8 (7 ∷ 7 ∷ 1 ∷ []) (ensure_table "m" 3 empty_work).1).0 ≡ done
unfolding ensure_table
embed-store_example =
    embed-store json (λ url. url) send "text" (configured 3)
      (record { model = "m"; dimensions = 3 }) (7 ∷ 7 ∷ 1 ∷ []) 8 empty_work tt refl refl embeds
