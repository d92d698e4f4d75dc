-- ===== src/Http.antt =====
-- What the services ask of each other over HTTP, as `fetch` asks it. A network is a function that takes
-- its state, and returns the response with the next; no response is an error that `fetch` throws.
use beckn_data_commons.Base.{ℕ, String, Bool, ◌&&◌, leb, ltb, Option, some, ◌>>=◌, or_else}
use beckn_data_commons.Json.{Json, obj, end, wire}

-- The body is what `JSON.stringify` keeps of a value.
pub record Request : Type 0 where
  pub method : String
  pub url : String
  pub body : Option Json
  -- the header `Authorization`
  pub authorization : Option String

pub record Response : Type 0 where
  pub status : ℕ
  pub status_text : String
  -- the body as JSON, where it is JSON, and as a text
  pub json : Option Json
  pub text : String
  pub content_type : Option String
  pub content_disposition : Option String

-- `res.ok`
abbrev pub is_ok : Response → Bool
is_ok res = leb 200 res.status && ltb res.status 300

-- `res.json().catch(() => ({}))`
abbrev pub json_of : Response → Json
json_of res = or_else res.json (obj end)

abbrev pub post : Option String → String → Json → Request
post authorization url body = record {
  method = "POST";
  url = url;
  body = some (wire body);
  authorization = authorization;
}

-- what is made of a result of the network; an error that was thrown stays one
abbrev pub then_read : {A B N : Type 0} → (A → Option B) → Option A × N → Option B × N
then_read read r = (r.0 >>= read, r.1)
