-- ===== src/Http.antt =====
-- The requests and responses that the layers pass on (axum's), the response bodies of src/models.rs, and
-- the code outside the repository that the layers call: `Host`.
use isartor.Common.{ℕ, Text, codes, Bool, leb, ltb, ◌&&◌, Option, none, some, List, [], ◌∷◌, ◌⊎◌}
use isartor.Json.{Json}

-- Which layer resolved the request; an extension of the response.
pub data FinalLayer : Type 0 where
  auth_blocked exact_cache semantic_cache slm cloud : FinalLayer

pub record ChatResponse : Type 0 where
  pub layer : ℕ
  pub message : Text
  pub model : Option Text

-- A response body before it is serialised: `Json` of a `ChatResponse`, of an `OpenAiChatResponse` with
-- one choice of the assistant (its text and the model), or of a value; or a text.
pub data Payload (V : Type 0) : Type 0 where
  chat : ChatResponse → Payload V
  openai_chat : Text → Text → Payload V
  value : V → Payload V
  text : Text → Payload V

-- `header` looks a header up that is valid text. `buffered_body` is the extension `BufferedBody`.
pub record Request : Type 0 where
  pub path : Text
  pub header : Text → Option Text
  pub buffered_body : Option (List ℕ)

-- The body is `none` if it cannot be read to its end.
pub record Response : Type 0 where
  pub status : ℕ
  pub headers : List (Text × Text)
  pub body : Option (List ℕ)
  pub final_layer : Option FinalLayer

abbrev pub is_success : ℕ → Bool
is_success status = leb 200 status && ltb status 300

-- `openai_request_from_slice` parses an `OpenAiChatRequest`: the error's text, or the request's model and the
-- request as a value. SHA-256 is taken of the bytes of a text.
pub record Host (V : Type 0) : Type 0 where
  pub json : Json V
  pub as_object : V → Option V
  pub from_slice : List ℕ → Option V
  pub from_str : Text → Option V
  pub to_vec : V → Option (List ℕ)
  pub openai_request_from_slice : List ℕ → Text ⊎ (Text × V)
  pub encode : Payload V → List ℕ
  pub chat_response_from_slice : List ℕ → Option ChatResponse
  pub chat_response_to_string : ChatResponse → Option Text
  pub from_utf8_lossy : List ℕ → Text
  pub as_bytes : Text → List ℕ
  pub sha256 : Text → List ℕ
  pub hex_encode : List ℕ → Text
  pub to_lowercase : Text → Text
  pub to_uppercase : Text → Text

abbrev pub content_type : Text
content_type = codes "content-type"

abbrev pub json_headers : List (Text × Text)
json_headers = (content_type, codes "application/json") ∷ []

module _ {V : Type 0} (host : Host V) where
  open host use {encode, as_bytes}

  -- `(status, Json(payload)).into_response()`
  abbrev pub json_response : ℕ → Payload V → Response
  json_response status payload = record {
    status = status;
    headers = json_headers;
    body = some (encode payload);
    final_layer = none;
  }

  -- `(status, [(CONTENT_TYPE, "application/json")], text).into_response()`
  abbrev pub json_text_response : ℕ → Text → Response
  json_text_response status t = record {
    status = status;
    headers = json_headers;
    body = some (as_bytes t);
    final_layer = none;
  }

  -- The answer of a layer to a request without one of its extensions.
  abbrev pub misconfigured : ℕ → Text → Response
  misconfigured layer what =
      json_response 500 (chat (record { layer = layer; message = what; model = none }))
