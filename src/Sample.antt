-- ===== src/Sample.antt =====
-- A concrete gateway for the tests of the layers: JSON trees that parse from their prints, a bounded exact
-- cache, and a provider and a sidecar that always say the same.
use isartor.Common.{
  ℕ, ◌+◌, ◌*◌, ◌/◌, Text, codes, text_eq, to_ascii_lowercase, Bool, false, leb, ltb, ◌==◌,
  if◌then◌else◌, Option, none, some, List, [], ◌∷◌, ◌⊎◌, inl,
}
use isartor.Json.Tree.{Value, string, object, array, field, end, cons, nil, to_string, tree}
use isartor.Http.{Host, Request, Response, Payload, cloud, chat, openai_chat, value, text}
use isartor.ExactCache.Bounded.{Entries, bounded}
use isartor.VectorCache.{Floats, new}
use isartor.Health.{default_state}
use isartor.Config.{AppConfig, CacheMode, sidecar, binary, openai}
use isartor.AppState.{AppState, Outside, Next}

abbrev pub message : Text → Text → Value
message role content =
    object (field (codes "role") (string role) (field (codes "content") (string content) end))

-- {"prompt": "hi", "model": "m"}
abbrev pub native_doc : Value
native_doc =
    object (
      field (codes "prompt") (string (codes "hi")) (field (codes "model") (string (codes "m")) end))

-- {"prompt": "hi", "model": "n"}
abbrev pub renamed_doc : Value
renamed_doc =
    object (
      field (codes "prompt") (string (codes "hi")) (field (codes "model") (string (codes "n")) end))

-- {"prompt": "hi", "model": "m", "user": "u"}
abbrev pub named_doc : Value
named_doc = object (
    field (codes "prompt") (string (codes "hi"))
      (field (codes "model") (string (codes "m")) (field (codes "user") (string (codes "u")) end)))

-- {"messages": [...]}, with two questions before an answer.
abbrev pub chat_doc : Value
chat_doc = object (
    field (codes "messages")
      (array (
        cons (message (codes "user") (codes "one")) (
          cons (message (codes "user") (codes "two"))
            (cons (message (codes "assistant") (codes "three")) nil))))
      end)

-- A parser of the prints of some documents.
unfoldable pub parse : List Value → List ℕ → Option Value
unfolding to_string
parse [] bytes = none
parse (d ∷ docs) bytes =
    let rest = parse docs bytes in if text_eq (to_string d) bytes then some d else rest

unfoldable pub from_slice : List ℕ → Option Value
unfolding parse
from_slice bytes = parse (native_doc ∷ renamed_doc ∷ named_doc ∷ chat_doc ∷ []) bytes

unfoldable pub print : Value → List ℕ
unfolding to_string
print v = to_string v

abbrev pub objects : Value → Option Value
objects (object fs) = some (object fs)
objects _ = none

unfoldable pub encode : Payload Value → List ℕ
unfolding print
encode (chat r) = r.message
encode (openai_chat answer model) = answer
encode (value v) = print v
encode (text t) = t

abbrev pub host : Host Value
host = record {
  json = tree;
  as_object = objects;
  from_slice = from_slice;
  from_str = from_slice;
  to_vec = λ v. some (print v);
  openai_request_from_slice = λ bytes. inl (codes "unreadable");
  encode = encode;
  chat_response_from_slice = λ bytes. none;
  chat_response_to_string = λ r. some r.message;
  from_utf8_lossy = λ bytes. bytes;
  as_bytes = λ t. t;
  sha256 = λ t. t;
  hex_encode = λ bytes. bytes;
  to_lowercase = to_ascii_lowercase;
  to_uppercase = λ t. t;
}

abbrev pub numbers : Floats ℕ ℕ
numbers = record {
  widen = λ n. n;
  zero_score = 0;
  add = λ a b. a + b;
  mul = λ a b. a * b;
  div = λ a b. a / b;
  sqrt = λ a. a;
  eq = λ a b. a == b;
  ge = λ a b. leb b a;
  gt = λ a b. ltb b a;
}

-- The gateway, at what the sidecar says and at what the provider says.
abbrev pub outside : Text → Text ⊎ List Text → Outside Value Entries ℕ ℕ
outside said answer = record {
  host = host;
  lru = bounded 9;
  floats = numbers;
  externals = record {
    to_lowercase = to_ascii_lowercase;
    sha256 = λ t. t;
    hex_encode = λ bytes. bytes;
  };
  embedding = λ calls t. some (1 ∷ []);
  sidecar = λ calls url request. some (said ∷ []);
  embedded_classifier = none;
  provider_name = codes "openai";
  chat = λ calls prompt model attempt. answer;
  post = λ calls url payload attempt. answer;
  nanos = λ calls attempt. 0;
  rfc3339 = λ calls. codes "now";
  unix_secs = λ calls. 0;
  uuid = λ calls. codes "0";
  searched_at = λ calls. 1;
  inserted_at = λ calls. 1;
}

-- The settings: whether layer 2 is on, and whether the gateway is offline.
abbrev pub config_of : CacheMode → Bool → Bool → AppConfig
config_of mode router offline = record {
  inference_engine = sidecar;
  cache_mode = mode;
  sidecar_url = codes "http://s/";
  sidecar_model_name = codes "phi";
  classifier_mode = binary;
  max_answer_tokens = 100;
  llm_provider = openai;
  external_llm_url = [];
  external_llm_model = codes "m";
  model_aliases = [];
  azure_deployment_id = [];
  azure_api_version = [];
  enable_slm_router = router;
  offline_mode = offline;
  enable_context_optimizer = false;
  context_optimizer_dedup = false;
  context_optimizer_minify = false;
}

abbrev pub fresh : AppState Entries ℕ ℕ
fresh = record {
  exact_cache = [];
  vector_cache = new 1 300 10;
  instruction_cache = [];
  provider_health = default_state;
  calls = [];
}

abbrev pub no_header : Text → Option Text
no_header name = none

-- A response of the rest of the stack, and a stack that always gives it.
abbrev pub response_of : ℕ → Text → Response
response_of status t = record {
  status = status;
  headers = [];
  body = some t;
  final_layer = some cloud;
}

abbrev pub always : Response → Next Entries ℕ ℕ
always response request state = (some response, state)

abbrev pub native_request : Request
native_request = record {
  path = codes "/api/chat";
  header = no_header;
  buffered_body = some (print native_doc);
}
