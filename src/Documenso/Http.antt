-- ===== src/Documenso/Http.antt =====
-- http_client.py. What urljoin makes of a URL, and the library requests of a request and of the body
-- of a response, is the parameter `Channel`.
use Prim.Native.String.{◌++◌}
use contract_management.Prelude.{
  ℕ, Bool, not, ◌||◌, String, Option, none, some, List, nat_eq, leb, ltb, if◌then◌else◌,
}
use contract_management.Prelude.Text.{truthy, decimal}
use contract_management.Failure.{
  Error, Result, ok, err, ◌>>=◌, ◌>>◌, throw_if, request_failed, authentication_failed, api_error,
  attribute_error, value_error,
}
use contract_management.Site.{Payload, Call}
use contract_management.Documenso.Settings.{Settings, get_settings}

-- The body of a request: none, a JSON object with an envelope id, or an upload.
pub data RequestBody : Type 0 where
  no_body : RequestBody
  envelope_id : String → RequestBody
  upload : Payload → (file_name content : String) → RequestBody

pub record HttpRequest : Type 0 where
  pub method : String
  pub url : String
  pub timeout : ℕ
  pub token : String
  pub params : List (String × String)
  pub body : RequestBody

pub record HttpResponse : Type 0 where
  pub status_code : ℕ
  pub content : String

-- What `response.json()` makes of the body of an error: the keys "message" and "error" of an object.
pub data ErrorBody : Type 0 where
  not_json not_an_object : ErrorBody
  object : (message error : String) → ErrorBody

-- What `session.request` comes to: a response, a RequestException, or any other exception.
pub data Reply : Type 0 where
  answered : HttpResponse → Reply
  request_exception : Reply
  other_exception : Error → Reply

-- What the client calls: requests, and urljoin, which has no answer where it raises a ValueError.
pub record Channel : Type 0 where
  pub join_url : (base endpoint : String) → Option String
  pub send : List Call → HttpRequest → Reply
  pub error_body : String → ErrorBody

-- response.ok
unfoldable pub is_ok : ℕ → Bool
is_ok status = ltb status 400 || leb 600 status

abbrev pub message_or : String → String → String
message_or a b = if truthy a then a else b

-- The message of a DocumensoApiError. A body that is JSON but no object has no method "get".
unfoldable pub error_message : ErrorBody → ℕ → Result String
unfolding decimal
error_message not_json status = ok ("Documenso API returned HTTP " ++ (decimal status ++ "."))
error_message not_an_object status = err attribute_error
error_message (object message error) status = ok (
    message_or (message_or message error)
      ("Documenso API returned HTTP " ++ (decimal status ++ ".")))

unfoldable pub raise_api_error : Result String → Result HttpResponse
raise_api_error (ok message) = err (api_error message)
raise_api_error (err e) = err e

-- What `_send` makes of the reply.
unfoldable pub classify : Channel → Reply → Result HttpResponse
unfolding is_ok error_message raise_api_error
classify channel request_exception = err request_failed
classify channel (other_exception e) = err e
classify channel (answered r) = do
  throw_if (nat_eq r.status_code 401 || nat_eq r.status_code 403) authentication_failed
  if is_ok r.status_code
      then ok r
      else raise_api_error (error_message (channel.error_body r.content) r.status_code)

-- The constructor of the client: the settings with their token.
pub record Client : Type 0 where
  pub base_url : String
  pub timeout : ℕ
  pub token : String

unfoldable pub connect : Settings → Result Client
unfolding get_settings
connect stored = do
  settings ← get_settings stored
  token ← settings.token
  ok (record { base_url = settings.base_url; timeout = settings.request_timeout; token = token })

-- The request that `_send` makes of a URL.
abbrev pub request_to :
    Client → (method url : String) → List (String × String) → RequestBody → HttpRequest
request_to client method url params body = record {
  method = method;
  url = url;
  timeout = client.timeout;
  token = client.token;
  params = params;
  body = body;
}

-- The part of `_send` that makes the request; a ValueError of urljoin passes, and nothing is sent.
unfoldable pub exchange :
    Channel
    → List Call
    → Client
    → (method endpoint : String) → List (String × String)
    → RequestBody
    → Reply
exchange channel calls client method endpoint params body =
    elim (channel.join_url client.base_url endpoint) [
      | none ↦ other_exception value_error
      | some url ↦ channel.send calls (request_to client method url params body)
    ]

-- `_send`
unfoldable pub send :
    Channel
    → List Call
    → Client
    → (method endpoint : String) → List (String × String)
    → RequestBody
    → Result HttpResponse
unfolding classify exchange
send channel calls client method endpoint params body =
    classify channel (exchange channel calls client method endpoint params body)

abbrev pub valid : {V : Type 0} → Option V → Result (Option V)
valid none = err (api_error "Invalid JSON response received from the Documenso API.")
valid (some v) = ok (some v)

-- The end of `request`: the parsed body, `none` for an empty one.
unfoldable pub parsed : {V : Type 0} → (String → Option V) → HttpResponse → Result (Option V)
parsed json r = if truthy r.content then valid (json r.content) else ok none

-- `request`, where `json` parses what the endpoint answers.
unfoldable pub request :
    {V : Type 0}
    → (String → Option V)
    → Channel
    → List Call
    → Client
    → (method endpoint : String) → List (String × String)
    → RequestBody
    → Result (Option V)
unfolding send parsed
request json channel calls client method endpoint params body = do
  response ← send channel calls client method endpoint params body
  parsed json response

-- The end of `request_binary`.
unfoldable pub binary : HttpResponse → Result String
binary r = do
  throw_if (not (truthy r.content)) (api_error "Empty response received from the Documenso API.")
  ok r.content

-- `request_binary`
unfoldable pub request_binary :
    Channel
    → List Call
    → Client
    → (method endpoint : String) → List (String × String)
    → RequestBody
    → Result String
unfolding send binary
request_binary channel calls client method endpoint params body = do
  response ← send channel calls client method endpoint params body
  binary response
