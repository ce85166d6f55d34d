-- ===== src/Documenso/Errors.antt =====
-- http_client.py and exceptions.py: how requests to Documenso fail and succeed.
use contract_management.Prelude.{
  ◌≡◌, refl, ◌↔◌, ◌⊎◌, inl, inr, ap, ◌∙◌, subst, ℕ, Bool, true, false, not, ◌||◌, String, Option,
  none, some, List, nat_eq, arith, if◌then◌else◌,
}
use contract_management.Prelude.Text.{truthy}
use contract_management.Failure.{
  Error, Result, ok, err, ◌>>=◌, ◌>>◌, throw_if, missing_secret, invalid_secret,
  secret_not_configured, integration_disabled, request_failed, authentication_failed, api_error,
  attribute_error, no_envelope_id, envelope_not_completed, no_envelope_items, no_item_id, not_a_pdf,
  value_error,
}
use contract_management.Site.{Call}
use contract_management.Documenso.Http.{
  Channel, Reply, answered, request_exception, other_exception, Client, HttpResponse, RequestBody,
  ErrorBody, request_to, exchange, is_ok, error_message, raise_api_error, classify, send, parsed,
  valid, request, binary, request_binary,
}

-- isinstance(e, DocumensoError): the exceptions of exceptions.py, and those derived from them.
unfoldable pub is_documenso_error : Error → Bool
is_documenso_error request_failed = true
is_documenso_error authentication_failed = true
is_documenso_error (api_error message) = true
is_documenso_error integration_disabled = true
is_documenso_error secret_not_configured = true
is_documenso_error missing_secret = true
is_documenso_error invalid_secret = true
is_documenso_error no_envelope_id = true
is_documenso_error envelope_not_completed = true
is_documenso_error no_envelope_items = true
is_documenso_error no_item_id = true
is_documenso_error not_a_pdf = true
is_documenso_error _ = false

-- An error response whose body is JSON, but no object.
abbrev pub IsOddError : Channel → Reply → Type 0
IsOddError channel o =
    (r : HttpResponse) × (o ≡ answered r)
    × (is_ok r.status_code ≡ false)
    × (channel.error_body r.content ≡ ErrorBody.not_an_object)

-- The response comes from the channel, and its status is a success.
abbrev pub IsSuccess : Reply → HttpResponse → Type 0
IsSuccess o r = (o ≡ answered r) × (is_ok r.status_code ≡ true)

-- An exception that the client does not catch: urljoin's, or one of requests that is no
-- RequestException.
abbrev pub IsUncaught :
    Channel
    → List Call
    → Client
    → (method endpoint : String) → List (String × String)
    → RequestBody
    → Error
    → Type 0
IsUncaught channel calls client method endpoint params body e =
    ((channel.join_url client.base_url endpoint ≡ none) × (e ≡ value_error))
    ⊎ ((url : String) × (channel.join_url client.base_url endpoint ≡ some url)
        × (channel.send calls (request_to client method url params body) ≡ other_exception e))

abbrev raised_as : (A : Type 0) → Error → Result A
raised_as A x = err x

-- An error that is raised, and is a DocumensoError.
known :
    {A : Type 0} (x e : Error)
    → is_documenso_error x ≡ true
    → raised_as A x ≡ err e
    → is_documenso_error e ≡ true
known x e h k = let same : x ≡ e = cc in subst (λ y. is_documenso_error y ≡ true) same h

-- What is raised, at a reply.
abbrev Raises : Channel → Reply → Error → Type 0
Raises channel o e =
    (is_documenso_error e ≡ true)
    ⊎ ((e ≡ attribute_error) × IsOddError channel o)
    ⊎ (o ≡ other_exception e)

classify-err :
    (channel : Channel) (o : Reply) (e : Error) → classify channel o ≡ err e → Raises channel o e
unfolding classify is_documenso_error error_message raise_api_error
classify-err channel request_exception e h = inl (known request_failed e refl h)
classify-err channel (other_exception x) e h = inr (inr (cc))
classify-err channel (answered r) e h =
    go (nat_eq r.status_code 401 || nat_eq r.status_code 403) (is_ok r.status_code)
      (channel.error_body r.content) refl refl h
  where
    go :
        (a b : Bool) (body : ErrorBody)
        → is_ok r.status_code ≡ b
        → channel.error_body r.content ≡ body
        → (throw_if a authentication_failed
            >> (if b then ok r else raise_api_error (error_message body r.status_code)))
          ≡ err e
        → Raises channel (answered r) e
    go true b body status found k = inl (known authentication_failed e refl k)
    go false true body status found k = cc
    go false false ErrorBody.not_json status found k = inl (known (api_error _) e refl k)
    go false false (ErrorBody.object m x) status found k = inl (known (api_error _) e refl k)
    go false false ErrorBody.not_an_object status found k = inr (inl (cc, (r, refl, status, found)))

not_auth : (n : ℕ) → is_ok n ≡ true → (nat_eq n 401 || nat_eq n 403) ≡ false
unfolding is_ok
not_auth n h = ground arith

classify-ok :
    (channel : Channel) (o : Reply) (r : HttpResponse) → (classify channel o ≡ ok r) ↔ IsSuccess o r
unfolding classify is_ok
classify-ok channel request_exception r = (λ h. cc, λ h. cc)
classify-ok channel (other_exception x) r = (λ h. cc, λ h. cc)
classify-ok channel (answered s) r = (λ h. to h, λ h. from h)
  where
    to_with :
        (a b : Bool) (m : Result String)
        → is_ok s.status_code ≡ b
        → (throw_if a authentication_failed >> (if b then ok s else raise_api_error m)) ≡ ok r
        → IsSuccess (answered s) r
    to_with true b m status k = cc
    to_with false true m status k = let same : s ≡ r = cc in (ap answered same, rw (← same) status)
    to_with false false (ok m) status k = cc
    to_with false false (err e) status k = cc

    to : classify channel (answered s) ≡ ok r → IsSuccess (answered s) r
    to k = to_with _ _ _ refl k

    from : IsSuccess (answered s) r → classify channel (answered s) ≡ ok r
    from (e, status) =
        let same : s ≡ r = cc in
        let success : is_ok s.status_code ≡ true = rw same status in
        rw (not_auth s.status_code success, success) (ap (λ x. ok x) same)

parsed-err :
    {V : Type 0} (json : String → Option V) (r : HttpResponse) (e : Error)
    → parsed json r ≡ err e
    → is_documenso_error e ≡ true
unfolding parsed is_documenso_error
parsed-err {V} json r e h = go (truthy r.content) (json r.content) h
  where
    go :
        (b : Bool) (o : Option V)
        → (if b then valid o else ok none) ≡ err e
        → is_documenso_error e ≡ true
    go true none k = known (api_error _) e refl k
    go true (some v) k = cc
    go false o k = cc

binary-err : (r : HttpResponse) (e : Error) → binary r ≡ err e → is_documenso_error e ≡ true
unfolding binary is_documenso_error
binary-err r e h = go (not (truthy r.content)) h
  where
    go :
        (b : Bool)
        → (throw_if b (api_error "Empty response received from the Documenso API.") >> ok r.content)
          ≡ err e
        → is_documenso_error e ≡ true
    go true k = known (api_error _) e refl k
    go false k = cc

-- What fails behind `_send`: the response, or what is made of it.
then-err :
    {V : Type 0} (channel : Channel) (o : Reply) (next : HttpResponse → Result V) (e : Error)
    → ((r : HttpResponse) → next r ≡ err e → is_documenso_error e ≡ true)
    → (classify channel o >>= next) ≡ err e
    → Raises channel o e
then-err channel o next e later h = go (classify channel o) refl h
  where
    go :
        (c : Result HttpResponse)
        → classify channel o ≡ c
        → (c >>= next) ≡ err e
        → Raises channel o e
    go (ok r) found k = inl (later r k)
    go (err x) found k =
        let same : x ≡ e = cc in classify-err channel o e (found ∙ ap (λ y. err y) same)

-- Which call it was that the client does not catch.
exchange-IsUncaught :
    (channel : Channel) (calls : List Call) (client : Client) (method endpoint : String)
    (params : List (String × String)) (body : RequestBody) (e : Error)
    → exchange channel calls client method endpoint params body ≡ other_exception e
    → IsUncaught channel calls client method endpoint params body e
unfolding exchange
exchange-IsUncaught channel calls client method endpoint params body e h =
    go (channel.join_url client.base_url endpoint) refl h
  where
    go :
        (o : Option String)
        → channel.join_url client.base_url endpoint ≡ o
        → elim o [
          | none ↦ other_exception value_error
          | some url ↦ channel.send calls (request_to client method url params body)
        ]
          ≡ other_exception e
        → IsUncaught channel calls client method endpoint params body e
    go none joined k = inl (joined, cc)
    go (some url) joined k = inr (url, joined, k)

-- A request of the client that fails raises a DocumensoError, but for three cases: the response is an
-- error whose body is JSON but no object, which raises an AttributeError; urljoin does not accept the
-- base URL, and its ValueError is raised; or requests raises an exception that is no
-- RequestException, which is raised as it is.
pub request-Raises :
    {V : Type 0} (json : String → Option V) (channel : Channel) (calls : List Call)
    (client : Client) (method endpoint : String) (params : List (String × String))
    (body : RequestBody) (e : Error)
    → (request json channel calls client method endpoint params body ≡ err e)
      ⊎ (request_binary channel calls client method endpoint params body ≡ err e)
    → (is_documenso_error e ≡ true)
      ⊎ ((e ≡ attribute_error)
          × IsOddError channel (exchange channel calls client method endpoint params body))
      ⊎ IsUncaught channel calls client method endpoint params body e
unfolding request request_binary send
request-Raises json channel calls client method endpoint params body e h = elim h [
  | inl a ↦ named (
      then-err channel (exchange channel calls client method endpoint params body) (parsed json) e
        (λ r k. parsed-err json r e k) a)
  | inr b ↦ named (
      then-err channel (exchange channel calls client method endpoint params body) binary e
        (λ r k. binary-err r e k) b)
]
  where
    named :
        Raises channel (exchange channel calls client method endpoint params body) e
        → (is_documenso_error e ≡ true)
          ⊎ ((e ≡ attribute_error)
              × IsOddError channel (exchange channel calls client method endpoint params body))
          ⊎ IsUncaught channel calls client method endpoint params body e
    named (inl k) = inl k
    named (inr (inl k)) = inr (inl k)
    named (inr (inr k)) =
        inr (inr (exchange-IsUncaught channel calls client method endpoint params body e k))

-- A download gives its content exactly when the response is a success with that content, and the
-- content is not empty.
pub request_binary-ok_iff :
    (channel : Channel) (calls : List Call) (client : Client) (method endpoint : String)
    (params : List (String × String)) (body : RequestBody) (content : String)
    → (request_binary channel calls client method endpoint params body ≡ ok content) ↔ (
        (r : HttpResponse) × IsSuccess (exchange channel calls client method endpoint params body) r
        × (r.content ≡ content)
        × (truthy content ≡ true))
unfolding request_binary send binary
request_binary-ok_iff channel calls client method endpoint params body content =
    (λ h. to h, λ h. from h)
  where
    Success : Type 0
    Success =
        (r : HttpResponse) × IsSuccess (exchange channel calls client method endpoint params body) r
        × (r.content ≡ content)
        × (truthy content ≡ true)

    filled :
        (r : HttpResponse) (b : Bool)
        → truthy r.content ≡ b
        → (throw_if (not b) (api_error "Empty response received from the Documenso API.")
            >> ok r.content)
          ≡ ok content
        → (r.content ≡ content) × (truthy content ≡ true)
    filled r true e k = let same : r.content ≡ content = cc in (same, rw (← same) e)
    filled r false e k = cc

    to_with :
        (c : Result HttpResponse)
        → classify channel (exchange channel calls client method endpoint params body) ≡ c
        → (c >>= binary) ≡ ok content
        → Success
    to_with (err x) found k = cc
    to_with (ok r) found k =
        let (same, full) = filled r (truthy r.content) refl k in
        (r, (classify-ok channel _ r).0 found, same, full)

    to : request_binary channel calls client method endpoint params body ≡ ok content → Success
    to k =
        to_with (classify channel (exchange channel calls client method endpoint params body)) refl
          k

    from : Success → request_binary channel calls client method endpoint params body ≡ ok content
    from (r, success, same, full) =
        let full' : truthy r.content ≡ true = rw same full in
        rw ((classify-ok channel _ r).1 success, full') (ap (λ x. ok x) same)
