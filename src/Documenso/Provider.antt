-- ===== src/Documenso/Provider.antt =====
-- provider.py, and the part of Platform that it is.
use Prim.Native.String.{◌++◌}
use contract_management.Prelude.{String, Option, none, some, List, [], ◌∷◌, if◌then◌else◌}
use contract_management.Prelude.Text.{truthy}
use contract_management.Failure.{Error, Result, ok, err, ◌>>=◌, type_error, attribute_error}
use contract_management.Site.{Payload, Call}
use contract_management.Platform.{Platform, CreateResponse, DistributedRecipient, Envelope}
use contract_management.Documenso.Settings.{Settings}
use contract_management.Documenso.Http.{
  Channel, no_body, envelope_id, upload, connect, request, request_binary,
}

-- How the bodies that Documenso answers with read, where they are JSON.
pub record Format : Type 0 where
  pub create_response : String → Option CreateResponse
  pub distributed : String → Option (List DistributedRecipient)
  pub envelope : String → Option Envelope
  pub documents : String → Option String

module _ (stored : Settings) (format : Format) (channel : Channel) (calls : List Call) where
  -- str(payload.get("title") or "document")
  abbrev title_of : Payload → String
  title_of payload = if truthy payload.title then payload.title else "document"

  unfoldable pub create_document : Payload → String → Result (Option CreateResponse)
  unfolding connect request
  create_document payload pdf = do
    client ← connect stored
    request format.create_response channel calls client "POST" "/api/v2/envelope/create" []
        (upload payload (title_of payload ++ ".pdf") pdf)

  unfoldable pub distribute_document : String → Result (Option (List DistributedRecipient))
  unfolding connect request
  distribute_document id = do
    client ← connect stored
    request format.distributed channel calls client "POST" "/api/v2/envelope/distribute" []
        (envelope_id id)

  unfoldable pub verify_connection : Result (Option String)
  unfolding connect request
  verify_connection = do
    client ← connect stored
    request format.documents channel calls client "GET" "/api/v1/documents"
        (("page", "1") ∷ ("perPage", "1") ∷ []) no_body

  unfoldable pub get_envelope : String → Result (Option Envelope)
  unfolding connect request
  get_envelope id = do
    client ← connect stored
    request format.envelope channel calls client "GET" ("/api/v2/envelope/" ++ id) [] no_body

  unfoldable pub download_envelope_item : String → String → Result String
  unfolding connect request_binary
  download_envelope_item id version = do
    client ← connect stored
    request_binary channel calls client "GET" ("/api/v2/envelope/item/" ++ (id ++ "/download"))
        (("version", version) ∷ []) no_body

-- What services/signature.py makes of an answer without a body: None has neither items nor methods.
abbrev pub or_raise_on_none : {V : Type 0} → Error → Result (Option V) → Result V
or_raise_on_none e (err x) = err x
or_raise_on_none e (ok none) = err e
or_raise_on_none e (ok (some v)) = ok v

-- The platform whose Documenso is reached through the client.
unfoldable pub over_http : Platform → Settings → Format → Channel → Platform
unfolding create_document distribute_document get_envelope download_envelope_item
over_http p stored format channel = record p {
  create_document = λ calls payload pdf.
      or_raise_on_none type_error (create_document stored format channel calls payload pdf);
  distribute_document = λ calls id.
      or_raise_on_none attribute_error (distribute_document stored format channel calls id);
  get_envelope =
      λ calls id. or_raise_on_none attribute_error (get_envelope stored format channel calls id);
  download_envelope_item =
      λ calls id. download_envelope_item stored format channel calls id "signed";
}
