-- ===== src/Tests/Documenso.antt =====
-- The theorems on the client of Documenso, and on the signed document's way to the portal.
use Prim.Native.String.{◌++◌}
use contract_management.Prelude.{◌≡◌, ◌↔◌, ◌⊎◌, refl, inr, true, String, some, [], ◌∷◌}
use contract_management.Prelude.Lists.{filter}
use contract_management.Prelude.Table
use contract_management.Prelude.Text
use contract_management.Failure.{Error, ok, err}
use contract_management.Exec.{◌>>=◌, returned, state_of}
use contract_management.Workflow.{VersionStatus, SignatureRequestStatus, version_status_eq}
use contract_management.Site.{ContractVersion, Site}
use contract_management.Service.Signature.Executed
use contract_management.Service.Signature.Executed.{store_executed_document, download_signed}
use contract_management.Portal.{member_of, require_counterparty}
use contract_management.Portal.Download.{download_document}
use contract_management.Portal.Signed.{download_document-stored}
use contract_management.Documenso.Http.{
  Channel, Client, HttpResponse, ErrorBody, answered, no_body, request_binary, exchange,
}
use contract_management.Documenso.Errors.{
  IsOddError, IsSuccess, is_documenso_error, IsUncaught, request-Raises, request_binary-ok_iff,
}
use contract_management.Tests.Sample.{sample, acme, lease, version, signature_request, site_with}

abbrev waiting : Site
waiting = site_with VersionStatus.signature_requested [] SignatureRequestStatus.pending

abbrev stored_version : ContractVersion
stored_version = record (version VersionStatus.signature_requested) {
  executed_document = "/private/files/V1-signed.pdf";
}

abbrev after : Site
after = state_of (
    store_executed_document sample (signature_request SignatureRequestStatus.pending)
      (version VersionStatus.signature_requested) waiting)

stored :
    store_executed_document sample
      (signature_request SignatureRequestStatus.pending)
      (version VersionStatus.signature_requested)
      waiting
    ≡ returned stored_version after
unfolding store_executed_document ◌>>=◌ download_signed Text.has_prefix Executed.add_file
stored = refl

abbrev later : Site
later = record after {
  versions =
      record (version VersionStatus.executed) { executed_document = "/private/files/V1-signed.pdf" }
      ∷ [];
}

enters : require_counterparty sample later ≡ ok (member_of acme)
unfolding require_counterparty store_executed_document ◌>>=◌ download_signed Text.has_prefix
    Executed.add_file
enters = refl

download_document-stored_example :
    (content : String) × (w : Site) × (download_signed sample
        (signature_request SignatureRequestStatus.pending)
        waiting
      ≡ returned content w)
    × (download_document sample "V1" "executed" later
        ≡ ok (record {
          filename = "V1" ++ "-signed.pdf";
          display_content_as = "attachment";
          content = content;
        }))
unfolding filter Table.find store_executed_document ◌>>=◌ download_signed Text.has_prefix
    Executed.add_file
download_document-stored_example =
    download_document-stored sample (signature_request SignatureRequestStatus.pending)
      (version VersionStatus.signature_requested) stored_version waiting after refl stored refl
      later (member_of acme) lease
      (record (version VersionStatus.executed) {
        executed_document = "/private/files/V1-signed.pdf";
      })
      refl enters refl refl refl refl refl refl

-- A server that answers every request with the status 500 and a JSON list.
abbrev failing : Channel
failing = record {
  join_url = λ base endpoint. some (base ++ endpoint);
  send = λ calls r. answered (record { status_code = 500; content = "[]" });
  error_body = λ body. ErrorBody.not_an_object;
}

abbrev client : Client
client = record { base_url = "https://sign.example"; timeout = 30; token = "t" }

failed :
    request_binary failing [] client "GET" "/api/v2/envelope/item/i/download" [] no_body
    ≡ err Error.attribute_error
unfolding request_binary
failed = refl

request-Raises_example :
    (is_documenso_error Error.attribute_error ≡ true)
    ⊎ ((Error.attribute_error ≡ Error.attribute_error)
        × IsOddError failing
            (exchange failing [] client "GET" "/api/v2/envelope/item/i/download" [] no_body))
    ⊎ IsUncaught failing [] client "GET" "/api/v2/envelope/item/i/download" [] no_body
        Error.attribute_error
request-Raises_example =
    request-Raises (λ (s : String). some s) failing [] client "GET"
      "/api/v2/envelope/item/i/download" [] no_body Error.attribute_error (inr failed)

request_binary-ok_iff_example :
    (request_binary failing [] client "GET" "/f" [] no_body ≡ ok "%PDF") ↔ (
      (r : HttpResponse) × IsSuccess (exchange failing [] client "GET" "/f" [] no_body) r
      × (r.content ≡ "%PDF")
      × (Text.truthy "%PDF" ≡ true))
request_binary-ok_iff_example = request_binary-ok_iff failing [] client "GET" "/f" [] no_body "%PDF"
