-- ===== src/Service/Signature/Executed.antt =====
-- services/signature.py: `_store_executed_document`, the download of the signed PDF.
use Prim.Native.String.{◌++◌}
use contract_management.Prelude.{true, not, String, List, [], ◌∷◌, if◌then◌else◌, ◌==◌, string_eq}
use contract_management.Prelude.Table
use contract_management.Prelude.Text.{truthy, has_prefix}
use contract_management.Failure.{
  Result, ok, err, no_envelope_id, envelope_not_completed, no_envelope_items, no_item_id, not_a_pdf,
}
use contract_management.Exec.{pure, gets, lift, modify, throw_if, ◌>>=◌, ◌>>◌}
use contract_management.Workflow.{version_status_eq, request_status_eq, recipient_status_eq}
use contract_management.Site.{
  ContractVersion, SignatureRequest, FileDoc, get_envelope, download_envelope_item, M,
}
use contract_management.Platform.{Platform, Envelope}
use contract_management.Service.Signature.Send.{ask}

-- items[0].get("id"), or the exception for an envelope without one.
item_id : List String → Result String
item_id [] = err no_envelope_items
item_id (id ∷ ids) = if truthy id then ok id else err no_item_id

-- The first item of a completed envelope.
unfoldable pub signed_item : Envelope → Result String
unfolding item_id
signed_item envelope =
    if envelope.status == "COMPLETED" then item_id envelope.items else err envelope_not_completed

-- The row that `save_file` inserts.
abbrev pub signed_file : ContractVersion → String → String → FileDoc
signed_file version url content = record {
  file_url = url;
  file_name = version.name ++ "-signed.pdf";
  attached_to_doctype = "Contract Version";
  attached_to_name = version.name;
  attached_to_field = "executed_document";
  is_private = true;
  content = content;
}

-- The download of the signed document: its content, once it looks like a PDF.
unfoldable pub download_signed : Platform → SignatureRequest → M String
unfolding ask signed_item
download_signed p request = do
  throw_if (not (truthy request.envelope_id)) no_envelope_id
  envelope ←
      ask (get_envelope request.envelope_id) (λ calls. p.get_envelope calls request.envelope_id)
  item ← lift (signed_item envelope)
  content ←
      ask (download_envelope_item item "signed") (λ calls. p.download_envelope_item calls item)
  throw_if (not (has_prefix "%PDF" content)) not_a_pdf
  pure content

unfoldable pub add_file : FileDoc → M (Unit {0})
add_file f = modify λ s. record s { files = f ∷ s.files }

abbrev pub with_executed_document : String → ContractVersion → ContractVersion
with_executed_document url v = record v { executed_document = url }

-- `_store_executed_document`; the document comes back with its new field.
unfoldable pub store_executed_document :
    Platform → SignatureRequest → ContractVersion → M ContractVersion
store_executed_document p request version =
    if truthy version.executed_document then pure version else (do
      content ← download_signed p request
      files ← gets (λ s. s.files)
      url ← lift (p.save_file files (version.name ++ "-signed.pdf") content)
      add_file (signed_file version url content)
      pure (with_executed_document url version))

-- frappe.db.set_value("Contract Version", name, "executed_document", …)
unfoldable pub set_executed_document : ContractVersion → M (Unit {0})
set_executed_document version = modify λ s. record s {
  versions =
      Table.modify (λ v. v.name) version.name (with_executed_document version.executed_document)
        s.versions;
}
