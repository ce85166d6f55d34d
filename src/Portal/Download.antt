-- ===== src/Portal/Download.antt =====
-- portal_api.py: `download_document`. The file is read inside the request that it answers.
use Prim.Native.String.{◌++◌}
use Prim.Native.Char.{code}
use contract_management.Prelude.{
  ◌≡◌, refl, Bool, false, not, ◌&&◌, ◌||◌, String, Option, none, some, ◌==◌, string_eq, str_eq,
  nat_eq, if◌then◌else◌,
}
use contract_management.Prelude.Lists.{filter}
use contract_management.Prelude.Text.{truthy, lower}
use contract_management.Failure.{
  Result, ok, ◌>>=◌, ◌>>◌, throw_if, no_such_version, no_document_access, no_signed_document,
  not_executed, no_original_document, file_not_found, signed_file_not_private,
}
use contract_management.Workflow.{VersionStatus, version_status_eq}
use contract_management.Site.{Contract, ContractVersion, FileDoc, Site, find_contract, find_version}
use contract_management.Platform.{Platform}
use contract_management.Portal.{Member, require_counterparty, or_throw}

-- The fields of `frappe.response` that `_stream_file` sets.
pub record Download : Type 0 where
  pub filename : String
  pub display_content_as : String
  pub content : String

-- A contract that is gone has the counterparty None, which is not the name of a counterparty.
unfoldable pub belongs_to : Member → Option Contract → Bool
belongs_to member none = false
belongs_to member (some c) = c.counterparty == member.name

-- `_resolve_owned_version`
unfoldable pub resolve_owned_version : Member → String → Site → Result ContractVersion
unfolding belongs_to
resolve_owned_version member name site = do
  version ← or_throw (find_version name site.versions) no_such_version
  throw_if (not (belongs_to member (find_contract version.contract site.contracts)))
      no_document_access
  ok version

-- The filters of the query in `_resolve_attached_file`.
unfoldable pub is_attached : String → String → String → FileDoc → Bool
is_attached url name field f =
    ((f.file_url == url) && (f.attached_to_doctype == "Contract Version"))
    && ((f.attached_to_name == name) && (f.attached_to_field == field))

-- `_resolve_attached_file`
unfoldable pub resolve_attached_file :
    Platform → String → ContractVersion → String → Site → Result FileDoc
unfolding is_attached filter
resolve_attached_file p url version field site =
    or_throw (p.one_file.one (filter (is_attached url version.name field) site.files))
      file_not_found

-- filename or file_doc.file_name or "document.pdf"
abbrev pub or_text : String → String → String
or_text a b = if truthy a then a else b

-- `_stream_file`
unfoldable pub stream_file : FileDoc → String → String → Download
stream_file f display_content_as filename = record {
  filename = or_text filename (or_text f.file_name "document.pdf");
  display_content_as = display_content_as;
  content = f.content;
}

-- s.rsplit("/", 1)[-1], where `base` is what follows the last "/" so far.
unfoldable pub after_slash : String → String → String
after_slash base String.[] = base
after_slash base (String.◌∷◌ c s) =
    if nat_eq (code c) 47 then after_slash s s else after_slash base s

-- s.endswith(suffix)
unfoldable pub has_suffix : String → String → Bool
has_suffix suffix String.[] = str_eq String.[] suffix
has_suffix suffix (String.◌∷◌ c s) = str_eq (String.◌∷◌ c s) suffix || has_suffix suffix s

-- kind == "executed"
unfoldable pub download_executed : Platform → ContractVersion → Site → Result Download
unfolding resolve_attached_file stream_file
download_executed p version site = do
  throw_if (not (truthy version.executed_document)) no_signed_document
  throw_if (not (version.status == VersionStatus.executed)) not_executed
  f ← resolve_attached_file p version.executed_document version "executed_document" site
  throw_if (not f.is_private) signed_file_not_private
  ok (stream_file f "attachment" (version.name ++ "-signed.pdf"))

unfoldable pub display_as : String → String
unfolding has_suffix
display_as name = if has_suffix ".pdf" (lower name) then "inline" else "attachment"

unfoldable pub download_original : Platform → ContractVersion → Site → Result Download
unfolding resolve_attached_file stream_file after_slash display_as
download_original p version site = do
  throw_if (not (truthy version.document)) no_original_document
  f ← resolve_attached_file p version.document version "document" site
  let name = or_text f.file_name (after_slash version.document version.document)
  ok (stream_file f (display_as name) name)

-- `download_document`
unfoldable pub download_document : Platform → String → String → Site → Result Download
unfolding require_counterparty resolve_owned_version download_executed download_original
download_document p contract_version kind site = do
  member ← require_counterparty p site
  version ← resolve_owned_version member contract_version site
  if kind == "executed" then download_executed p version site else download_original p version site

after_last_slash : after_slash "/files/a.pdf" "/files/a.pdf" ≡ "a.pdf"
unfolding after_slash
after_last_slash = refl

inline_pdf : display_as "A.PDF" ≡ "inline"
unfolding display_as lower
inline_pdf = refl
