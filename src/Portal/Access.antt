-- ===== src/Portal/Access.antt =====
-- portal_api.py: whose files `download_document` gives out.
use mathlib.Core.Option
use contract_management.Prelude.{
  ◌≡◌, refl, sym, ap, Bool, true, false, not, ◌||◌, String, Option, none, some, arith,
  if◌then◌else◌, ◌==◌, string_eq, eq_iff,
}
use contract_management.Prelude.Lists.{filter}
use contract_management.Prelude.Order.{In, In-filter}
use contract_management.Prelude.Text.{truthy}
use Prim.Native.String.{◌++◌}
use contract_management.Failure.{
  Error, Result, ok, err, ◌>>=◌, ◌>>◌, throw_if, >>=-eq-ok, throw_if->>=_iff, no_such_version,
  no_document_access, no_signed_document, not_executed, no_original_document,
  signed_file_not_private,
}
use contract_management.Workflow.{VersionStatus, version_status_eq}
use contract_management.Site.{
  Contract, Counterparty, ContractVersion, FileDoc, Site, find_contract, find_version,
}
use contract_management.Platform.{Platform}
use contract_management.Portal.{
  Member, member_of, is_portal_user, get_counterparty_for_user, require_counterparty, or_throw,
}
use contract_management.Portal.Download.{
  Download, belongs_to, is_attached, resolve_owned_version, resolve_attached_file, stream_file,
  download_executed, download_original, download_document, or_text, after_slash, display_as,
}

-- The session's user is one that a counterparty names and enables, and `member` is that counterparty.
abbrev pub IsPortalUser : Site → Member → Type 0
IsPortalUser site member =
    (c : Counterparty) × In c site.counterparties
    × (c.portal_user ≡ site.user)
    × (c.portal_enabled ≡ true)
    × (member_of c ≡ member)

is_portal_user-true :
    (user : String) (c : Counterparty)
    → is_portal_user user c ≡ true
    → (c.portal_user ≡ user) × (c.portal_enabled ≡ true)
unfolding is_portal_user
is_portal_user-true user c h = ground (arith, eq_iff c.portal_user user)

or_throw-ok : {A : Type 0} (o : Option A) (e : Error) (a : A) → or_throw o e ≡ ok a → o ≡ some a
or_throw-ok none e a h = cc
or_throw-ok (some b) e a h = cc

pub require_counterparty-ok :
    (p : Platform) (site : Site) (member : Member)
    → require_counterparty p site ≡ ok member
    → IsPortalUser site member
unfolding require_counterparty get_counterparty_for_user
require_counterparty-ok p site member h =
    go (not (truthy site.user) || (site.user == "Guest"))
      (p.one_counterparty.one (filter (is_portal_user site.user) site.counterparties)) refl
      (or_throw-ok _ _ member h)
  where
    go :
        (b : Bool) (o : Option Counterparty)
        → p.one_counterparty.one (filter (is_portal_user site.user) site.counterparties) ≡ o
        → elim b [ true ↦ none | false ↦ Option.map member_of o ] ≡ some member
        → IsPortalUser site member
    go true o e k = cc
    go false none e k = cc
    go false (some c) e k =
        let found =
          (In-filter (is_portal_user site.user) c site.counterparties).0
            (p.one_counterparty.one_of _ c e) in
        let (same, enabled) = is_portal_user-true site.user c found.1 in
        (c, found.0, same, enabled, cc)

-- The file stands in the site's table, attached to the field of the version that holds its URL.
abbrev pub IsFileOf : Site → ContractVersion → String → String → FileDoc → Type 0
IsFileOf site version url field f =
    In f site.files
    × (f.file_url ≡ url)
    × (f.attached_to_doctype ≡ "Contract Version")
    × (f.attached_to_name ≡ version.name)
    × (f.attached_to_field ≡ field)

is_attached-true :
    (url name field : String) (f : FileDoc)
    → is_attached url name field f ≡ true
    → (f.file_url ≡ url)
      × (f.attached_to_doctype ≡ "Contract Version")
      × (f.attached_to_name ≡ name)
      × (f.attached_to_field ≡ field)
unfolding is_attached
is_attached-true url name field f h = ground (
  arith,
  eq_iff f.file_url url,
  eq_iff f.attached_to_doctype "Contract Version",
  eq_iff f.attached_to_name name,
  eq_iff f.attached_to_field field,
)

pub resolve_attached_file-ok :
    (p : Platform) (url : String) (version : ContractVersion) (field : String) (site : Site)
    (f : FileDoc)
    → resolve_attached_file p url version field site ≡ ok f
    → IsFileOf site version url field f
unfolding resolve_attached_file
resolve_attached_file-ok p url version field site f h =
    let found =
      (In-filter (is_attached url version.name field) f site.files).0
        (p.one_file.one_of _ f (or_throw-ok _ _ f h)) in
    let (url_is, doctype_is, name_is, field_is) =
      is_attached-true url version.name field f found.1 in
    (found.0, url_is, doctype_is, name_is, field_is)

-- The version belongs to a contract of the counterparty.
abbrev pub IsOwned : Site → Member → String → ContractVersion → Type 0
IsOwned site member name version =
    (find_version name site.versions ≡ some version)
    × ((contract : Contract) × (find_contract version.contract site.contracts ≡ some contract)
        × (contract.counterparty ≡ member.name))

belongs_to-true :
    (member : Member) (o : Option Contract)
    → belongs_to member o ≡ true
    → (c : Contract) × (o ≡ some c) × (c.counterparty ≡ member.name)
unfolding belongs_to
belongs_to-true member none h = cc
belongs_to-true member (some c) h = (c, refl, (eq_iff c.counterparty member.name).0 h)

-- What an answer of `download_document` is made of: the file, its content, and the way it is shown.
abbrev pub IsDownload : Site → ContractVersion → Bool → Download → Type 0
IsDownload site version executed d =
    (f : FileDoc) × (d.content ≡ f.content)
    × (if executed
        then IsFileOf site version version.executed_document "executed_document" f
          × (version.status ≡ VersionStatus.executed)
          × (f.is_private ≡ true)
          × (d.display_content_as ≡ "attachment")
        else IsFileOf site version version.document "document" f)

-- The last guard and the answer, once the file is known.
stream_private-ok :
    (site : Site) (version : ContractVersion) (f : FileDoc) (name : String) (d : Download)
    (b : Bool)
    → f.is_private ≡ b
    → (throw_if (not b) signed_file_not_private >> ok (stream_file f "attachment" name)) ≡ ok d
    → (d.content ≡ f.content) × (f.is_private ≡ true) × (d.display_content_as ≡ "attachment")
unfolding stream_file
stream_private-ok site version f name d true e h =
    (sym (ap (content_of d) h), e, sym (ap (display_of d) h))
  where
    content_of : Download → Result Download → String
    content_of other (ok x) = x.content
    content_of other (err e) = other.content

    display_of : Download → Result Download → String
    display_of other (ok x) = x.display_content_as
    display_of other (err e) = other.display_content_as
stream_private-ok site version f name d false e h = cc

status_is : (s t : VersionStatus) → not (s == t) ≡ false → s ≡ t
status_is s t h = ground arith

download_executed-ok :
    (p : Platform) (version : ContractVersion) (site : Site) (d : Download)
    → download_executed p version site ≡ ok d
    → IsDownload site version true d
unfolding download_executed
download_executed-ok p version site d h =
    go (not (truthy version.executed_document)) (not (version.status == VersionStatus.executed))
      (resolve_attached_file p version.executed_document version "executed_document" site) refl refl
      h
  where
    go :
        (a b : Bool) (r : Result FileDoc)
        → not (version.status == VersionStatus.executed) ≡ b
        → resolve_attached_file p version.executed_document version "executed_document" site ≡ r
        → (throw_if a no_signed_document
            >> (throw_if b not_executed
                >> (r >>= λ f.
                    throw_if (not f.is_private) signed_file_not_private
                    >> ok (stream_file f "attachment" (version.name ++ "-signed.pdf")))))
          ≡ ok d
        → IsDownload site version true d
    go true b r e found k = cc
    go false true r e found k = cc
    go false false (err x) e found k = cc
    go false false (ok f) e found k =
        let last =
          stream_private-ok site version f (version.name ++ "-signed.pdf") d f.is_private refl k in
        (
          f,
          last.0,
          (
            resolve_attached_file-ok p version.executed_document version "executed_document" site f
                found,
            status_is version.status VersionStatus.executed e,
            last.1,
            last.2,
          ),
        )

download_original-ok :
    (p : Platform) (version : ContractVersion) (site : Site) (d : Download)
    → download_original p version site ≡ ok d
    → IsDownload site version false d
unfolding download_original stream_file
download_original-ok p version site d h =
    go (not (truthy version.document))
      (resolve_attached_file p version.document version "document" site) refl h
  where
    content_of : Result Download → String
    content_of (ok x) = x.content
    content_of (err e) = d.content

    go :
        (a : Bool) (r : Result FileDoc)
        → resolve_attached_file p version.document version "document" site ≡ r
        → (throw_if a no_original_document
            >> (r >>= λ f.
                let name = or_text f.file_name (after_slash version.document version.document) in
                ok (stream_file f (display_as name) name)))
          ≡ ok d
        → IsDownload site version false d
    go true r found k = cc
    go false (err x) found k = cc
    go false (ok f) found k = (
      f,
      sym (ap content_of k),
      resolve_attached_file-ok p version.document version "document" site f found,
    )

not-false : (b : Bool) → not b ≡ false → b ≡ true
not-false b h = ground arith

resolve_owned_version-ok :
    (member : Member) (name : String) (site : Site) (version : ContractVersion)
    → resolve_owned_version member name site ≡ ok version
    → IsOwned site member name version
unfolding resolve_owned_version
resolve_owned_version-ok member name site version h =
    let (v, found, rest) =
      >>=-eq-ok (or_throw (find_version name site.versions) no_such_version) _ h in
    let k =
      (throw_if->>=_iff (not (belongs_to member (find_contract v.contract site.contracts)))
          no_document_access (ok v) version).0
        rest in
    let same : v ≡ version = cc in
    (
      or_throw-ok (find_version name site.versions) no_such_version version (rw (← same) found),
      rw (← same) (belongs_to-true member _ (not-false _ k.0)),
    )

-- Only a portal user is answered, and only with the content of a file that is attached to a version
-- of a contract of the user's own counterparty, on the field that the kind asks for; the signed file
-- is given out only while the version is Executed, only if it is private, and as an attachment.
pub download_document-Owned :
    (p : Platform) (site : Site) (name kind : String) (d : Download)
    → download_document p name kind site ≡ ok d
    → (member : Member) × (version : ContractVersion) × IsPortalUser site member
      × IsOwned site member name version
      × IsDownload site version (kind == "executed") d
unfolding download_document
download_document-Owned p site name kind d h =
    let (member, user, rest) = >>=-eq-ok (require_counterparty p site) _ h in
    let (version, owned, last) = >>=-eq-ok (resolve_owned_version member name site) _ rest in
    (
      member,
      version,
      require_counterparty-ok p site member user,
      resolve_owned_version-ok member name site version owned,
      by_kind version (kind == "executed") last,
    )
  where
    by_kind :
        (version : ContractVersion) (b : Bool)
        → (if b then download_executed p version site else download_original p version site) ≡ ok d
        → IsDownload site version b d
    by_kind version true k = download_executed-ok p version site d k
    by_kind version false k = download_original-ok p version site d k
