-- ===== src/Portal/Signed.antt =====
-- services/signature.py and portal_api.py: the signed document, from Documenso to the counterparty.
use Prim.Native.String.{◌++◌}
use Prim.Native.String.append
use Prim.Native.String.compare
use contract_management.Prelude.{
  ◌≡◌, refl, sym, ap, ◌∙◌, inl, inr, Bool, true, false, String, some, List, [], ◌∷◌, string_eq,
  eq_iff, if◌then◌else◌,
}
use contract_management.Prelude.Lists.{filter}
use contract_management.Prelude.Table
use contract_management.Prelude.Text.{truthy}
use contract_management.Failure.{Result, ok, err}
use contract_management.Exec.{returned, state_of, modify, gets, lift, pure, ◌>>=◌, ◌>>◌}
use contract_management.Exec.Laws.{Keeps, Keeps-returned, keeps_rules, >>=-returned}
use contract_management.Exec.Steps.{gets-then, lift-then}
use contract_management.Workflow.{VersionStatus, version_status_eq}
use contract_management.Site.{
  Contract, ContractVersion, SignatureRequest, FileDoc, Site, Call, M, find_contract, find_version,
}
use contract_management.Platform.{Platform, OneRow}
use contract_management.Service.Signature.Send.{ask, answer}
use contract_management.Service.Signature.Executed.{
  download_signed, store_executed_document, signed_file, with_executed_document, add_file,
}
use contract_management.Portal.{Member, require_counterparty}
use contract_management.Portal.Flags.{one-some}
use contract_management.Portal.Download.{
  is_attached, belongs_to, resolve_owned_version, resolve_attached_file, stream_file,
  download_executed, download_document,
}

-- A choice among one row.
one-single : {A : Type 0} (q : OneRow A) (a : A) → q.one (a ∷ []) ≡ some a
one-single q a =
    let (b, e, place) = one-some q (a ∷ []) a (inl refl) in
    elim place [ inl same ↦ e ∙ ap some (sym same) | inr none_there ↦ absurd none_there ]

-- The file that the service inserts has what the portal looks for.
is_attached-signed_file :
    (v : ContractVersion) (url content : String)
    → is_attached url v.name "executed_document" (signed_file v url content) ≡ true
unfolding is_attached
is_attached-signed_file v url content =
    let same_url = (eq_iff url url).1 refl in
    let same_name = (eq_iff v.name v.name).1 refl in rw (same_url, same_name) refl

-- Asking Documenso adds no file.
ask-Keeps :
    {A : Type 0} (files : List FileDoc) (c : Call) (reply : List Call → Result A)
    → Keeps (λ (s : Site). s.files ≡ files) (ask c reply)
unfolding ask answer
ask-Keeps {A} files c reply = record { at = λ site h. go (reply site.calls) site h }
  where
    go :
        (r : Result A) (site : Site)
        → site.files ≡ files
        → (state_of (answer r (record site { calls = c ∷ site.calls }))).files ≡ files
    go (ok a) site h = h
    go (err e) site h = h

download_signed-Keeps :
    (p : Platform) (request : SignatureRequest) (files : List FileDoc)
    → Keeps (λ (s : Site). s.files ≡ files) (download_signed p request)
unfolding download_signed
download_signed-Keeps p request files = search (keeps_rules, ask-Keeps) depth 12

-- What storing the signed document leaves behind.
store_executed_document-returned :
    (p : Platform) (request : SignatureRequest) (version v : ContractVersion) (site after : Site)
    → truthy version.executed_document ≡ false
    → store_executed_document p request version site ≡ returned v after
    → (content : String) × (w : Site) × (download_signed p request site ≡ returned content w)
      × (after.files ≡ signed_file version v.executed_document content ∷ site.files)
unfolding store_executed_document add_file pure modify ◌>>=◌
store_executed_document-returned p request version v site after empty h =
    go (truthy version.executed_document) empty h
  where
    saving : String → List FileDoc → M ContractVersion
    saving content files = do
      url ← lift (p.save_file files (version.name ++ "-signed.pdf") content)
      add_file (signed_file version url content)
      pure (with_executed_document url version)

    go :
        (b : Bool)
        → b ≡ false
        → (if b then pure version else (do
          content ← download_signed p request
          files ← gets (λ s. s.files)
          saving content files))
            site
          ≡ returned v after
        → (content : String) × (w : Site) × (download_signed p request site ≡ returned content w)
          × (after.files ≡ signed_file version v.executed_document content ∷ site.files)
    go true e k = cc
    go false e k =
        let (content, w, got, k1) = >>=-returned (download_signed p request) _ site k in
        let k2 = gets-then (saving content) w (λ s. s.files) k1 in
        let (url, saved, k3) =
          lift-then
            (λ url.
              add_file (signed_file version url content)
              >> pure (with_executed_document url version))
            w (p.save_file w.files (version.name ++ "-signed.pdf") content) k2 in
        let is_v : with_executed_document url version ≡ v = cc in
        let is_after : record w { files = signed_file version url content ∷ w.files } ≡ after =
          cc in
        let kept : w.files ≡ site.files =
          Keeps-returned (λ s. s.files ≡ site.files) (download_signed-Keeps p request site.files)
            site refl got in
        (
          content,
          w,
          got,
          rw (← is_after, ← is_v) (ap (λ files. signed_file version url content ∷ files) kept),
        )

-- The name that the download has is never empty.
truthy-signed : (name : String) → truthy (name ++ "-signed.pdf") ≡ true
truthy-signed String.[] = refl
truthy-signed (String.◌∷◌ c s) = rw (append.cons, compare.cons-nil) refl

-- The signed document that the service has stored is the one that the portal gives out: in any later
-- site that still has the files, and in which the version is Executed, names the stored URL and
-- belongs to the portal user's counterparty, the download answers with exactly the content that came
-- from Documenso. The URL is assumed not to be in use at the version before.
pub download_document-stored :
    (p : Platform) (request : SignatureRequest) (version v : ContractVersion) (site after : Site)
    → truthy version.executed_document ≡ false
    → store_executed_document p request version site ≡ returned v after
    → filter (is_attached v.executed_document version.name "executed_document") site.files ≡ []
    → (later : Site) (member : Member) (contract : Contract) (row : ContractVersion)
    → later.files ≡ after.files
    → require_counterparty p later ≡ ok member
    → find_version version.name later.versions ≡ some row
    → find_contract row.contract later.contracts ≡ some contract
    → contract.counterparty ≡ member.name
    → row.status ≡ VersionStatus.executed
    → row.executed_document ≡ v.executed_document
    → truthy v.executed_document ≡ true
    → (content : String) × (w : Site) × (download_signed p request site ≡ returned content w)
      × (download_document p version.name "executed" later
          ≡ ok (record {
            filename = version.name ++ "-signed.pdf";
            display_content_as = "attachment";
            content = content;
          }))
unfolding download_document resolve_owned_version belongs_to download_executed resolve_attached_file
    stream_file filter
download_document-stored p request version v site after empty stored fresh later member contract row
      same_files user found owned own status url given =
    let (content, w, got, files) =
      store_executed_document-returned p request version v site after empty stored in
    let named =
      Table.find-key (λ (x : ContractVersion). x.name) version.name later.versions row found in
    let f = signed_file version v.executed_document content in
    let chosen : p.one_file.one
          (filter (is_attached v.executed_document version.name "executed_document") later.files)
        ≡ some f =
      rw (same_files, files, is_attached-signed_file version v.executed_document content, fresh)
        (one-single p.one_file f) in
    let is_own = (eq_iff contract.counterparty member.name).1 own in
    (
      content,
      w,
      got,
      rw (user, found, owned, is_own, url, given, status, named, chosen, truthy-signed version.name)
          refl,
    )
