-- ===== src/Safety/Signing.antt =====
-- The helpers of the signature service that write neither Contract Versions nor Approvals.
use contract_management.Prelude.{String, List, [], ◌∷◌}
use contract_management.Failure.{Result, ok, err}
use contract_management.Exec.{lift, ◌>>=◌, state_of}
use contract_management.Exec.Laws.{Keeps, keeps_rules, Keeps-bind, Keeps-lift, Keeps-pure}
use contract_management.Site.{
  ContractVersion, Approval, SignatureRequest, Payload, Call, FileDoc, Site,
}
use contract_management.Platform.{Platform}
use contract_management.Service.Signature.Create
use contract_management.Service.Signature.Create.{RecipientData}
use contract_management.Service.Signature.Send
use contract_management.Service.Signature.Executed
use contract_management.Safety.Frame
use contract_management.Safety.Frame.{On}

module _ (Q : List ContractVersion → List Approval → Type 0) where
  ruleset frame_rules = (
    keeps_rules, Frame.SignatureRequest_save-Keeps, Frame.SignatureRequest_insert-Keeps,
    Frame.get_contract-Keeps, Frame.get_version-Keeps, Frame.get_request-Keeps,
  )

  answered :
      {A : Type 0} (site : Site) (r : Result A) → On Q site → On Q (state_of (Send.answer r site))
  unfolding Send.answer
  answered site (ok a) h = h
  answered site (err e) h = h

  ask-Keeps :
      {A : Type 0} (c : Call) (reply : List Call → Result A) → Keeps (On Q) (Send.ask c reply)
  unfolding Send.ask
  ask-Keeps c reply = record { at = λ site h. answered _ (reply site.calls) h }

  get_pdf_content-Keeps :
      (p : Platform) (v : ContractVersion) → Keeps (On Q) (Send.get_pdf_content p v)
  unfolding Send.get_pdf_content
  get_pdf_content-Keeps p v = search frame_rules depth 12

  build_documenso_payload-Keeps :
      (p : Platform) (r : SignatureRequest) (v : ContractVersion)
      → Keeps (On Q) (Send.build_documenso_payload p r v)
  unfolding Send.build_documenso_payload
  build_documenso_payload-Keeps p r v = search frame_rules depth 12

  pub prepare-Keeps : (p : Platform) (r : SignatureRequest) → Keeps (On Q) (Send.prepare p r)
  unfolding Send.prepare
  prepare-Keeps p r =
      search (frame_rules, get_pdf_content-Keeps, build_documenso_payload-Keeps) depth 12

  pub exchange-Keeps :
      (p : Platform) (r : SignatureRequest) (pdf : String) (payload : Payload)
      → Keeps (On Q) (Send.exchange p r pdf payload)
  unfolding Send.exchange
  exchange-Keeps p r pdf payload = search (frame_rules, ask-Keeps) depth 12

  append_recipients-Keeps :
      (p : Platform) (data_rows : List RecipientData)
      → Keeps (On Q) (Create.append_recipients p data_rows)
  unfolding Create.append_recipients
  append_recipients-Keeps p [] = search keeps_rules
  append_recipients-Keeps p (d ∷ rest) =
      Keeps-bind (lift (p.get_user d.signer)) _ (Keeps-lift _) (λ user.
        Keeps-bind (Create.append_recipients p rest) _ (append_recipients-Keeps p rest)
          (λ rows. Keeps-pure _))

  pub create-Keeps :
      (p : Platform) (name : String) (rows : List RecipientData)
      → Keeps (On Q) (Create.create_signature_request p name rows)
  unfolding Create.create_signature_request
  create-Keeps p name rows = search (frame_rules, append_recipients-Keeps) depth 12

  download_signed-Keeps :
      (p : Platform) (r : SignatureRequest) → Keeps (On Q) (Executed.download_signed p r)
  unfolding Executed.download_signed
  download_signed-Keeps p r = search (keeps_rules, ask-Keeps) depth 12

  add_file-Keeps : (f : FileDoc) → Keeps (On Q) (Executed.add_file f)
  unfolding Executed.add_file ◌>>=◌
  add_file-Keeps f = record { at = λ site h. h }

  pub store_executed_document-Keeps :
      (p : Platform) (r : SignatureRequest) (v : ContractVersion)
      → Keeps (On Q) (Executed.store_executed_document p r v)
  unfolding Executed.store_executed_document
  store_executed_document-Keeps p r v =
      search (keeps_rules, download_signed-Keeps, add_file-Keeps) depth 12
