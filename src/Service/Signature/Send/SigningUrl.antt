-- ===== src/Service/Signature/Send/SigningUrl.antt =====
-- The signing URL that the answer of Documenso leaves on a request.
use contract_management.Prelude.{arith, ◌≡◌, String, some, List, [], ◌∷◌, ◌++◌}
use contract_management.Site.{SignatureRequest, SignatureRecipient}
use contract_management.Platform.{DistributedRecipient, text}
use contract_management.Service.Signature.Send

url_at-found :
    (ds : List DistributedRecipient) (url u : String) (s : SignatureRecipient)
    (d : DistributedRecipient)
    → Send.with_email s.email ds ≡ some d
    → d.signing_url ≡ text u
    → Send.url_at ds url s ≡ u
unfolding Send.url_at
url_at-found ds url u s d h k = ground arith

url_after-append :
    (ds : List DistributedRecipient) (url u : String) (rows : List SignatureRecipient)
    (s : SignatureRecipient) (d : DistributedRecipient)
    → Send.with_email s.email ds ≡ some d
    → d.signing_url ≡ text u
    → Send.url_after ds url (rows ++ s ∷ []) ≡ u
unfolding Send.url_after
url_after-append ds url u [] s d h k = url_at-found ds url u s d h k
url_after-append ds url u (r ∷ rows) s d h k =
    url_after-append ds (Send.url_at ds url r) u rows s d h k

-- If Documenso answers with a signing URL for the last recipient of a request, then that URL is the
-- request's one signing URL, whatever the URLs of the other recipients are.
pub apply_recipient_metadata-last :
    (request : SignatureRequest) (ds : List DistributedRecipient) (rows : List SignatureRecipient)
    (s : SignatureRecipient) (d : DistributedRecipient) (u : String)
    → request.signature_recipients ≡ rows ++ s ∷ []
    → Send.with_email s.email ds ≡ some d
    → d.signing_url ≡ text u
    → (Send.apply_recipient_metadata request ds).signing_url ≡ u
unfolding Send.apply_recipient_metadata
apply_recipient_metadata-last request ds rows s d u split h k =
    rw split (url_after-append ds request.signing_url u rows s d h k)
