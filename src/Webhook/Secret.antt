-- ===== src/Webhook/Secret.antt =====
-- services/webhook_auth.py: which requests `verify` lets through.
use contract_management.Prelude.{
  ◌≡◌, refl, ◌∙◌, ◌↔◌, Bool, true, false, not, ◌&&◌, String, Option, none, some, ◌==◌, string_eq,
  eq_iff, if◌then◌else◌,
}
use contract_management.Prelude.Text.{truthy}
use contract_management.Failure.{
  Result, ok, err, ◌>>=◌, ◌>>◌, throw_if, secret_not_configured, invalid_secret, missing_secret,
  type_error,
}
use contract_management.Platform.{Platform}
use contract_management.Webhook.Auth.{
  Headers, extract_secret, is_ascii, compare_digest, check_secret, given, verify,
}

abbrev pub KnowsSecret : Platform → Option String → Type 0
KnowsSecret p o =
    (s : String) × (o ≡ some s)
    × (p.webhook_secret ≡ ok s)
    × (truthy s ≡ true)
    × (is_ascii s ≡ true)

compare_digest-ok :
    (a b : String) (m : Bool) → compare_digest a b ≡ ok m → m ≡ true → (a ≡ b) × (is_ascii a ≡ true)
unfolding compare_digest
compare_digest-ok a b m h e = go (is_ascii a) (is_ascii b) refl h
  where
    go :
        (x y : Bool)
        → is_ascii a ≡ x
        → (if x && y then ok (a == b) else err type_error) ≡ ok m
        → (a ≡ b) × (is_ascii a ≡ true)
    go true true known k = let same : (a == b) ≡ m = cc in ((eq_iff a b).0 (same ∙ e), known)
    go true false known k = cc
    go false y known k = cc

accepted :
    (p : Platform) (received : String)
    → check_secret p received ≡ ok tt
    → (p.webhook_secret ≡ ok received) × (is_ascii received ≡ true)
unfolding check_secret
accepted p received h = go p.webhook_secret refl h
  where
    compared : (m : Bool) → (throw_if (not m) invalid_secret) ≡ ok tt → m ≡ true
    compared true k = refl
    compared false k = cc

    stored :
        (expected : String) (b : Bool) (r : Result Bool)
        → p.webhook_secret ≡ ok expected
        → compare_digest received expected ≡ r
        → (throw_if b secret_not_configured >> (r >>= λ m. throw_if (not m) invalid_secret)) ≡ ok tt
        → (p.webhook_secret ≡ ok received) × (is_ascii received ≡ true)
    stored expected true r known same k = cc
    stored expected false (err e) known same k = cc
    stored expected false (ok m) known same k =
        let (equal, ascii) = compare_digest-ok received expected m same (compared m k) in
        (rw equal known, ascii)

    go :
        (r : Result String)
        → p.webhook_secret ≡ r
        → (r >>= λ expected.
            throw_if (not (truthy expected)) secret_not_configured
            >> (compare_digest received expected >>= λ m. throw_if (not m) invalid_secret))
          ≡ ok tt
        → (p.webhook_secret ≡ ok received) × (is_ascii received ≡ true)
    go (err e) known k = cc
    go (ok expected) known k =
        stored expected (not (truthy expected)) (compare_digest received expected) known refl k

-- `verify` lets a request through exactly when the last of its headers that is spelled like
-- X-Documenso-Secret, in any case, holds the secret of the settings, which is not empty and ASCII.
pub verify-accepts_iff :
    (p : Platform) (headers : Headers)
    → (verify p headers ≡ ok tt) ↔ KnowsSecret p (extract_secret headers)
unfolding verify given check_secret compare_digest
verify-accepts_iff p headers =
    (λ h. to (extract_secret headers) h, λ h. from (extract_secret headers) h)
  where
    to_given :
        (s : String) (b : Bool)
        → truthy s ≡ b
        → (if b then check_secret p s else err missing_secret) ≡ ok tt
        → KnowsSecret p (some s)
    to_given s true filled k =
        let (known, ascii) = accepted p s k in (s, refl, known, filled, ascii)
    to_given s false filled k = cc

    to : (o : Option String) → given p o ≡ ok tt → KnowsSecret p o
    to none k = cc
    to (some s) k = to_given s (truthy s) refl k

    from : (o : Option String) → KnowsSecret p o → given p o ≡ ok tt
    from none (s, e, known, filled, ascii) = cc
    from (some t) (s, e, known, filled, ascii) =
        let same : t ≡ s = cc in
        let equal : (s == s) ≡ true = (eq_iff s s).1 refl in
        rw (same, filled, known, filled, ascii, equal) refl
