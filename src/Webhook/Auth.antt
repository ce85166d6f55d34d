-- ===== src/Webhook/Auth.antt =====
-- services/webhook_auth.py
use Prim.Native.Char.{code}
use contract_management.Prelude.{
  Bool, true, not, ◌&&◌, String, Option, none, some, List, [], ◌∷◌, ◌==◌, string_eq, leb,
  if◌then◌else◌,
}
use contract_management.Prelude.Text.{truthy, lower}
use contract_management.Failure.{
  Result, ok, err, ◌>>=◌, ◌>>◌, throw_if, missing_secret, invalid_secret, secret_not_configured,
  type_error,
}
use contract_management.Platform.{Platform}

-- The headers of a request, in the order of the dictionary.
abbrev pub Headers : Type 0
Headers = List (String × String)

-- {k.lower(): v for k, v in headers.items()}.get(name): a later header overwrites an earlier one.
unfoldable pub lowered_get : String → Headers → Option String
unfolding lower
lowered_get name [] = none
lowered_get name ((k, v) ∷ rest) = elim (lowered_get name rest) [
  | some found ↦ some found
  | none ↦ if lower k == name then some v else none
]

-- `_extract_secret`, with HEADER
unfoldable pub extract_secret : Headers → Option String
unfolding lowered_get lower
extract_secret headers = lowered_get (lower "X-Documenso-Secret") headers

unfoldable pub is_ascii : String → Bool
is_ascii String.[] = true
is_ascii (String.◌∷◌ c s) = leb (code c) 127 && is_ascii s

-- hmac.compare_digest on two texts: a TypeError if one of them is not ASCII.
unfoldable pub compare_digest : String → String → Result Bool
unfolding is_ascii
compare_digest a b = if is_ascii a && is_ascii b then ok (a == b) else err type_error

-- The rest of `verify`, once there is a secret.
unfoldable pub check_secret : Platform → String → Result (Unit {0})
unfolding compare_digest
check_secret p received = do
  expected ← p.webhook_secret
  throw_if (not (truthy expected)) secret_not_configured
  same ← compare_digest received expected
  throw_if (not same) invalid_secret

unfoldable pub given : Platform → Option String → Result (Unit {0})
unfolding check_secret
given p none = err missing_secret
given p (some received) = if truthy received then check_secret p received else err missing_secret

-- `WebhookAuthenticator.verify`
unfoldable pub verify : Platform → Headers → Result (Unit {0})
unfolding given extract_secret
verify p headers = given p (extract_secret headers)
