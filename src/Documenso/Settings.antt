-- ===== src/Documenso/Settings.antt =====
-- integration_config.py and doctype/documenso_settings/documenso_settings.py
use contract_management.Prelude.{ℕ, Bool, not, ◌&&◌, ◌||◌, String, nat_eq, str_eq, if◌then◌else◌}
use Prim.Native.Char.{code}
use contract_management.Prelude.Text.{truthy, strip, has_prefix}
use contract_management.Failure.{Result, ok, ◌>>◌, throw_if, integration_disabled, invalid_base_url}

-- Documenso Settings. `token` is what get_password("api_token") gives or raises.
pub record Settings : Type 0 where
  pub enabled : Bool
  pub base_url : String
  pub request_timeout : ℕ
  pub token : Result String

-- `get_settings`
unfoldable pub get_settings : Settings → Result Settings
get_settings settings = do throw_if (not settings.enabled) integration_disabled; ok settings

-- s.rstrip("/")
unfoldable pub rstrip_slash : String → String
rstrip_slash String.[] = String.[]
rstrip_slash (String.◌∷◌ c s) =
    let rest = rstrip_slash s in
    if nat_eq (code c) 47 && str_eq rest "" then "" else String.◌∷◌ c rest

-- url.startswith(("http://", "https://"))
unfoldable pub is_http : String → Bool
unfolding has_prefix
is_http url = has_prefix "http://" url || has_prefix "https://" url

-- `_validate_base_url`: the base URL that is saved.
unfoldable pub validate_base_url : String → Result String
unfolding rstrip_slash strip is_http
validate_base_url url =
    if truthy url
    then (do
      throw_if (not (is_http (rstrip_slash (strip url)))) invalid_base_url
      ok (rstrip_slash (strip url)))
    else ok url
