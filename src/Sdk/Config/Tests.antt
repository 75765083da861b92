-- ===== src/Sdk/Config/Tests.antt =====
-- Configurations at concrete inputs.
use agent_auth.Prelude.{ℕ, String, ◌≡◌, refl, true, some, ltb, Result, ok, err, from_secs}
use agent_auth.Sdk.Error.{config_error}
use agent_auth.Sdk.Config.{
  Url, Floats, defaults, default_retry, default_token_refresh, with_token_refresh, validate, new,
  is_localhost,
}

-- Floats as whole numbers.
abbrev floats : Floats ℕ
floats = record { two = 2; below_one = λ x. ltb x 1; two_fine = refl }

abbrev local : Url
local = record { scheme = "http"; host_str = some "localhost" }

abbrev parse : String → Result String Url
parse text = ok local

makes : new floats parse "0.1.0" "http://localhost" ≡ ok (defaults floats "0.1.0" local)
unfolding new is_localhost
makes = refl

insecure :
    new floats (λ _. ok (record local { host_str = some "example.org" })) "0.1.0" ""
    ≡ err (config_error "Registry URL must use HTTPS")
unfolding new is_localhost
insecure = refl

passes : validate floats (defaults floats "0.1.0" local) ≡ ok tt
unfolding validate defaults default_retry default_token_refresh
passes = refl

window_too_long :
    validate floats (
      with_token_refresh
        (record { refresh_before_expiry = from_secs 901; proactive_refresh = true })
        (defaults floats "0.1.0" local))
    ≡ err (config_error "refresh_before_expiry cannot exceed 15 minutes")
unfolding validate defaults default_retry
window_too_long = refl
