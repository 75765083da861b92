-- ===== src/Sdk/Config.antt =====
-- crates/sdk/src/config.rs: the configuration of the client and its checks. A `Duration` is a number
-- of nanoseconds. The multiplier, a float, and the parser of addresses are parameters; the waits
-- between attempts, computed with floats and random numbers, are left out.
mod Tests
use Prim.Native.String.{◌++◌ as str_append}
use agent_auth.Prelude.{
  ℕ, ◌*◌, ◌≤◌, ◌<◌, String, ◌≡◌, refl, subst, ◌↔◌, ◌⊎◌, inl, inr, Bool, true, false, not, ◌&&◌,
  ◌||◌, Option, none, some, arith, eq_iff, ltb, ◌==◌, str_eq, if◌then◌else◌, Bool-cases, Result, ok,
  err, ◌>>=◌, ◌>>◌, fail_if, from_secs, ok_inj,
}
use agent_auth.Sdk.Error.{SdkError, config_error}

-- What the url crate tells of an address.
pub record Url : Type 0 where
  pub scheme : String
  pub host_str : Option String

-- f64 with what the configuration does with it; 2.0 is not less than 1.0.
pub record Floats (F : Type 0) : Type 0 where
  pub two : F
  pub below_one : F → Bool
  pub two_fine : below_one two ≡ false

abbrev from_millis : ℕ → ℕ
from_millis n = n * 1000000

pub record RetryConfig (F : Type 0) : Type 0 where
  pub max_attempts : ℕ  -- u32
  pub initial_delay : ℕ
  pub max_delay : ℕ
  pub multiplier : F
  pub jitter : Bool

pub record TokenRefreshConfig : Type 0 where
  pub refresh_before_expiry : ℕ
  pub proactive_refresh : Bool

pub record SdkConfig (F : Type 0) : Type 0 where
  pub registry_url : Url
  pub request_timeout : ℕ
  pub connect_timeout : ℕ
  pub retry : RetryConfig F
  pub token_refresh : TokenRefreshConfig
  pub user_agent : String

abbrev is_loopback : String → Bool
is_loopback h = str_eq h "localhost" || (str_eq h "127.0.0.1" || str_eq h "[::1]")

unfoldable pub is_localhost : Url → Bool
is_localhost url = elim url.host_str [ none ↦ false | some h ↦ is_loopback h ]

unfoldable pub default_token_refresh : TokenRefreshConfig
default_token_refresh = record { refresh_before_expiry = from_secs 120; proactive_refresh = true }

unfoldable pub validate_token_refresh : TokenRefreshConfig → Result SdkError (Unit {0})
validate_token_refresh c =
    if ltb (from_secs 900) c.refresh_before_expiry
    then err (config_error "refresh_before_expiry cannot exceed 15 minutes")
    else ok tt

module _ {F : Type 0} (floats : Floats F) where
  unfoldable pub default_retry : RetryConfig F
  default_retry = record {
    max_attempts = 3;
    initial_delay = from_millis 100;
    max_delay = from_secs 2;
    multiplier = floats.two;
    jitter = true;
  }

  unfoldable pub no_retry : RetryConfig F
  unfolding default_retry
  no_retry = record default_retry { max_attempts = 0 }

  unfoldable pub validate_retry : RetryConfig F → Result SdkError (Unit {0})
  validate_retry c =
      if floats.below_one c.multiplier
      then err (config_error "retry multiplier must be >= 1.0")
      else (if ltb c.max_delay c.initial_delay
          then err (config_error "initial_delay cannot exceed max_delay")
          else ok tt)

  unfoldable pub validate : SdkConfig F → Result SdkError (Unit {0})
  unfolding validate_retry validate_token_refresh
  validate c = do
    fail_if (c.request_timeout == 0) (config_error "request_timeout cannot be zero")
    fail_if (c.connect_timeout == 0) (config_error "connect_timeout cannot be zero")
    validate_retry c.retry
    validate_token_refresh c.token_refresh

  unfoldable pub defaults : String → Url → SdkConfig F
  unfolding default_retry default_token_refresh
  defaults version url = record {
    registry_url = url;
    request_timeout = from_secs 5;
    connect_timeout = from_secs 2;
    retry = default_retry;
    token_refresh = default_token_refresh;
    user_agent = str_append "sdk/" version;
  }

  new_with : String → Result String Url → Result SdkError (SdkConfig F)
  new_with version (err e) = err (config_error (str_append "Invalid registry URL: " e))
  new_with version (ok url) =
      if not (str_eq url.scheme "https") && not (is_localhost url)
      then err (config_error "Registry URL must use HTTPS")
      else ok (defaults version url)

  -- `parse` is that of the url crate, with the text of its error.
  unfoldable pub new :
      (String → Result String Url) → String → String → Result SdkError (SdkConfig F)
  unfolding new_with
  new parse version registry_url = new_with version (parse registry_url)

-- The setters.
abbrev pub with_request_timeout : {F : Type 0} → ℕ → SdkConfig F → SdkConfig F
with_request_timeout timeout c = record c { request_timeout = timeout }

abbrev pub with_connect_timeout : {F : Type 0} → ℕ → SdkConfig F → SdkConfig F
with_connect_timeout timeout c = record c { connect_timeout = timeout }

abbrev pub with_retry : {F : Type 0} → RetryConfig F → SdkConfig F → SdkConfig F
with_retry retry c = record c { retry = retry }

abbrev pub with_token_refresh : {F : Type 0} → TokenRefreshConfig → SdkConfig F → SdkConfig F
with_token_refresh refresh c = record c { token_refresh = refresh }

abbrev pub with_user_agent : {F : Type 0} → String → SdkConfig F → SdkConfig F
with_user_agent user_agent c = record c { user_agent = user_agent }

module _ {F : Type 0} (floats : Floats F) where
  -- What a configuration that passes is.
  pub record Valid (c : SdkConfig F) : Type 0 where
    pub request_timeout : 0 < c.request_timeout
    pub connect_timeout : 0 < c.connect_timeout
    pub multiplier : floats.below_one c.retry.multiplier ≡ false
    pub delays : c.retry.initial_delay ≤ c.retry.max_delay
    pub window : c.token_refresh.refresh_before_expiry ≤ from_secs 900

  -- A configuration passes its checks exactly when no timeout is zero, the multiplier is not below
  -- one, the first wait is no longer than the longest and tokens are refreshed at most 15 minutes
  -- before they expire.
  pub validate_iff : (c : SdkConfig F) → (validate floats c ≡ ok tt) ↔ Valid c
  unfolding validate validate_retry validate_token_refresh
  validate_iff c = (
    λ e. record {
      request_timeout = ground arith;
      connect_timeout = ground arith;
      multiplier = ground arith;
      delays = ground arith;
      window = ground arith;
    },
    λ v. ground (arith, v.request_timeout, v.connect_timeout, v.multiplier, v.delays, v.window),
  )

  secure :
      (url : Url)
      → not (str_eq url.scheme "https") && not (is_localhost url) ≡ false
      → (url.scheme ≡ "https") ⊎ (is_localhost url ≡ true)
  secure url h = elim (Bool-cases (str_eq url.scheme "https")) [
    | inl e ↦ inl ((eq_iff url.scheme "https").0 e)
    | inr e ↦ inr (ground (arith, h, e))
  ]

  defaults-validate :
      (version : String) (url : Url) → validate floats (defaults floats version url) ≡ ok tt
  unfolding defaults validate validate_retry validate_token_refresh default_retry
      default_token_refresh
  defaults-validate version url = rw floats.two_fine refl

  new_with-validate :
      (version : String) (parsed : Result String Url) (c : SdkConfig F)
      → new_with floats version parsed ≡ ok c
      → (validate floats c ≡ ok tt)
        × (parsed ≡ ok c.registry_url)
        × ((c.registry_url.scheme ≡ "https") ⊎ (is_localhost c.registry_url ≡ true))
  unfolding new_with defaults
  new_with-validate version (err x) c e = ground arith
  new_with-validate version (ok url) c e =
      elim (Bool-cases (not (str_eq url.scheme "https") && not (is_localhost url))) [
        | inl b ↦ ground (arith, e, b)
        | inr b ↦
            let made : ok (defaults floats version url) ≡ ok c =
              subst
                (λ t.
                  (if t
                    then err (config_error "Registry URL must use HTTPS")
                    else ok (defaults floats version url))
                  ≡ ok c)
                b e in
            subst
              (λ d.
                (validate floats d ≡ ok tt)
                × (◌≡◌ {A = Result String Url} (ok url) (ok d.registry_url))
                × ((d.registry_url.scheme ≡ "https") ⊎ (is_localhost d.registry_url ≡ true)))
              (ok_inj made) (defaults-validate version url, refl, secure url b)
      ]

  -- What is made of the text of an address passes its checks, and its address is over HTTPS or of
  -- this machine.
  pub new-validate :
      (parse : String → Result String Url) (version text : String) (c : SdkConfig F)
      → new floats parse version text ≡ ok c
      → (validate floats c ≡ ok tt)
        × (parse text ≡ ok c.registry_url)
        × ((c.registry_url.scheme ≡ "https") ⊎ (is_localhost c.registry_url ≡ true))
  unfolding new
  new-validate parse version text c e = new_with-validate version (parse text) c e
