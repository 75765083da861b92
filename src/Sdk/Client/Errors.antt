-- ===== src/Sdk/Client/Errors.antt =====
-- What becomes of the registry's errors in the client, and of a grant that asks for a person.
use agent_auth.Prelude.{
  ℕ, String, ◌≡◌, refl, ap, ◌⊎◌, inl, inr, Bool, true, false, Option, none, some, ◌∷◌, arith,
  Bool-cases, Result, err,
}
use agent_auth.Core.Envelope.{Calendar, is_allowed_at_time}
use agent_auth.Registry.Error.{RegistryError}
use agent_auth.Registry.Response.{classify, retry_field, into_response}
use agent_auth.Sdk.Error.{
  SdkError, registry_error, time_window_restriction, human_confirmation_required,
}
use agent_auth.Sdk.RateLimiter
use agent_auth.Sdk.RateLimiter.{Governor, BehavioralRateLimiter}
use agent_auth.Sdk.Client.{
  Response, SdkConfig, Request, AgentAuthClient, entry, authenticate_request, checked,
  handle_error_response, handle_json_response, parse_error, is_success,
}

classify-is_success : (e : RegistryError) → is_success (classify e).0 ≡ false
unfolding classify
classify-is_success e = ground arith

-- A body without a field `code` does not parse as the client's error.
unknown :
    (to_string : RegistryError → String) (number : ℕ → String) (code message : String)
    (o : Option ℕ) (status : ℕ)
    → handle_error_response
        (some (("error", code) ∷ ("message", message) ∷ retry_field to_string number o))
        status
      ≡ registry_error "UNKNOWN" "Unknown error" status
unfolding handle_error_response parse_error
unknown to_string number code message none status = refl
unknown to_string number code message (some n) status = refl

-- Whatever error the registry answers with, the client reports it as one that it does not know, with
-- the status alone: its code and its message are lost.
pub errors_unknown :
    {A : Type 0} (to_string : RegistryError → String) (number : ℕ → String)
    (parse : Response → Option A) (e : RegistryError) (r : Response)
    → r.status ≡ (into_response to_string number e).0
    → r.fields ≡ some (into_response to_string number e).1
    → handle_json_response parse r
      ≡ err (registry_error "UNKNOWN" "Unknown error" (into_response to_string number e).0)
unfolding into_response handle_json_response
errors_unknown to_string number parse e r s f =
    rw (s, f, classify-is_success e)
      (ap err (unknown to_string number (classify e).1 (to_string e) (classify e).2 (classify e).0))

module _ (g : Governor) (cal : Calendar) (Server : Type 0)
    (send : Request → Server → Result SdkError Response × Server) (config : SdkConfig) where
  -- A request to a provider whose grant requires a person to be online is never authenticated: the
  -- client answers that it is out of hours or that a person has to confirm, and it sends nothing.
  pub online_never :
      (sp : ℕ) (header : String → Bool) (proof : Result SdkError String)
      (generate : String → Result SdkError String)
      (checked_at limiter_now now refresh_at expiry_at cached_at : ℕ)
      (c : AgentAuthClient g cal Server send config) (l : BehavioralRateLimiter g cal)
      → entry sp c.rate_limiters ≡ some l
      → l.envelope.requires_human_online ≡ true
      → let r =
          authenticate_request g cal Server send config sp header proof generate checked_at
            limiter_now now refresh_at expiry_at cached_at c in
        ((r.0 ≡ err time_window_restriction) ⊎ (r.0 ≡ err human_confirmation_required))
        × (r.1.server ≡ c.server)
        × (r.1.token_cache ≡ c.token_cache)
  unfolding authenticate_request checked RateLimiter.check is_allowed_at_time
  online_never sp header proof generate checked_at limiter_now now refresh_at expiry_at cached_at c
        l e o =
      rw (e, o)
        (elim (Bool-cases (is_allowed_at_time cal l.envelope checked_at)) [
          | inl f ↦ rw f (inr refl, refl, refl)
          | inr f ↦ rw f (inl refl, refl, refl)
        ])
