-- ===== src/Core/Envelope.antt =====
-- crates/core/src/types/envelope.rs: the behavioral envelope of a grant and its time windows.
-- The hour and the day of an instant are chrono's; they enter as a `Calendar`.
pub mod Windows
pub mod Validity
use agent_auth.Prelude.{
  ℕ, ◌%◌, ◌<◌, Bool, true, false, not, ◌&&◌, ◌||◌, Option, none, some, List, [], ◌∷◌, ltb, leb,
  ◌==◌, if◌then◌else◌, null, any, Result, ok, ◌>>=◌, ◌>>◌, fail_if,
}
use agent_auth.Core.Error.{
  CoreError, invalid_envelope, start_hour_invalid, end_hour_invalid, day_of_week_invalid,
  burst_exceeds_rate, zero_rate, zero_burst, zero_session,
}

-- What chrono says of an instant in UTC.
pub record Calendar : Type 0 where
  pub hour : ℕ → ℕ
  pub num_days_from_sunday : ℕ → ℕ
  pub hour-lt : (t : ℕ) → hour t < 24
  pub num_days_from_sunday-lt : (t : ℕ) → num_days_from_sunday t < 7

pub record TimeWindow : Type 0 where
  pub start_hour : ℕ  -- u8
  pub end_hour : ℕ  -- u8
  pub days_of_week : List ℕ  -- u8

validate_days : List ℕ → Result CoreError (Unit {0})
validate_days [] = ok tt
validate_days (day ∷ days) =
    fail_if (ltb 6 day) (invalid_envelope (day_of_week_invalid day)) >>= λ _. validate_days days

unfoldable pub validate_window : TimeWindow → Result CoreError (Unit {0})
unfolding validate_days
validate_window w = do
  fail_if (ltb 23 w.start_hour) (invalid_envelope (start_hour_invalid w.start_hour))
  fail_if (ltb 23 w.end_hour) (invalid_envelope (end_hour_invalid w.end_hour))
  validate_days w.days_of_week

-- `as u8`
abbrev u8 : ℕ → ℕ
u8 n = n % 256

hour_in_range : TimeWindow → ℕ → Bool
hour_in_range w hour =
    if leb w.start_hour w.end_hour
    then leb w.start_hour hour && ltb hour w.end_hour
    else leb w.start_hour hour || ltb hour w.end_hour

unfoldable pub contains : Calendar → TimeWindow → ℕ → Bool
unfolding hour_in_range
contains cal w time =
    let hour = u8 (cal.hour time) in
    let day = u8 (cal.num_days_from_sunday time) in
    if not (null w.days_of_week) && not (any (λ d. d == day) w.days_of_week)
    then false
    else hour_in_range w hour

pub record BehavioralEnvelope : Type 0 where
  pub max_requests_per_minute : ℕ  -- u32
  pub max_burst : ℕ  -- u32
  pub requires_human_online : Bool
  pub human_confirmation_threshold : Option ℕ  -- u64
  pub allowed_time_windows : List TimeWindow
  pub max_session_duration_secs : ℕ  -- u32

unfoldable pub default_restrictive : BehavioralEnvelope
default_restrictive = record {
  max_requests_per_minute = 30;
  max_burst = 5;
  requires_human_online = true;
  human_confirmation_threshold = some 100;
  allowed_time_windows = [];
  max_session_duration_secs = 3600;
}

unfoldable pub default_permissive : BehavioralEnvelope
default_permissive = record {
  max_requests_per_minute = 600;
  max_burst = 60;
  requires_human_online = false;
  human_confirmation_threshold = none;
  allowed_time_windows = [];
  max_session_duration_secs = 86400;
}

validate_windows : List TimeWindow → Result CoreError (Unit {0})
unfolding validate_window
validate_windows [] = ok tt
validate_windows (w ∷ ws) = validate_window w >>= λ _. validate_windows ws

-- A session longer than a token may live is only logged, so that test leaves no trace here.
unfoldable pub validate : BehavioralEnvelope → Result CoreError (Unit {0})
unfolding validate_windows
validate e = do
  fail_if (ltb e.max_requests_per_minute e.max_burst)
      (invalid_envelope (burst_exceeds_rate e.max_burst e.max_requests_per_minute))
  fail_if (e.max_requests_per_minute == 0) (invalid_envelope zero_rate)
  fail_if (e.max_burst == 0) (invalid_envelope zero_burst)
  fail_if (e.max_session_duration_secs == 0) (invalid_envelope zero_session)
  validate_windows e.allowed_time_windows

unfoldable pub is_allowed_at_time : Calendar → BehavioralEnvelope → ℕ → Bool
unfolding contains
is_allowed_at_time cal e time =
    if null e.allowed_time_windows
    then true
    else any (λ w. contains cal w time) e.allowed_time_windows
