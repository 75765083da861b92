-- ===== src/Core/Envelope/Validity.antt =====
-- What an accepted envelope is, stated apart from the checks of `validate`.
use agent_auth.Prelude.{ℕ, ◌≤◌, ◌<◌, ◌≡◌, refl, ◌↔◌, List, [], ◌∷◌, arith, All, ok}
use agent_auth.Core.Envelope.{
  TimeWindow, BehavioralEnvelope, validate_days, validate_window, validate_windows, validate,
  default_restrictive, default_permissive,
}

pub record IsWindow (w : TimeWindow) : Type 0 where
  pub start_in_day : w.start_hour < 24
  pub end_in_day : w.end_hour < 24
  pub days_in_week : All (λ d. d < 7) w.days_of_week

pub record IsValid (e : BehavioralEnvelope) : Type 0 where
  pub burst_pos : 0 < e.max_burst
  pub burst_bounded : e.max_burst ≤ e.max_requests_per_minute
  pub session_pos : 0 < e.max_session_duration_secs
  pub windows : All IsWindow e.allowed_time_windows

validate_days_iff : (days : List ℕ) → (validate_days days ≡ ok tt) ↔ All (λ d. d < 7) days
unfolding validate_days
validate_days_iff [] = (λ _. tt, λ _. refl)
validate_days_iff (d ∷ days) = ground (arith, validate_days_iff days)

validate_window_iff : (w : TimeWindow) → (validate_window w ≡ ok tt) ↔ IsWindow w
unfolding validate_window
validate_window_iff w = ground (arith, validate_days_iff w.days_of_week)

validate_windows_iff : (ws : List TimeWindow) → (validate_windows ws ≡ ok tt) ↔ All IsWindow ws
unfolding validate_windows
validate_windows_iff [] = (λ _. tt, λ _. refl)
validate_windows_iff (w ∷ ws) = ground (arith, validate_window_iff w, validate_windows_iff ws)

-- An envelope passes its checks exactly when the burst is positive and at most the rate, the
-- session is not empty, and every window has hours of a day and days of a week.
pub envelope_validate_iff : (e : BehavioralEnvelope) → (validate e ≡ ok tt) ↔ IsValid e
unfolding validate
envelope_validate_iff e = ground (arith, validate_windows_iff e.allowed_time_windows)

pub default_restrictive-IsValid : IsValid default_restrictive
unfolding default_restrictive
default_restrictive-IsValid = omega arith

pub default_permissive-IsValid : IsValid default_permissive
unfolding default_permissive
default_permissive-IsValid = omega arith
