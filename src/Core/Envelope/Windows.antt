-- ===== src/Core/Envelope/Windows.antt =====
-- Time windows as arcs of the 24-hour circle.
use agent_auth.Prelude.{ℕ, ◌+◌, ◌-◌, ◌%◌, ◌<◌, ◌≡◌, ◌↔◌, ◌⊎◌, true, List, arith, ◌==◌, null, any}
use agent_auth.Core.Envelope.{Calendar, TimeWindow, contains, hour_in_range, u8}
use agent_auth.Core.Envelope.Validity.{IsWindow}

-- Hours passed since the window opened, round the clock.
abbrev pub hours_since : ℕ → ℕ → ℕ
hours_since start hour = (hour + 24 - start) % 24

-- The days that a window names; none named means every day.
abbrev pub OnDay : List ℕ → ℕ → Type 0
OnDay days day = (null days ≡ true) ⊎ (any (λ d. d == day) days ≡ true)

hour_in_range_iff :
    (w : TimeWindow) (hour : ℕ)
    → IsWindow w
    → hour < 24
    → (hour_in_range w hour ≡ true)
      ↔ (hours_since w.start_hour hour < hours_since w.start_hour w.end_hour)
unfolding hour_in_range
hour_in_range_iff w hour v h = ground arith

u8_small : (n : ℕ) → n < 256 → u8 n ≡ n
u8_small n h = omega arith

-- A valid window admits an instant exactly when its day is named (or no day is) and the hour
-- lies on the arc from the start hour, inclusive, to the end hour, exclusive, across midnight
-- too. A window that starts and ends at one hour admits nothing.
pub contains_iff :
    (cal : Calendar) (w : TimeWindow) (time : ℕ)
    → IsWindow w
    → (contains cal w time ≡ true) ↔ (
        OnDay w.days_of_week (cal.num_days_from_sunday time)
        × (hours_since w.start_hour (cal.hour time) < hours_since w.start_hour w.end_hour))
unfolding contains
contains_iff cal w time v = ground (
  arith,
  cal.hour-lt time,
  cal.num_days_from_sunday-lt time,
  u8_small (cal.num_days_from_sunday time),
  u8_small (cal.hour time),
  hour_in_range_iff w (cal.hour time),
)
