-- ===== src/Registry/RateLimit/Window/Bound.antt =====
-- The bound on the admissions in a window.
use agent_auth.Prelude.{
  ℕ, ◌+◌, ◌≤◌, String, ◌≡◌, refl, sym, subst, ◌∙◌, ◌≢◌, inl, inr, Bool, true, false, ◌&&◌, List, [],
  ◌∷◌, arith, eq_iff, ltb, str_eq, if◌then◌else◌, Bool-cases, length, keep, All,
}
use agent_auth.Registry.Db.{Fault, answers, lost_before, lost_after}
use agent_auth.Registry.RateLimit.{
  SortedSets, Attempt, settle, forget, admit, sliding_window, check_rate_limit,
}
use agent_auth.Registry.RateLimit.Window.{
  Call, window, within, granted, admissions, Steady, Fresh, tally,
}
use agent_auth.Registry.RateLimit.Window.Kept.{Inv, Inv-later, Inv-untold, script-Inv}

module _ (r : SortedSets) (window_secs limit : ℕ) where
  open r use {Store, members, members-zremrangebyscore_ne, members-zadd_ne, members-pexpire_ne}

  -- Whatever becomes of a call, the server is as it was or as the script leaves it.
  settle_either {κ} :
      (P : Store → Type κ) (f : Fault) (p : (Bool × ℕ × ℕ) × Store) {s : Store}
      → P s
      → P p.1
      → P (settle r f p s).1
  settle_either P answers (reply, s') h h' = h'
  settle_either P lost_before (reply, s') h h' = h
  settle_either P lost_after (reply, s') h h' = h'

  abbrev script : Attempt r → String → Store → (Bool × ℕ × ℕ) × Store
  script a key s = sliding_window r a.server_now key (window window_secs) limit a.now a.req_id s

  move :
      (b : Bool) (x now : ℕ) (log rest : List ℕ)
      → tally window_secs x (if b then now ∷ log else log) + tally window_secs x rest ≤ limit
      → tally window_secs x log + tally window_secs x (if b then now ∷ rest else rest) ≤ limit
  move true x now log rest h = ground arith
  move false x now log rest h = h

  module _ (key : String) where
    members-forget_ne :
        (k : String) (u t now : ℕ) (s : Store)
        → key ≢ k
        → members u key (forget r t k (window window_secs) now s) ≡ members u key s
    unfolding forget
    members-forget_ne k u t now s ne = elim (Bool-cases (ltb now (window window_secs))) [
      | inl early ↦ rw early refl
      | inr late ↦ rw late (members-zremrangebyscore_ne u t key k _ s ne)
    ]

    members-admit_ne :
        (k : String) (u t now i : ℕ) (s : Store)
        → key ≢ k
        → members u key (admit r t k (window window_secs) now i s) ≡ members u key s
    unfolding admit
    members-admit_ne k u t now i s ne =
        members-pexpire_ne u t key k _ _ ne ∙ members-zadd_ne u t key k _ s ne

    members-sliding_window_ne :
        (k : String) (u t now i : ℕ) (s : Store)
        → key ≢ k
        → members u key (sliding_window r t k (window window_secs) limit now i s).1
          ≡ members u key s
    unfolding sliding_window
    members-sliding_window_ne k u t now i s ne =
        let kept = members-forget_ne k u t now s ne in
        elim (Bool-cases (ltb (r.zcard t k (forget r t k (window window_secs) now s)) limit)) [
          | inl room ↦ rw room (members-admit_ne k u t now i _ ne ∙ kept)
          | inr full ↦ rw full kept
        ]

    -- Only a caller that is told counts.
    settle-Inv :
        (f : Fault) (p : (Bool × ℕ × ℕ) × Store) {t n : ℕ} {used log : List ℕ} {s : Store}
        → Inv r window_secs limit key t n used log s
        → Inv r window_secs limit key t n used (if p.0.0 then n ∷ log else log) p.1
        → Inv r window_secs limit key t n used
            (if granted (settle r f p s).0 then n ∷ log else log)
            (settle r f p s).1
    settle-Inv answers ((b, c, l), s') v v' = v'
    settle-Inv lost_before ((b, c, l), s') v v' = v
    settle-Inv lost_after ((true, c, l), s') v v' = Inv-untold r window_secs limit key v'
    settle-Inv lost_after ((false, c, l), s') v v' = v'

    check-Inv :
        (k : String) (a : Attempt r) {t n : ℕ} {used log : List ℕ} {s : Store}
        → t ≤ a.server_now
        → n ≤ a.now
        → a.server_now + n ≤ t + a.now
        → All (λ j. j ≢ a.req_id) used
        → Inv r window_secs limit key t n used log s
        → Inv r window_secs limit key a.server_now a.now
            (a.req_id ∷ used)
            (if str_eq k key && granted (check_rate_limit r k window_secs limit a s).0
              then a.now ∷ log
              else log)
            (check_rate_limit r k window_secs limit a s).1
    unfolding check_rate_limit
    check-Inv k a {used = used} {log = log} {s = s} ht hn htn new v =
        elim (Bool-cases (str_eq k key)) [
          | inl same ↦ rw same (
              subst
                (λ j.
                  Inv r window_secs limit key a.server_now a.now (a.req_id ∷ used)
                    (if granted (settle r a.fate (script a j s) s).0 then a.now ∷ log else log)
                    (settle r a.fate (script a j s) s).1)
                (sym ((eq_iff k key).0 same))
                (settle-Inv a.fate (script a key s)
                  (Inv-later r window_secs limit key used a.req_id ht hn htn (λ u. refl) v)
                  (script-Inv r window_secs limit key a.req_id ht hn htn new v)))
          | inr other ↦ rw other (
              Inv-later r window_secs limit key used a.req_id ht hn htn
                (λ u.
                  settle_either (λ x. members u key x ≡ members u key s) a.fate (script a k s) refl
                    (members-sliding_window_ne k u a.server_now a.now a.req_id s
                      (λ e. ground (arith, eq_iff k key))))
                v)
        ]

    -- What is left to admit, and what is admitted, together.
    admissions-le :
        (cs : List (Call r)) (s : Store) (t n : ℕ) (used log : List ℕ)
        → Steady r t n cs
        → Fresh r used cs
        → Inv r window_secs limit key t n used log s
        → (x : ℕ)
        → tally window_secs x log + tally window_secs x (admissions r window_secs limit key cs s)
          ≤ limit
    admissions-le [] s t n used log steady fresh v x = omega (arith, v.few x)
    admissions-le ((k, a) ∷ cs) s t n used log (ht, hn, htn, steady) (new, fresh) v x =
        move (str_eq k key && granted (check_rate_limit r k window_secs limit a s).0) x a.now log _
          (admissions-le cs (check_rate_limit r k window_secs limit a s).1 a.server_now a.now
            (a.req_id ∷ used) _ steady fresh (check-Inv k a ht hn htn new v) x)

  -- However many checks are made, on this key and on others, and whichever calls are lost: where the
  -- set of the key was empty at first, identifiers are not used twice, and from each check to the next in
  -- the order in which the server runs them neither the clock reading that the check brings nor the
  -- server's clock goes back, and the server's does not advance by more than the readings do, at most
  -- `limit` checks on the key are allowed in any window of the given length.
  pub window_limit :
      (key : String) (cs : List (Call r)) (s : Store) (t n : ℕ)
      → ((u : ℕ) → members u key s ≡ [])
      → Steady r t n cs
      → Fresh r [] cs
      → (x : ℕ)
      → length (keep (within window_secs x) (admissions r window_secs limit key cs s)) ≤ limit
  window_limit key cs s t n empty steady fresh x =
      let v : Inv r window_secs limit key t n [] [] s = record {
        held = λ u m hu hm hum. omega arith;
        named = λ u i hu h. rw (empty u) tt;
        past = tt;
        few = λ x. omega arith;
      } in
      omega (arith, admissions-le key cs s t n [] [] steady fresh v x)
