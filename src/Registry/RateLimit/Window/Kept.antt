-- ===== src/Registry/RateLimit/Window/Kept.antt =====
-- What the sorted set holds after checks on it: every admission that a window to come still counts.
use agent_auth.Prelude.{
  ℕ, ◌+◌, ◌-◌, ◌≤◌, ◌<◌, String, ◌≡◌, refl, sym, ◌∙◌, ◌≢◌, inl, inr, Bool, true, List, [], ◌∷◌,
  arith, ltb, leb, if◌then◌else◌, ltb→lt, leb→le, Bool-cases, length, keep, All, length-keep-le,
  All-keep,
}
use agent_auth.Registry.RateLimit.{Member, SortedSets, forget, admit, sliding_window}
use agent_auth.Registry.RateLimit.Window.{window as width, recent as recent_of, tally as tally_of}

module _ {A : Type 0} (p q : A → Bool) (h : (x : A) → p x ≡ true → q x ≡ true) where
  length-keep_mono : (xs : List A) → length (keep p xs) ≤ length (keep q xs)
  length-keep_mono [] = omega arith
  length-keep_mono (x ∷ xs) = ground (arith, h x, length-keep_mono xs)

  length-keep-keep : (xs : List A) → length (keep p (keep q xs)) ≡ length (keep p xs)
  length-keep-keep [] = refl
  length-keep-keep (x ∷ xs) = ground (arith, h x, length-keep-keep xs)

keep_all : {A : Type 0} (p : A → Bool) → ((x : A) → p x ≡ true) → (xs : List A) → keep p xs ≡ xs
keep_all p h [] = refl
keep_all p h (x ∷ xs) = rw (h x, keep_all p h xs)

keep_ext :
    {A : Type 0} (p q : A → Bool) → ((x : A) → p x ≡ q x) → (xs : List A) → keep p xs ≡ keep q xs
keep_ext p q h [] = refl
keep_ext p q h (x ∷ xs) = rw (h x, keep_ext p q h xs)

module _ (r : SortedSets) (window_secs limit : ℕ) where
  open r use {
    Store, members, members-zremrangebyscore, zcard_lem, members-zadd, All-zadd, members-pexpire,
    members-pexpire_over,
  }

  abbrev window : ℕ
  window = width window_secs

  abbrev recent : ℕ → Member → Bool
  recent = recent_of window_secs

  abbrev tally : ℕ → List ℕ → ℕ
  tally = tally_of window_secs

  module _ (key : String) where
    -- After a check at the two instants: the set has the admissions that are still in a window to come.
    pub record Inv (t n : ℕ) (used log : List ℕ) (s : Store) : Type 0 where
      pub held :
          (u m : ℕ)
          → t ≤ u
          → n ≤ m
          → u + n ≤ t + m
          → tally m log ≤ length (keep (recent m) (members u key s))
      pub named :
          (u i : ℕ)
          → t ≤ u
          → All (λ j. j ≢ i) used
          → All (λ (x : Member). x.req_id ≢ i) (members u key s)
      pub past : All (λ now. now ≤ n) log
      pub few : (x : ℕ) → tally x log ≤ limit

    All-weaken :
        (n n' : ℕ) (log : List ℕ) → n ≤ n' → All (λ now. now ≤ n) log → All (λ now. now ≤ n') log
    All-weaken n n' [] le h = tt
    All-weaken n n' (x ∷ log) le h = (omega arith, All-weaken n n' log le h.1)

    members-forget :
        (u t n : ℕ) (s : Store)
        → members u key (forget r t key window n s) ≡ keep (recent n) (members u key s)
    unfolding forget
    members-forget u t n s = elim (Bool-cases (ltb n window)) [
      | inl early ↦ rw early (sym (keep_all (recent n) (λ x. ground arith) (members u key s)))
      | inr late ↦ rw late (
          members-zremrangebyscore u t key (n - window) s
          ∙ keep_ext _ (recent n) (λ x. ground arith) (members u key s))
    ]

    -- Time passes, and the set of the key is as it was.
    pub Inv-later :
        {t n t' n' : ℕ} (used : List ℕ) (i : ℕ) {log : List ℕ} {s s' : Store}
        → t ≤ t'
        → n ≤ n'
        → t' + n ≤ t + n'
        → ((u : ℕ) → members u key s' ≡ members u key s)
        → Inv t n used log s
        → Inv t' n' (i ∷ used) log s'
    Inv-later {t} {n} {t'} {n'} used i {log} ht hn h same v = record {
      held = λ u m hu hm hum. rw (same u) (v.held u m (omega arith) (omega arith) (omega arith));
      named = λ u j hu fresh. rw (same u) (v.named u j (omega arith) fresh.1);
      past = All-weaken n n' log hn v.past;
      few = v.few;
    }

    Inv-forget :
        {t n t' n' : ℕ} {used log : List ℕ} {s : Store}
        → t ≤ t'
        → n ≤ n'
        → t' + n ≤ t + n'
        → Inv t n used log s
        → Inv t' n' used log (forget r t' key window n' s)
    Inv-forget {t} {n} {t'} {n'} {used} {log} {s} ht hn h v = record {
      held = λ u m hu hm hum. rw (members-forget u t' n' s) (
          rw (length-keep-keep (recent m) (recent n') (λ x e. ground arith) (members u key s))
            (v.held u m (omega arith) (omega arith) (omega arith)));
      named = λ u i hu fresh.
          rw (members-forget u t' n' s)
            (All-keep _ (recent n') (members u key s) (v.named u i (omega arith) fresh));
      past = All-weaken n n' log hn v.past;
      few = v.few;
    }

    tally_later :
        (x n : ℕ) (log : List ℕ) → n ≤ x → All (λ now. now ≤ n) log → tally x log ≤ tally n log
    tally_later x n [] le h = omega arith
    tally_later x n (now ∷ log) le h = ground (arith, tally_later x n log le h.1)

    tally_over :
        (m n : ℕ) (log : List ℕ) → n + window ≤ m → All (λ now. now ≤ n) log → tally m log ≡ 0
    tally_over m n [] le h = refl
    tally_over m n (now ∷ log) le h = ground (arith, tally_over m n log le h.1)

    -- An entry is added where there were fewer than the limit.
    Inv-admit :
        {t n : ℕ} {used log : List ℕ} {s : Store} (i : ℕ)
        → All (λ j. j ≢ i) used
        → length (members t key s) < limit
        → Inv t n used log s
        → Inv t n (i ∷ used) (n ∷ log) (admit r t key window n i s)
    unfolding admit
    Inv-admit {t} {n} {used} {log} {s} i fresh room v = record {
      held = λ u m hu hm hum. elim (Bool-cases (ltb u (t + window))) [
        | inl there ↦ rw (members-pexpire u t key window with_new hu (ltb→lt _ _ there)) (
            rw (members-zadd t key new s (v.named t i (omega arith) fresh) (recent m))
              (ground (arith, v.held t m (omega arith) hm (omega arith))))
        | inr gone ↦
            omega (arith, tally_over m n (n ∷ log) (ground (arith, hum)) (omega arith, v.past))
      ];
      named = λ u j hu other. elim (Bool-cases (ltb u (t + window))) [
        | inl there ↦
            rw (members-pexpire u t key window with_new hu (ltb→lt _ _ there)) (
              All-zadd t key new s (λ x. x.req_id ≢ j) (other.0, v.named t j (omega arith) other.1))
        | inr gone ↦ rw (members-pexpire_over u t key window with_new (ground arith)) tt
      ];
      past = (omega arith, v.past);
      few = λ x. elim (Bool-cases (leb n x)) [
        | inl after ↦ ground (
          arith,
          tally_later x n log (leb→le _ _ after) v.past,
          v.held t n (omega arith) (omega arith) (omega arith),
          length-keep-le (recent n) (members t key s),
        )
        | inr before ↦ rw before (v.few x)
      ];
    }
      where
        new : Member
        new = record { req_id = i; score = n }

        with_new : Store
        with_new = r.zadd t key new s

    -- The caller of a check that took effect was not told.
    pub Inv-untold :
        {t n x : ℕ} {used log : List ℕ} {s : Store} → Inv t n used (x ∷ log) s → Inv t n used log s
    Inv-untold {x} {log} v = record {
      held = λ u m hu hm hum. ground (arith, v.held u m hu hm hum);
      named = v.named;
      past = v.past.1;
      few = λ y. ground (arith, v.few y);
    }

    pub script-Inv :
        {t n t' n' : ℕ} {used log : List ℕ} {s : Store} (i : ℕ)
        → t ≤ t'
        → n ≤ n'
        → t' + n ≤ t + n'
        → All (λ j. j ≢ i) used
        → Inv t n used log s
        → Inv t' n'
            (i ∷ used)
            (if (sliding_window r t' key window limit n' i s).0.0 then n' ∷ log else log)
            (sliding_window r t' key window limit n' i s).1
    unfolding sliding_window
    script-Inv {t' = t'} {n' = n'} {used} {s} i ht hn htn new v =
        let v' = Inv-forget {t' = t'} {n' = n'} ht hn htn v in
        elim (Bool-cases (ltb (r.zcard t' key (forget r t' key window n' s)) limit)) [
          | inl room ↦ rw room (Inv-admit i new (rw (← zcard_lem t' key _) (ltb→lt _ _ room)) v')
          | inr full ↦
              rw full (Inv-later used i (omega arith) (omega arith) (omega arith) (λ u. refl) v')
        ]
