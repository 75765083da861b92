-- ===== src/Archiver/Lock/Exclusion.antt =====
-- services/audit-archiver/src/leader.rs: when the lock keeps archivers apart.
use agent_auth.Prelude.{
  ℕ, ◌≡◌, refl, sym, ap, subst, ◌∙◌, ◌≢◌, inl, inr, Bool, true, false, ◌&&◌, none, some, List, [],
  ◌∷◌, arith, ◌==◌, ==_iff, ==_refl, Bool-cases, ok,
}
use agent_auth.Registry.Db.{Fault, answers, lost_before, lost_after}
use agent_auth.Archiver.Lock.{
  Holder, end_session, AdvisoryLock, try_acquire, release, Phase, waiting, working, exiting,
  Cluster, Event, after_acquire, ask, close, proceed, step, run, start,
}

abbrev is_working : Phase → Bool
is_working (working lock) = true
is_working waiting = false
is_working exiting = false

abbrev holds : ℕ → Holder → Bool
holds s none = false
holds s (some (t, n)) = s == t

module _ (owner : ℕ → ℕ) where
  -- No session that has the lock ends while its archiver is at work.
  abbrev pub Pinned : List Event → Cluster → Type 0
  Pinned [] c = Unit {0}
  Pinned (ask s f ∷ es) c = Pinned es (step owner (ask s f) c)
  Pinned (close s ∷ es) c =
      ((holds s c.holder && is_working (c.phases (owner s))) ≡ false)
      × Pinned es (step owner (close s) c)

  -- Whether the lock is with an archiver.
  abbrev with_archiver : ℕ → Holder → Bool
  with_archiver p none = false
  with_archiver p (some (t, n)) = owner t == p

  -- An archiver at work has the lock.
  abbrev Inv : Cluster → Type 0
  Inv c = (p : ℕ) → is_working (c.phases p) ≡ true → with_archiver p c.holder ≡ true

  acquire_held :
      (s : ℕ) (f : Fault) (h : Holder)
      → is_working (after_acquire (try_acquire s f h).0) ≡ true
      → with_archiver (owner s) (try_acquire s f h).1 ≡ true
  unfolding try_acquire
  acquire_held s answers none w = ==_refl (owner s)
  acquire_held s answers (some (t, n)) w = ground arith
  acquire_held s lost_before h w = cc
  acquire_held s lost_after h w = cc

  acquire_kept :
      (p s : ℕ) (f : Fault) (h : Holder)
      → with_archiver p h ≡ true
      → with_archiver p (try_acquire s f h).1 ≡ true
  unfolding try_acquire
  acquire_kept p s f none w = cc
  acquire_kept p s answers (some (t, n)) w = ground arith
  acquire_kept p s lost_before (some (t, n)) w = w
  acquire_kept p s lost_after (some (t, n)) w = ground arith

  one_archiver :
      (p q : ℕ) (h : Holder) → with_archiver p h ≡ true → with_archiver q h ≡ true → p ≡ q
  one_archiver p q none hp hq = cc
  one_archiver p q (some (t, n)) hp hq = ground arith

  close_kept :
      (p s : ℕ) (b : Bool) (h : Holder)
      → (holds s h && b) ≡ false
      → with_archiver p h ≡ true
      → (p ≡ owner s → b ≡ true)
      → with_archiver p (end_session s h) ≡ true
  unfolding end_session
  close_kept p s b none pinned w at_work = cc
  close_kept p s b (some (t, n)) pinned w at_work = elim (Bool-cases (s == t)) [
    | inl same ↦
        let e : s ≡ t = (==_iff s t).0 same in
        let at_owner : p ≡ owner s = sym ((==_iff (owner t) p).0 w) ∙ ap owner (sym e) in
        cc (sym (rw (same, at_work at_owner) at pinned))
    | inr other ↦ rw other w
  ]

  proceed-Inv :
      (x : Phase) (s : ℕ) (f : Fault) (c : Cluster)
      → c.phases (owner s) ≡ x
      → Inv c
      → Inv (proceed owner x s f c)
  unfolding proceed
  proceed-Inv waiting s f c e inv p w = elim (Bool-cases (p == owner s)) [
    | inl same ↦
        subst (λ q. with_archiver q (try_acquire s f c.holder).1 ≡ true)
          (sym ((==_iff p (owner s)).0 same)) (acquire_held s f c.holder (rw same at w))
    | inr other ↦ acquire_kept p s f c.holder (inv p (rw other at w))
  ]
  proceed-Inv (working lock) s f c e inv p w = elim (Bool-cases (p == owner s)) [
    | inl same ↦ cc (rw same at w)
    | inr other ↦
        let held : with_archiver (owner s) c.holder ≡ true = inv (owner s) (rw e refl) in
        let q : p ≡ owner s = one_archiver p (owner s) c.holder (inv p (rw other at w)) held in
        cc (sym other ∙ (==_iff p (owner s)).1 q)
  ]
  proceed-Inv exiting s f c e inv p w = inv p w

  run-Inv : (es : List Event) (c : Cluster) → Pinned es c → Inv c → Inv (run owner es c)
  unfolding run step
  run-Inv [] c pinned inv = inv
  run-Inv (ask s f ∷ es) c pinned inv =
      run-Inv es _ pinned (proceed-Inv (c.phases (owner s)) s f c refl inv)
  run-Inv (close s ∷ es) c pinned inv = run-Inv es _ pinned.1 (λ p w.
      close_kept p s (is_working (c.phases (owner s))) c.holder pinned.0 (inv p w)
        (λ e. subst (λ q. is_working (c.phases q) ≡ true) e w))

  -- However many archivers ask for the lock and release it, in any order and on whichever of their
  -- sessions, and whatever queries fail: as long as no session that has the lock ends while its archiver
  -- is at work, no two archivers are at work at one time.
  pub archivers_exclusive :
      (es : List Event) (p q : ℕ) (x y : AdvisoryLock)
      → Pinned es start
      → (run owner es start).phases p ≡ working x
      → (run owner es start).phases q ≡ working y
      → p ≡ q
  archivers_exclusive es p q x y pinned at_p at_q =
      let inv = run-Inv es start pinned (λ r w. cc) in
      one_archiver p q (run owner es start).holder (inv p (rw at_p refl)) (inv q (rw at_q refl))

  -- A release that goes through another session than the one that took the lock reports success, and the
  -- lock stays where it was.
  pub release_elsewhere :
      (s t n : ℕ) (lock : AdvisoryLock)
      → s ≢ t
      → release lock s answers (some (t, n)) ≡ (ok tt, some (t, n))
  unfolding release
  release_elsewhere s t n lock ne = ground arith
