-- ===== src/Sdk/TokenCache.antt =====
-- crates/sdk/src/cache.rs: the client's cache of tokens by service provider. A `HashMap` is a list of
-- entries with no two for one provider; each operation takes the reading of its clock.
use agent_auth.Prelude.{
  ℕ, ◌+◌, ◌-◌, ◌≤◌, ◌<◌, String, ◌≡◌, refl, subst, ◌↔◌, inl, inr, Bool, true, false, not, Option,
  none, some, List, [], ◌∷◌, arith, leb, ◌==◌, if◌then◌else◌, ==_iff, Bool-cases, Option-cases,
  length, any, keep, find,
}

pub record CachedToken : Type 0 where
  pub token : String
  pub jti : String
  pub expires_at : ℕ
  pub cached_at : ℕ
  pub service_provider_id : ℕ

unfoldable pub is_expired : CachedToken → ℕ → Bool
is_expired c now = leb c.expires_at now

-- `expires_at` is taken to be at least the window after the origin of time.
unfoldable pub should_refresh : CachedToken → ℕ → ℕ → Bool
should_refresh c refresh_window now = leb (c.expires_at - refresh_window) now

-- Zero for a token that is past its expiry.
unfoldable pub time_to_expiry : CachedToken → ℕ → ℕ
time_to_expiry c now = c.expires_at - now

pub record TokenCache : Type 0 where
  pub tokens : List CachedToken
  pub refresh_window : ℕ

unfoldable pub new : ℕ → TokenCache
new refresh_window = record { tokens = []; refresh_window = refresh_window }

abbrev pub is_for : ℕ → CachedToken → Bool
is_for sp c = c.service_provider_id == sp

-- The entry of the map, whether it is expired or not.
abbrev pub lookup : ℕ → TokenCache → Option CachedToken
lookup sp c = find (is_for sp) c.tokens

abbrev pub live : ℕ → Option CachedToken → Option CachedToken
live now none = none
live now (some entry) = if leb entry.expires_at now then none else some entry

unfoldable pub get : ℕ → ℕ → TokenCache → Option CachedToken
get sp now c = live now (lookup sp c)

abbrev pub without : ℕ → List CachedToken → List CachedToken
without sp = keep (λ c. not (is_for sp c))

-- `insert` of a map: an entry that is there is replaced.
unfoldable pub put : CachedToken → TokenCache → TokenCache
put entry c = record c { tokens = entry ∷ without entry.service_provider_id c.tokens }

unfoldable pub remove : ℕ → TokenCache → TokenCache
remove sp c = record c { tokens = without sp c.tokens }

abbrev refresh_of : ℕ → ℕ → Option CachedToken → Option Bool
refresh_of window now none = none
refresh_of window now (some entry) =
    if leb entry.expires_at now then none else some (leb (entry.expires_at - window) now)

unfoldable pub needs_refresh : ℕ → ℕ → TokenCache → Option Bool
needs_refresh sp now c = refresh_of c.refresh_window now (lookup sp c)

unfoldable pub clear : TokenCache → TokenCache
clear c = record c { tokens = [] }

-- The number of entries removed, and the cache without them.
unfoldable pub cleanup_expired : ℕ → TokenCache → ℕ × TokenCache
cleanup_expired now c =
    let kept = keep (λ e. not (leb e.expires_at now)) c.tokens in
    (length c.tokens - length kept, record c { tokens = kept })

-- No two entries are for one provider.
abbrev pub Unique : List CachedToken → Type 0
Unique [] = Unit
Unique (c ∷ cs) = (any (is_for c.service_provider_id) cs ≡ false) × Unique cs

find-without :
    (sp k : ℕ) (cs : List CachedToken)
    → find (is_for sp) (without k cs) ≡ (if sp == k then none else find (is_for sp) cs)
find-without sp k [] = ground arith
find-without sp k (c ∷ cs) = ground (arith, find-without sp k cs)

-- After a token was put, its provider gets it until it expires, and any other provider gets what it
-- got before; after a removal the provider gets none, and any other gets what it got before.
pub put-remove-get :
    (entry : CachedToken) (sp now : ℕ) (c : TokenCache)
    → (get sp now (put entry c)
        ≡ (if entry.service_provider_id == sp then live now (some entry) else get sp now c))
      × (get sp now (remove entry.service_provider_id c)
          ≡ (if sp == entry.service_provider_id then none else get sp now c))
unfolding get put remove
put-remove-get entry sp now c = ground (arith, find-without sp entry.service_provider_id c.tokens)

absent-keep :
    (sp : ℕ) (p : CachedToken → Bool) (cs : List CachedToken)
    → any (is_for sp) cs ≡ false
    → find (is_for sp) (keep p cs) ≡ none
absent-keep sp p [] h = refl
absent-keep sp p (c ∷ cs) h = ground (arith, absent-keep sp p cs)

find-keep :
    (sp at now : ℕ) (cs : List CachedToken)
    → Unique cs
    → at ≤ now
    → live now (find (is_for sp) (keep (λ e. not (leb e.expires_at at)) cs))
      ≡ live now (find (is_for sp) cs)
find-keep sp at now [] u le = refl
find-keep sp at now (c ∷ cs) u le = elim (Bool-cases (c.service_provider_id == sp)) [
  | inr n ↦ ground (arith, find-keep sp at now cs u.1 le)
  | inl y ↦
      let e = (==_iff c.service_provider_id sp).0 y in
      let none_left =
        absent-keep sp (λ e. not (leb e.expires_at at)) cs
          (subst (λ k. any (is_for k) cs ≡ false) e u.0) in
      ground (arith, none_left)
]

found-is_for :
    (sp : ℕ) (cs : List CachedToken) (entry : CachedToken)
    → find (is_for sp) cs ≡ some entry
    → entry.service_provider_id ≡ sp
found-is_for sp [] entry e = cc
found-is_for sp (c ∷ cs) entry e = ground (arith, found-is_for sp cs entry)

any-keep :
    (sp : ℕ) (p : CachedToken → Bool) (cs : List CachedToken)
    → any (is_for sp) cs ≡ false
    → any (is_for sp) (keep p cs) ≡ false
any-keep sp p [] h = refl
any-keep sp p (c ∷ cs) h = ground (arith, any-keep sp p cs)

any-without : (sp : ℕ) (cs : List CachedToken) → any (is_for sp) (without sp cs) ≡ false
any-without sp [] = refl
any-without sp (c ∷ cs) = ground (arith, any-without sp cs)

Unique-keep : (p : CachedToken → Bool) (cs : List CachedToken) → Unique cs → Unique (keep p cs)
Unique-keep p [] u = tt
Unique-keep p (c ∷ cs) u = elim (p c) as (λ b. Unique (if b then c ∷ keep p cs else keep p cs)) [
  | true ↦ (any-keep c.service_provider_id p cs u.0, Unique-keep p cs u.1)
  | false ↦ Unique-keep p cs u.1
]

-- The operations that change the cache.
pub data Call : Type 0 where
  puts : CachedToken → Call
  removes cleans : ℕ → Call
  clears : Call

unfoldable pub step : TokenCache → Call → TokenCache
step c (puts entry) = put entry c
step c (removes sp) = remove sp c
step c (cleans now) = (cleanup_expired now c).1
step c clears = clear c

unfoldable pub run : TokenCache → List Call → TokenCache
run c [] = c
run c (x ∷ xs) = run (step c x) xs

step-Unique : (c : TokenCache) (x : Call) → Unique c.tokens → Unique (step c x).tokens
unfolding step put remove cleanup_expired clear
step-Unique c (puts entry) u =
    (any-without entry.service_provider_id c.tokens, Unique-keep _ c.tokens u)
step-Unique c (removes sp) u = Unique-keep _ c.tokens u
step-Unique c (cleans now) u = Unique-keep _ c.tokens u
step-Unique c clears u = tt

-- After any operations, no two entries are for one provider, if none were before.
run-Unique : (c : TokenCache) (xs : List Call) → Unique c.tokens → Unique (run c xs).tokens
unfolding run
run-Unique c [] u = u
run-Unique c (x ∷ xs) u = run-Unique (step c x) xs (step-Unique c x u)

-- In a cache that operations made from an empty one, removing what is expired at an instant changes
-- no answer then or later.
pub cleanup_get :
    (sp at now window : ℕ) (xs : List Call)
    → at ≤ now
    → get sp now (cleanup_expired at (run (new window) xs)).1 ≡ get sp now (run (new window) xs)
unfolding get cleanup_expired
cleanup_get sp at now window xs le =
    find-keep sp at now (run (new window) xs).tokens (run-Unique (new window) xs (unfold new in tt))
      le

-- A token that is returned is for the provider that is asked for and not expired, and the cache asks
-- for a refresh exactly of a token that it returns, whose last part, the window, has begun.
pub get_sound :
    (sp now : ℕ) (c : TokenCache) (entry : CachedToken)
    → get sp now c ≡ some entry
    → (entry.service_provider_id ≡ sp)
      × (now < entry.expires_at)
      × ((needs_refresh sp now c ≡ some true) ↔ (entry.expires_at ≤ now + c.refresh_window))
unfolding get needs_refresh
get_sound sp now c entry h = elim (Option-cases (lookup sp c)) [
  | inl e ↦ ground arith
  | inr (x, e) ↦ ground (arith, found-is_for sp c.tokens x e)
]
