-- ===== src/Registry/Tokens/Revocation.antt =====
-- Revocation: what `revoke_token` does to the database and to the cache.
use agent_auth.Prelude.{
  ℕ, String, ◌≡◌, refl, sym, ap, ◌∙◌, inl, inr, true, false, Option, some, List, [], ◌∷◌, arith,
  ◌==◌, Bool-cases, Option-cases, any, find, ok, is_ok,
}
use agent_auth.Registry.Tables
use agent_auth.Registry.Tables.{Tables, TokenRow, update_rows, is_live, is_token_revoked, get_token}
use agent_auth.Registry.Db.{next, answers, lost_before, Fault-cases}
use agent_auth.Registry.Cache.{Redis, Connection, CachedToken, mark_token_revoked}
use agent_auth.Registry.World.{World, on_cache}
use agent_auth.Registry.Tokens.{revoke_token}

-- The row that is found under an identifier is revoked after the update.
revoked_row :
    (f : TokenRow → TokenRow) (jti : ℕ) (rows : List TokenRow)
    → ((row : TokenRow) → ((f row).jti ≡ row.jti) × ((f row).is_revoked ≡ true))
    → (row : TokenRow) → find (λ x. x.jti == jti) (update_rows (is_live jti) f rows) ≡ some row
    → row.is_revoked ≡ true
revoked_row f jti [] h row e = cc
revoked_row f jti (x ∷ xs) h row e = ground (arith, h x, revoked_row f jti xs h row)

-- The statement leaves no row of the token that is not revoked, and does not touch other rows.
revoke-is_token_revoked :
    (jti : ℕ) (reason : Option String) (now : ℕ) (t : Tables)
    → is_token_revoked jti (Tables.revoke_token jti reason now t).1 ≡ true
unfolding is_token_revoked Tables.revoke_token
revoke-is_token_revoked jti reason now t =
    elim (Option-cases (get_token jti (Tables.revoke_token jti reason now t).1)) [
      | inl e ↦ rw (e, is_token_revoked) refl
      | inr (row, e) ↦
          rw (e, is_token_revoked) (revoked_row _ jti t.tokens (λ x. (refl, refl)) row e)
    ]

-- After the statement no row of the token is live.
not_live :
    (f : TokenRow → TokenRow) (jti : ℕ) (rows : List TokenRow)
    → ((row : TokenRow) → ((f row).jti ≡ row.jti) × ((f row).is_revoked ≡ true))
    → any (is_live jti) (update_rows (is_live jti) f rows) ≡ false
not_live f jti [] h = refl
not_live f jti (x ∷ xs) h = ground (arith, h x, not_live f jti xs h)

module _ (r : Redis) where
  mark_kept :
      (jti now t : ℕ) (c : Connection r) (cached : CachedToken)
      → (mark_token_revoked r jti now c).0 ≡ ok tt
      → r.hmget t jti c.store ≡ ok (some cached)
      → r.hmget t jti (mark_token_revoked r jti now c).1.store
        ≡ ok (some (record cached { is_revoked = true }))
  unfolding mark_token_revoked
  mark_kept jti now t c cached h e = elim (Fault-cases (c.fault 0)) [
    | inl f ↦ rw f (r.hmget-hset_revoked t now jti cached c.store e)
    | inr f ↦ ground arith
  ]

  -- Where the statement hits a row, the rest is the mark.
  abbrev written_world : ℕ → Option String → ℕ → World r → World r
  written_world jti reason db_now w = record w {
    db = record (next w.db) { primary = (Tables.revoke_token jti reason db_now w.db.primary).1 };
  }

  revoke_hit :
      (jti : ℕ) (reason : Option String) (db_now now : ℕ) (w : World r)
      → w.db.fault 0 ≡ answers
      → any (is_live jti) w.db.primary.tokens ≡ true
      → revoke_token r jti reason db_now now w
        ≡ on_cache (mark_token_revoked r jti now) (written_world jti reason db_now w)
  unfolding revoke_token Tables.revoke_token
  revoke_hit jti reason db_now now w f y = rw (f, y) refl

  -- A revocation that succeeds found a live row of the token on the primary; after it the primary
  -- has no row of the token that is not revoked, and the cache, if it knew the token at an instant,
  -- has it as revoked at that instant.
  pub revoke_token_sound :
      (jti : ℕ) (reason : Option String) (db_now now : ℕ) (w : World r)
      → (revoke_token r jti reason db_now now w).0 ≡ ok tt
      → (any (is_live jti) w.db.primary.tokens ≡ true)
        × (is_token_revoked jti (revoke_token r jti reason db_now now w).1.db.primary ≡ true)
        × ((t : ℕ) (c : CachedToken)
            → r.hmget t jti w.cache.store ≡ ok (some c)
            → r.hmget t jti (revoke_token r jti reason db_now now w).1.cache.store
              ≡ ok (some (record c { is_revoked = true })))
  revoke_token_sound jti reason db_now now w h = elim (Fault-cases (w.db.fault 0)) [
    | inr f ↦ unfold revoke_token Tables.revoke_token in ground arith
    | inl f ↦ elim (Bool-cases (any (is_live jti) w.db.primary.tokens)) [
      | inr n ↦ unfold revoke_token Tables.revoke_token in ground arith
      | inl y ↦
          let e = revoke_hit jti reason db_now now w f y in
          (
            y,
            rw e (revoke-is_token_revoked jti reason db_now w.db.primary),
            λ t c x. rw e (mark_kept jti now t w.cache c (ap (λ q. q.0) (sym e) ∙ h) x),
          )
    ]
  ]

  -- Once no row of the token is live, a call fails, changes no table and leaves the cache as it is.
  revoke_unlive :
      (jti : ℕ) (reason : Option String) (db_now now : ℕ) (w : World r)
      → any (is_live jti) w.db.primary.tokens ≡ false
      → (is_ok (revoke_token r jti reason db_now now w).0 ≡ false)
        × ((revoke_token r jti reason db_now now w).1.cache ≡ w.cache)
  unfolding revoke_token Tables.revoke_token
  revoke_unlive jti reason db_now now w n = elim (Fault-cases (w.db.fault 0)) [
    | inr f ↦ ground arith
    | inl f ↦ ground (arith, Fault-cases (w.db.fault 1))
  ]

  -- If the calls revoke a row but the request for the mark is lost before it takes effect, the call
  -- fails, the primary has the token as revoked, and the next call for that token fails too and
  -- leaves what the cache holds as it was before the first.
  pub revoke_mark_lost :
      (jti : ℕ) (reason : Option String) (db_now now : ℕ) (w : World r) (reason' : Option String)
      (db_now' now' : ℕ)
      → w.db.fault 0 ≡ answers
      → any (is_live jti) w.db.primary.tokens ≡ true
      → w.cache.fault 0 ≡ lost_before
      → let w' = (revoke_token r jti reason db_now now w).1 in
        (is_ok (revoke_token r jti reason db_now now w).0 ≡ false)
        × (is_token_revoked jti w'.db.primary ≡ true)
        × (is_ok (revoke_token r jti reason' db_now' now' w').0 ≡ false)
        × ((revoke_token r jti reason' db_now' now' w').1.cache.store ≡ w.cache.store)
  revoke_mark_lost jti reason db_now now w reason' db_now' now' f y lost =
      let e = revoke_hit jti reason db_now now w f y in
      let again =
        revoke_unlive jti reason' db_now' now'
          (on_cache (mark_token_revoked r jti now) (written_world jti reason db_now w)).1
          (unfold Tables.revoke_token in not_live _ jti w.db.primary.tokens (λ x. (refl, refl))) in
      rw e (
        unfold mark_token_revoked in rw lost refl,
        revoke-is_token_revoked jti reason db_now w.db.primary,
        again.0,
        ap (λ (c : Connection r). c.store) again.1 ∙ (unfold mark_token_revoked in rw lost refl),
      )
