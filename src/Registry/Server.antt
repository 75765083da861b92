-- ===== src/Registry/Server.antt =====
-- A concrete server that meets the interface of Registry/Cache, for the runs at concrete inputs.
use agent_auth.Prelude.{
  ℕ, ◌+◌, String, refl, Bool, true, false, not, Option, none, some, arith, eq_iff, eq_refl, ltb,
  ◌==◌, str_eq, if◌then◌else◌, ok, from_secs,
}
use agent_auth.Registry.Cache.{Redis, CachedToken}

-- How long a key stays.
pub data Life : Type 0 where
  absent forever : Life
  until : ℕ → Life

abbrev pub alive : ℕ → Life → Bool
alive t absent = false
alive t forever = true
alive t (until d) = ltb t d

abbrev pub shorten : (now ttl : ℕ) → Life → Life
shorten now ttl absent = absent
shorten now ttl forever = until (now + from_secs ttl)
shorten now ttl (until d) = if ltb now d then until (now + from_secs ttl) else until d

pub record Keys : Type 0 where
  pub tokens : ℕ → ℕ → Option CachedToken
  pub nonces : String → Life
  pub texts : ℕ → String → Option String

abbrev pub mark : Option CachedToken → Option CachedToken
mark none = none
mark (some c) = some (record c { is_revoked = true })

abbrev pub empty : Keys
empty = record { tokens = λ t jti. none; nonces = λ n. absent; texts = λ t k. none }

abbrev pub with_token : ℕ → ℕ → CachedToken → ℕ → Keys → Keys
with_token now jti c ttl s = record s {
  tokens = λ t k.
      if k == jti then (if ltb t (now + from_secs ttl) then some c else none) else s.tokens t k;
}

abbrev pub claim : ℕ → String → Keys → Keys
claim now n s =
    if alive now (s.nonces n)
    then s
    else record s { nonces = λ m. if str_eq m n then forever else s.nonces m }

abbrev pub server : Redis
server = record {
  Store = Keys;
  put_token = with_token;
  hmget = λ now jti s. ok (s.tokens now jti);
  hset_revoked = λ now jti s. record s {
    tokens = λ t k. if k == jti then mark (s.tokens t k) else s.tokens t k;
  };
  set_nx = λ now n s. (not (alive now (s.nonces n)), claim now n s);
  expire = λ now n ttl s. record s {
    nonces = λ m. if str_eq m n then shorten now ttl (s.nonces m) else s.nonces m;
  };
  set_ex = λ now key value ttl s. record s {
    texts = λ t k.
        if str_eq k key
        then (if ltb t (now + from_secs ttl) then some value else none)
        else s.texts t k;
  };
  get = λ now key s. s.texts now key;
  getdel = λ now key s.
      (s.texts now key, record s { texts = λ t k. if str_eq k key then none else s.texts t k });
  seen = λ t n s. alive t (s.nonces n);
  hmget-put_token = λ t now jti c ttl s lt. ground arith;
  hmget-put_token_ne = λ t now jti k c ttl s ne. ground arith;
  hmget-hset_revoked = λ t now jti c s e. ground arith;
  hmget-set_nx = λ t now jti n s. ground arith;
  hmget-expire = λ t now jti ttl n s. refl;
  set_nx_fresh = λ now n s. refl;
  seen-set_nx = λ t now n s e. ground (arith, eq_refl n);
  seen-set_nx_again = λ t now n s e. rw e refl;
  seen-expire = λ t now ttl n s e lt. ground (arith, eq_refl n);
  seen-earlier = λ u t n s le e. ground arith;
  seen-set_nx_ne = λ t now n m s ne. ground (arith, eq_iff n m);
  seen-expire_ne = λ t now ttl n m s ne. ground (arith, eq_iff n m);
  seen-put_token = λ t now jti c ttl n s. refl;
  get-set_ex = λ t now k v ttl s lt. ground (arith, eq_refl k);
  getdel_get = λ now k s. refl;
  get-getdel = λ t now k s. ground (arith, eq_refl k);
  get-set_ex_ne = λ t now k m v ttl s ne. ground (arith, eq_iff k m);
  get-getdel_ne = λ t now k m s ne. ground (arith, eq_iff k m);
  get-put_token = λ t now jti c ttl k s. refl;
  get-hset_revoked = λ t now jti k s. refl;
  get-set_nx = λ t now n k s. ground arith;
  get-expire = λ t now ttl n k s. refl;
}
