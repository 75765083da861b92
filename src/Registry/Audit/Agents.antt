-- ===== src/Registry/Audit/Agents.antt =====
-- The chain runs over all agents, and its verification over the rows of one.
use agent_auth.Prelude.{
  ℕ, String, ◌≡◌, refl, ap, ◌∙◌, ◌⊎◌, inl, inr, true, false, Option, none, some, [], ◌∷◌, ◌++◌,
  arith, ◌==◌, ==_refl, Bool-cases, keep, Result, ok, err, is_ok,
}
use agent_auth.Registry.Error.{RegistryError}
use agent_auth.Registry.Db.{Fault, answers, lost_before, lost_after}
use agent_auth.Registry.Audit.{
  Bytes, Sha, AuditEvent, AuditEventType, AuditRow, AuditService, genesis, new, hash_chain_event,
  build_hash_content, row_for, insert_and_advance, sign_and_insert, with_type, record_event,
  verify_events, is_agent,
}
use agent_auth.Registry.Audit.Chain.{verify_rows_iff}

module _ (h : Sha) where
  -- The service after the insertion of the row of an event.
  abbrev pub extended : ℕ → AuditEventType → AuditEvent → Bytes → AuditService → AuditService
  extended id t e signature s =
      let row = row_for h id t e s.previous_hash signature in
      record { rows = s.rows ++ (row ∷ []); previous_hash = row.row_hash }

  with_type_ok :
      (id : ℕ) (e : AuditEvent) (o : Option AuditEventType) (sign : Bytes → Result String Bytes)
      (fate : Fault) (s : AuditService)
      → is_ok (with_type h id e o sign fate s).0 ≡ true
      → (t : AuditEventType) × (signature : Bytes) × ((with_type h id e o sign fate s).1
          ≡ extended id t e signature s)
  unfolding with_type sign_and_insert insert_and_advance
  with_type_ok id e none sign fate s k = ground arith
  with_type_ok id e (some t) sign fate s k =
      signed (sign (hash_chain_event h s.previous_hash (build_hash_content h id e))) fate k
    where
      signed :
          (r : Result String Bytes) (f : Fault)
          → is_ok (sign_and_insert h id e t r f s).0 ≡ true
          → (u : AuditEventType) × (signature : Bytes) × ((sign_and_insert h id e t r f s).1
              ≡ extended id u e signature s)
      signed (err m) f k = ground arith
      signed (ok signature) answers k = (t, signature, refl)
      signed (ok signature) lost_before k = ground arith
      signed (ok signature) lost_after k = ground arith

  record_ok :
      (id : ℕ) (e : AuditEvent) (sign : Bytes → Result String Bytes) (fate : Fault)
      (s : AuditService)
      → is_ok (record_event h id e sign fate s).0 ≡ true
      → (t : AuditEventType) × (signature : Bytes) × ((record_event h id e sign fate s).1
          ≡ extended id t e signature s)
  unfolding record_event
  record_ok id e sign fate s = with_type_ok id e e.event_type sign fate s

  two_rows :
      (a b : ℕ) (r s : AuditRow)
      → (a == b) ≡ false
      → r.agent_id ≡ some a
      → s.agent_id ≡ some b
      → keep (is_agent h b) (r ∷ s ∷ []) ≡ s ∷ []
  two_rows a b r s n x y = rw (x, y, n, ==_refl b) refl

  -- The outcome of one recording on an empty table, and of a second one after it.
  abbrev pub one :
      ℕ → AuditEvent → (Bytes → Result String Bytes) → Fault → Result RegistryError ℕ × AuditService
  one id e sign fate = record_event h id e sign fate (new [])

  -- Where the first event of an empty table is recorded for one agent and the second for another,
  -- the verification of the second agent reports a broken chain, unless some input has the digest
  -- of 32 zeros.
  pub second_agent_fails :
      (a b : ℕ) (id id' : ℕ) (e e' : AuditEvent) (sign sign' : Bytes → Result String Bytes)
      (fate fate' : Fault)
      → (a == b) ≡ false
      → e.agent_id ≡ some a
      → e'.agent_id ≡ some b
      → is_ok (one id e sign fate).0 ≡ true
      → is_ok (record_event h id' e' sign' fate' (one id e sign fate).1).0 ≡ true
      → ((verify_events h (
            keep
              (is_agent h b)
              (record_event h id' e' sign' fate' (one id e sign fate).1).1.rows)).valid
          ≡ false)
        ⊎ ((x : Bytes) × (h.sha256 x ≡ genesis))
  unfolding verify_events new hash_chain_event
  second_agent_fails a b id id' e e' sign sign' fate fate' n x y k k' =
      let s = (record_event h id e sign fate (new [])).1 in
      let (t, signature, first) = record_ok id e sign fate (new []) k in
      let (t', signature', second) = record_ok id' e' sign' fate' s k' in
      let row = row_for h id t e genesis signature in
      let row' = row_for h id' t' e' row.row_hash signature' in
      let rows : (record_event h id' e' sign' fate' s).1.rows ≡ row ∷ row' ∷ [] =
        ap (λ (q : AuditService). q.rows) (second ∙ ap (extended id' t' e' signature') first) in
      let kept : keep (is_agent h b) (record_event h id' e' sign' fate' s).1.rows ≡ row' ∷ [] =
        ap (keep (is_agent h b)) rows ∙ two_rows a b row row' n x y in
      elim (Bool-cases (verify_events h (row' ∷ [])).valid) [
        | inr f ↦ inl (ap (λ q. (verify_events h q).valid) kept ∙ f)
        | inl v ↦ inr (_, ((verify_rows_iff h _ _ genesis 0 (row' ∷ [])).0 v).0)
      ]
