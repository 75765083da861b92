-- ===== src/Registry/Audit/Chain.antt =====
-- The chain of recorded events, and what its verification accepts.
use agent_auth.Prelude.{
  ℕ, ◌+◌, String, ◌≡◌, refl, sym, ap, ◌∙◌, ◌≢◌, ◌↔◌, true, Option, none, some, List, [], ◌∷◌, ◌++◌,
  arith, ==_refl, length, keep, All, Result, ok, err,
}
use agent_auth.Registry.Tables.{Tables, agent_exists}
use agent_auth.Registry.Db.{Fault, answers, lost_before, lost_after}
use agent_auth.Registry.Audit.{
  Bytes, Sha, AuditEvent, AuditEventType, AuditRow, AuditService, genesis, new, bytes_eq,
  hash_chain_event, hash_input, build_hash_content, row_input, build_verification_content, row_for,
  insert_and_advance, sign_and_insert, with_type, record_event, verify_rows, verify_events,
  verify_agent_audit_chain, is_agent, first_id, last_id,
}

pub bytes_eq_iff : (xs ys : Bytes) → (bytes_eq xs ys ≡ true) ↔ (xs ≡ ys)
bytes_eq_iff [] [] = ground arith
bytes_eq_iff [] (y ∷ ys) = ground arith
bytes_eq_iff (x ∷ xs) [] = ground arith
bytes_eq_iff (x ∷ xs) (y ∷ ys) = ground (arith, bytes_eq_iff xs ys)

module _ (h : Sha) where
  -- The rows are linked: each names the hash before it, and its own hash is over that and its
  -- content.
  abbrev pub Linked : Bytes → List AuditRow → Type 0
  Linked previous [] = Unit
  Linked previous (r ∷ rs) =
      (r.previous_event_hash ≡ previous)
      × (r.row_hash ≡ hash_chain_event h previous (build_verification_content h r))
      × Linked r.row_hash rs

  -- The hash of the last row.
  abbrev pub tip : Bytes → List AuditRow → Bytes
  tip previous [] = previous
  tip previous (r ∷ rs) = tip r.row_hash rs

  pub verify_rows_iff :
      (first last : Option ℕ) (previous : Bytes) (n : ℕ) (rs : List AuditRow)
      → ((verify_rows h first last previous n rs).valid ≡ true) ↔ Linked previous rs
  unfolding verify_rows
  verify_rows_iff first last previous n [] = ground arith
  verify_rows_iff first last previous n (r ∷ rs) = ground (
    arith,
    bytes_eq_iff r.previous_event_hash previous,
    bytes_eq_iff r.row_hash (hash_chain_event h previous (build_verification_content h r)),
    verify_rows_iff first last r.row_hash (n + 1) rs,
  )

  verify_rows_count :
      (first last : Option ℕ) (previous : Bytes) (n : ℕ) (rs : List AuditRow)
      → (verify_rows h first last previous n rs).valid ≡ true
      → (verify_rows h first last previous n rs).events_verified ≡ n + length rs
  unfolding verify_rows
  verify_rows_count first last previous n [] e = ground arith
  verify_rows_count first last previous n (r ∷ rs) e =
      ground (arith, verify_rows_count first last r.row_hash (n + 1) rs)

  Linked-append :
      (previous : Bytes) (rs : List AuditRow) (r : AuditRow)
      → Linked previous rs
      → r.previous_event_hash ≡ tip previous rs
      → r.row_hash ≡ hash_chain_event h (tip previous rs) (build_verification_content h r)
      → Linked previous (rs ++ (r ∷ []))
  Linked-append previous [] r l e f = (e, f, tt)
  Linked-append previous (x ∷ rs) r l e f = (l.0, l.1, Linked-append x.row_hash rs r l.2 e f)

  tip-append :
      (previous : Bytes) (rs : List AuditRow) (r : AuditRow)
      → tip previous (rs ++ (r ∷ [])) ≡ r.row_hash
  tip-append previous [] r = refl
  tip-append previous (x ∷ rs) r = tip-append x.row_hash rs r

  -- A row's content is that of the event that it was made from.
  content_agrees :
      (id : ℕ) (t : AuditEventType) (e : AuditEvent) (previous signature : Bytes)
      → e.event_type ≡ some t
      → build_verification_content h (row_for h id t e previous signature)
        ≡ build_hash_content h id e
  unfolding build_verification_content build_hash_content row_input hash_input
  content_agrees id t e previous signature x = rw x refl

  -- A service whose table is linked up to the hash that it keeps.
  abbrev pub Kept : AuditService → Type 0
  Kept s = Linked genesis s.rows × (tip genesis s.rows ≡ s.previous_hash)

  -- The loop of the verification accepts the whole table of such a service.
  pub Kept-verify :
      (s : AuditService)
      → Kept s
      → ((verify_events h s.rows).valid ≡ true)
        × ((verify_events h s.rows).events_verified ≡ length s.rows)
  unfolding verify_events
  Kept-verify s k =
      let valid = (verify_rows_iff (first_id h s.rows) (last_id h s.rows) genesis 0 s.rows).1 k.0 in
      (
        valid,
        omega (
          arith,
          verify_rows_count (first_id h s.rows) (last_id h s.rows) genesis 0 s.rows valid,
        ),
      )

  insert-Kept :
      (row : AuditRow) (fate : Fault) (s : AuditService)
      → fate ≢ lost_after
      → row.previous_event_hash ≡ s.previous_hash
      → row.row_hash ≡ hash_chain_event h s.previous_hash (build_verification_content h row)
      → Kept s
      → Kept (insert_and_advance h row fate s).1
  unfolding insert_and_advance
  insert-Kept row answers s n e f k = (
    Linked-append genesis s.rows row k.0 (e ∙ sym k.1)
        (f ∙ ap (λ p. hash_chain_event h p (build_verification_content h row)) (sym k.1)),
    tip-append genesis s.rows row,
  )
  insert-Kept row lost_before s n e f k = k
  insert-Kept row lost_after s n e f k = absurd (n refl)

  -- A recording leaves the service as it was or inserts the row of its event.
  with_type_cases :
      (P : AuditService → Type 0) (id : ℕ) (e : AuditEvent) (o : Option AuditEventType)
      (sign : Bytes → Result String Bytes) (fate : Fault) (s : AuditService)
      → P s
      → ((t : AuditEventType) (signature : Bytes)
          → o ≡ some t
          → P (insert_and_advance h (row_for h id t e s.previous_hash signature) fate s).1)
      → P (with_type h id e o sign fate s).1
  unfolding with_type sign_and_insert
  with_type_cases P id e none sign fate s same done = same
  with_type_cases P id e (some t) sign fate s same done =
      signed (sign (hash_chain_event h s.previous_hash (build_hash_content h id e)))
    where
      signed : (r : Result String Bytes) → P (sign_and_insert h id e t r fate s).1
      signed (err m) = same
      signed (ok signature) = done t signature refl

  record_cases :
      (P : AuditService → Type 0) (id : ℕ) (e : AuditEvent) (sign : Bytes → Result String Bytes)
      (fate : Fault) (s : AuditService)
      → P s
      → ((t : AuditEventType) (signature : Bytes)
          → e.event_type ≡ some t
          → P (insert_and_advance h (row_for h id t e s.previous_hash signature) fate s).1)
      → P (record_event h id e sign fate s).1
  unfolding record_event
  record_cases P id e sign fate s = with_type_cases P id e e.event_type sign fate s

  pub record-Kept :
      (id : ℕ) (e : AuditEvent) (sign : Bytes → Result String Bytes) (fate : Fault)
      (s : AuditService)
      → fate ≢ lost_after
      → Kept s
      → Kept (record_event h id e sign fate s).1
  record-Kept id e sign fate s n k = record_cases Kept id e sign fate s k (λ t signature x.
      insert-Kept (row_for h id t e s.previous_hash signature) fate s n refl
        (ap (hash_chain_event h s.previous_hash)
          (sym (content_agrees id t e s.previous_hash signature x)))
        k)

  -- A recording, and recordings one after another.
  pub record Recording : Type 0 where
    pub id : ℕ
    pub event : AuditEvent
    pub sign : Bytes → Result String Bytes
    pub fate : Fault

  abbrev pub record_all : List Recording → AuditService → AuditService
  record_all [] s = s
  record_all (q ∷ qs) s = record_all qs (record_event h q.id q.event q.sign q.fate s).1

  record_all-Kept :
      (qs : List Recording) (s : AuditService)
      → All (λ q. q.fate ≢ lost_after) qs
      → Kept s
      → Kept (record_all qs s)
  record_all-Kept [] s n k = k
  record_all-Kept (q ∷ qs) s n k =
      record_all-Kept qs _ n.1 (record-Kept q.id q.event q.sign q.fate s n.0 k)

  abbrev OfAgent : ℕ → List AuditRow → Type 0
  OfAgent a = All (λ r. is_agent h a r ≡ true)

  keep-OfAgent : (a : ℕ) (rs : List AuditRow) → OfAgent a rs → keep (is_agent h a) rs ≡ rs
  keep-OfAgent a [] o = refl
  keep-OfAgent a (r ∷ rs) o = ground (arith, keep-OfAgent a rs o.1)

  OfAgent-append :
      (a : ℕ) (rs : List AuditRow) (r : AuditRow)
      → OfAgent a rs
      → is_agent h a r ≡ true
      → OfAgent a (rs ++ (r ∷ []))
  OfAgent-append a [] r o x = (x, tt)
  OfAgent-append a (y ∷ rs) r o x = (o.0, OfAgent-append a rs r o.1 x)

  insert-OfAgent :
      (a : ℕ) (row : AuditRow) (fate : Fault) (s : AuditService)
      → is_agent h a row ≡ true
      → OfAgent a s.rows
      → OfAgent a (insert_and_advance h row fate s).1.rows
  unfolding insert_and_advance
  insert-OfAgent a row answers s x o = OfAgent-append a s.rows row o x
  insert-OfAgent a row lost_before s x o = o
  insert-OfAgent a row lost_after s x o = OfAgent-append a s.rows row o x

  record-OfAgent :
      (a id : ℕ) (e : AuditEvent) (sign : Bytes → Result String Bytes) (fate : Fault)
      (s : AuditService)
      → e.agent_id ≡ some a
      → OfAgent a s.rows
      → OfAgent a (record_event h id e sign fate s).1.rows
  record-OfAgent a id e sign fate s y o =
      record_cases (λ s. OfAgent a s.rows) id e sign fate s o
        (λ t signature x.
          insert-OfAgent a (row_for h id t e s.previous_hash signature) fate s (rw y (==_refl a)) o)

  record_all-OfAgent :
      (a : ℕ) (qs : List Recording) (s : AuditService)
      → All (λ q. q.event.agent_id ≡ some a) qs
      → OfAgent a s.rows
      → OfAgent a (record_all qs s).rows
  record_all-OfAgent a [] s y o = o
  record_all-OfAgent a (q ∷ qs) s y o =
      record_all-OfAgent a qs _ y.1 (record-OfAgent a q.id q.event q.sign q.fate s y.0 o)

  -- After any recordings on an empty table, one after another and all for one agent that exists, in
  -- which no insertion took effect without an answer (signing and insertions may fail), the
  -- verification of that agent reports a valid chain, with every row counted.
  pub chain_verified :
      (a : ℕ) (tables : Tables) (qs : List Recording)
      → agent_exists a tables ≡ true
      → All (λ q. q.fate ≢ lost_after) qs
      → All (λ q. q.event.agent_id ≡ some a) qs
      → let rows = (record_all qs (new [])).rows in
        (verify_agent_audit_chain h a tables rows ≡ ok (verify_events h rows))
        × ((verify_events h rows).valid ≡ true)
        × ((verify_events h rows).events_verified ≡ length rows)
  unfolding verify_agent_audit_chain new
  chain_verified a tables qs x n y =
      let s = record_all qs (unfold new in new []) in
      let v = Kept-verify s (record_all-Kept qs (new []) n (tt, refl)) in
      (rw (x, keep-OfAgent a s.rows (record_all-OfAgent a qs (new []) y tt)) refl, v.0, v.1)
