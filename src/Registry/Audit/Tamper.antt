-- ===== src/Registry/Audit/Tamper.antt =====
-- What a verified chain fixes: a change that the verification does not notice takes a collision of
-- the hash.
use agent_auth.Prelude.{
  ◌≡◌, refl, sym, ap, ◌∙◌, ◌≢◌, ◌⊎◌, inl, inr, true, List, [], ◌∷◌, ◌++◌, map, arith, Bool-cases,
  length,
}
use agent_auth.Registry.Audit.{
  Bytes, Sha, AuditRow, genesis, bytes_eq, hash_chain_event, row_input, build_verification_content,
  verify_events,
}
use agent_auth.Registry.Audit.Chain.{Linked, tip, bytes_eq_iff, verify_rows_iff}

append-inj :
    (xs ys us vs : Bytes) → length xs ≡ length us → xs ++ ys ≡ us ++ vs → (xs ≡ us) × (ys ≡ vs)
append-inj [] ys [] vs l e = (refl, e)
append-inj [] ys (u ∷ us) vs l e = ground arith
append-inj (x ∷ xs) ys [] vs l e = ground arith
append-inj (x ∷ xs) ys (u ∷ us) vs l e = ground (arith, append-inj xs ys us vs)

module _ (h : Sha) where
  -- Two inputs with one digest.
  pub record Collision : Type 0 where
    pub left : Bytes
    pub right : Bytes
    pub differ : left ≢ right
    pub collide : h.sha256 left ≡ h.sha256 right

  same_or_collision : (x y : Bytes) → h.sha256 x ≡ h.sha256 y → Collision ⊎ (x ≡ y)
  same_or_collision x y e = elim (Bool-cases (bytes_eq x y)) [
    | inl s ↦ inr ((bytes_eq_iff x y).0 s)
    | inr n ↦ inl (record {
      left = x;
      right = y;
      differ = λ p. ground (arith, (bytes_eq_iff x y).1 p);
      collide = e;
    })
  ]

  -- What the hash of each row is over.
  abbrev pub inputs : List AuditRow → List Bytes
  inputs = map (row_input h)

  Linked-same :
      (p q : Bytes) (rs ss : List AuditRow)
      → length p ≡ 32
      → length q ≡ 32
      → length rs ≡ length ss
      → Linked h p rs
      → Linked h q ss
      → tip h p rs ≡ tip h q ss
      → Collision ⊎ ((p ≡ q) × (inputs rs ≡ inputs ss))
  unfolding hash_chain_event build_verification_content
  Linked-same p q [] [] lp lq l a b e = inr (e, refl)
  Linked-same p q [] (s ∷ ss) lp lq l a b e = ground arith
  Linked-same p q (r ∷ rs) [] lp lq l a b e = ground arith
  Linked-same p q (r ∷ rs) (s ∷ ss) lp lq l a b e =
      elim (Linked-same r.row_hash s.row_hash rs ss (ap length a.1 ∙ h.length-sha256 _)
        (ap length b.1 ∙ h.length-sha256 _) (omega (arith, l)) a.2 b.2 e) [
          | inl c ↦ inl c
          | inr (hashes, rest) ↦ elim (same_or_collision _ _ (sym a.1 ∙ hashes ∙ b.1)) [
            | inl c ↦ inl c
            | inr joined ↦
                let (before, contents) = append-inj p _ q _ (lp ∙ sym lq) joined in
                elim (same_or_collision (row_input h r) (row_input h s) contents) [
                  | inl c ↦ inl c
                  | inr same ↦ inr (before, rw (same, rest) refl)
                ]
          ]
        ]

  -- Where two tables of events of the same length both verify and end in the same row hash, the
  -- hashed bytes of each event are the same in both, or two inputs with one digest are at hand.
  pub tamper_evident :
      (rs ss : List AuditRow)
      → length rs ≡ length ss
      → (verify_events h rs).valid ≡ true
      → (verify_events h ss).valid ≡ true
      → tip h genesis rs ≡ tip h genesis ss
      → Collision ⊎ (inputs rs ≡ inputs ss)
  unfolding verify_events
  tamper_evident rs ss l a b e =
      elim (Linked-same genesis genesis rs ss refl refl l ((verify_rows_iff h _ _ genesis 0 rs).0 a)
        ((verify_rows_iff h _ _ genesis 0 ss).0 b) e) [ inl c ↦ inl c | inr (_, same) ↦ inr same ]
