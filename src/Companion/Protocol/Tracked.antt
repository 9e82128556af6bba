-- ===== src/Companion/Protocol/Tracked.antt =====
-- The bookkeeping of responses.
use pyatv_rs.Prelude.{
  ℕ, suc, ◌≤◌, ◌≡◌, ◌⊎◌, ◌∙◌, sym, ap, subst, refl, true, false, ◌||◌, none, some, List, [], ◌∷◌,
  ◌++◌, Bytes, length, leb, ◌==◌, find_key, insert_key, remove_key, find_key-insert_key,
  find_key-remove_key, arith, Bool-cases, Option-cases, inl, inr, length-append, ==→eq,
}
use pyatv_rs.Opack.Value.{Value}
use pyatv_rs.Companion.Message.{MessageType, Envelope, from_value}
use pyatv_rs.Companion.Message
use pyatv_rs.Companion.Protocol.{
  max_outstanding, Protocol, with_xid, forget, issue, retain_other, resolve, is_outstanding,
  stash_response,
}

module _ (debug : Value → Bytes) where
  -- A value that reads as a message with this number.
  pub record IsNumbered (xid : ℕ) (value : Value) : Type 0 where
    pub message : Envelope
    pub reads : from_value debug value ≡ Message.ok message
    pub number : message.xid ≡ some xid

  -- What is stashed is a message with an outstanding number, under that number.
  pub record AreTracked (outstanding : List ℕ) (stash : List (ℕ × Value)) : Type 0 where
    pub is_expected :
        (k : ℕ) (v : Value) → find_key k stash ≡ some v → is_outstanding k outstanding ≡ true
    pub is_numbered : (k : ℕ) (v : Value) → find_key k stash ≡ some v → IsNumbered k v

  -- Besides, at most sixteen numbers are outstanding.
  pub record IsTracked (p : Protocol) : Type 0 where
    pub bounded : length p.outstanding ≤ max_outstanding
    pub tracked : AreTracked p.outstanding p.stash

  absurd_value : (v : Value) → none ≡ some v → ⊥
  absurd_value v h = cc

  pub none-AreTracked : (outstanding : List ℕ) → AreTracked outstanding []
  unfolding find_key
  none-AreTracked outstanding = record {
    is_expected = λ k v h. absurd (absurd_value v h);
    is_numbered = λ k v h. absurd (absurd_value v h);
  }

  pub with_xid-IsTracked : (xid : ℕ) → IsTracked (with_xid xid)
  unfolding with_xid
  with_xid-IsTracked xid = record { bounded = omega arith; tracked = none-AreTracked [] }

  removed_some :
      (x k : ℕ) (v : Value) (stash : List (ℕ × Value))
      → find_key k (remove_key x stash) ≡ some v
      → ((x == k) ≡ false) × (find_key k stash ≡ some v)
  removed_some x k v stash h = ground (arith, find_key-remove_key x k stash)

  pub is_outstanding-append :
      (xs : List ℕ) (x k : ℕ) → is_outstanding k (xs ++ x ∷ []) ≡ (is_outstanding k xs || (x == k))
  unfolding is_outstanding
  is_outstanding-append [] x k = ground arith
  is_outstanding-append (y ∷ xs) x k = ground (arith, is_outstanding-append xs x k)

  is_outstanding-retain_other :
      (x k : ℕ) (xs : List ℕ)
      → is_outstanding k xs ≡ true
      → (x == k) ≡ false
      → is_outstanding k (retain_other x xs) ≡ true
  unfolding is_outstanding retain_other
  is_outstanding-retain_other x k [] h n = h
  is_outstanding-retain_other x k (y ∷ xs) h n =
      ground (arith, is_outstanding-retain_other x k xs, ==→eq y x, ==→eq y k)

  length-retain_other : (x : ℕ) (xs : List ℕ) → length (retain_other x xs) ≤ length xs
  unfolding retain_other
  length-retain_other x [] = omega arith
  length-retain_other x (y ∷ xs) = ground (arith, length-retain_other x xs)

  is_outstanding-tail :
      (x k : ℕ) (xs : List ℕ)
      → is_outstanding k (x ∷ xs) ≡ true
      → (x == k) ≡ false
      → is_outstanding k xs ≡ true
  unfolding is_outstanding
  is_outstanding-tail x k xs h n = ground (arith, h, n)

  forgotten :
      (x : ℕ) (xs : List ℕ) (stash : List (ℕ × Value))
      → AreTracked (x ∷ xs) stash
      → AreTracked xs (remove_key x stash)
  forgotten x xs stash t = record {
    is_expected = λ k v h.
        let (n, f) = removed_some x k v stash h in
        is_outstanding-tail x k xs (t.is_expected k v f) n;
    is_numbered = λ k v h. t.is_numbered k v (removed_some x k v stash h).1;
  }

  pub forgotten_one :
      (x : ℕ) (xs : List ℕ) (stash : List (ℕ × Value))
      → AreTracked xs stash
      → AreTracked xs (remove_key x stash)
  forgotten_one x xs stash t = record {
    is_expected = λ k v h. t.is_expected k v (removed_some x k v stash h).1;
    is_numbered = λ k v h. t.is_numbered k v (removed_some x k v stash h).1;
  }

  forget-AreTracked :
      (xs : List ℕ) (stash : List (ℕ × Value))
      → AreTracked xs stash
      → AreTracked (forget xs stash).0 (forget xs stash).1
        × (suc (length (forget xs stash).0) ≤ max_outstanding)
  unfolding forget
  forget-AreTracked [] stash t = (t, omega arith)
  forget-AreTracked (x ∷ xs) stash t = elim (Bool-cases (leb max_outstanding (length (x ∷ xs)))) [
    | inl e ↦ rw (e, forget) (forget-AreTracked xs (remove_key x stash) (forgotten x xs stash t))
    | inr e ↦ rw (e, forget) (t, ground (arith, e))
  ]

  pub issue-IsTracked : (xid : ℕ) (p : Protocol) → IsTracked p → IsTracked (issue xid p)
  unfolding issue
  issue-IsTracked xid p t =
      let (kept, room) = forget-AreTracked p.outstanding p.stash t.tracked in
      record {
        bounded = omega (arith, room, length-append (forget p.outstanding p.stash).0 (xid ∷ []));
        tracked = record {
          is_expected = λ k v h.
              is_outstanding-append (forget p.outstanding p.stash).0 xid k
              ∙ ap (λ b. b || (xid == k)) (kept.is_expected k v h);
          is_numbered = kept.is_numbered;
        };
      }

  pub resolve-IsTracked : (xid : ℕ) (p : Protocol) → IsTracked p → IsTracked (resolve xid p)
  unfolding resolve
  resolve-IsTracked xid p t = record {
    bounded = omega (arith, t.bounded, length-retain_other xid p.outstanding);
    tracked = record {
      is_expected = λ k v h.
          let (n, f) = removed_some xid k v p.stash h in
          is_outstanding-retain_other xid k p.outstanding (t.tracked.is_expected k v f) n;
      is_numbered = λ k v h. t.tracked.is_numbered k v (removed_some xid k v p.stash h).1;
    };
  }

  same_value : (v w : Value) → some v ≡ some w → v ≡ w
  same_value v w h = cc

  inserted_some :
      (x k : ℕ) (w v : Value) (stash : List (ℕ × Value))
      → find_key k (insert_key x w stash) ≡ some v
      → ((x ≡ k) × (w ≡ v)) ⊎ (find_key k stash ≡ some v)
  inserted_some x k w v stash h = elim (Bool-cases (x == k)) [
    | inl e ↦
        inl (==→eq x k e, same_value w v (sym (find_key-insert_key x k w stash ∙ rw e refl) ∙ h))
    | inr e ↦ inr (sym (find_key-insert_key x k w stash ∙ rw e refl) ∙ h)
  ]

  inserted :
      (x : ℕ) (w : Value) (outstanding : List ℕ) (stash : List (ℕ × Value))
      → IsNumbered x w
      → is_outstanding x outstanding ≡ true
      → AreTracked outstanding stash
      → AreTracked outstanding (insert_key x w stash)
  inserted x w outstanding stash is out t = record {
    is_expected = λ k v h. elim (inserted_some x k w v stash h) [
      | inl (e, f) ↦ subst (λ n. is_outstanding n outstanding ≡ true) e out
      | inr g ↦ t.is_expected k v g
    ];
    is_numbered = λ k v h. elim (inserted_some x k w v stash h) [
      | inl (e, f) ↦ subst (λ n. IsNumbered n v) e (subst (IsNumbered x) f is)
      | inr g ↦ t.is_numbered k v g
    ];
  }

  pub stash_response-IsTracked :
      (e : Envelope) (value : Value) (p : Protocol)
      → from_value debug value ≡ Message.ok e
      → IsTracked p
      → IsTracked (stash_response e value p)
  unfolding stash_response
  stash_response-IsTracked e value p reads t = elim (Option-cases (e.xid)) [
    | inr n ↦ rw (n, stash_response) t
    | inl (xid, n) ↦ elim (Bool-cases (is_outstanding xid p.outstanding)) [
      | inr o ↦ rw (n, stash_response, o) t
      | inl o ↦
          rw (n, stash_response, o)
            (record {
              bounded = t.bounded;
              tracked =
                  inserted xid value p.outstanding p.stash
                    (record { message = e; reads = reads; number = n }) o t.tracked;
            })
    ]
  ]
