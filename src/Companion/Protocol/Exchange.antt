-- ===== src/Companion/Protocol/Exchange.antt =====
-- A whole request: what it sends, what it leaves behind, and whose response it returns.
use pyatv_rs.Prelude.{
  ℕ, ◌+◌, ◌%◌, ◌^◌, ◌≡◌, ◌⊎◌, ◌∙◌, refl, ap, true, Option, List, [], ◌∷◌, ◌++◌, Bytes, Option-cases,
  inl, inr, arith,
}
use pyatv_rs.Opack.Value.{Value, Fields, dict, end, field, string, uint, is_key, find_field}
use pyatv_rs.Opack.Value
use pyatv_rs.Opack.Ser.{pack}
use pyatv_rs.Companion.Frame.{FrameType}
use pyatv_rs.Companion.Message.{key_xid}
use pyatv_rs.Companion.Protocol.{
  for_xid, Error, payload_not_a_dict, opack, connection, Result, err, Protocol, next_xid, issue,
  forget, push_field, drop_xid, has_xid, number_fields, send_opack, send_entries, send_packed,
  is_outstanding,
}
use pyatv_rs.Companion.Protocol.Dispatch.{
  Arrival, pump, pump_sent, exchange_entries, exchange_opack,
}
use pyatv_rs.Companion.Protocol.Tracked.{IsTracked, issue-IsTracked, is_outstanding-append}
use pyatv_rs.Companion.Protocol.Calls.{IsResult, pump-IsCalled}
use pyatv_rs.Companion.Protocol.Kept.{IsReleased, pump-IsKept}
use pyatv_rs.Companion.Protocol.Numbering.{
  IsNumbering, numbered_lem, others_lem, has_xid-push_field,
}

module _ {ℓ} (E : Type ℓ) (hash : List ℕ → ℕ) (element_cost : ℕ) (debug : Value → Bytes) where
  -- A request that went out: one frame, which packs the entries with the number, and the number is
  -- released.
  pub record WasSent (t : FrameType) (entries : Fields) (p p' : Protocol) : Type 0 where
    pub fields : Fields
    pub packed : Bytes
    pub numbering : IsNumbering p.xid entries fields
    pub packs : pack (dict fields) ≡ Value.ok packed
    pub sent : p'.sent ≡ p.sent ++ (t, packed) ∷ []
    pub released : IsReleased p.xid p'

  -- A request that did not go out: it was not packed or not taken by the connection. Nothing that
  -- arrived was read, and the number is left outstanding.
  pub record WasNotSent (p p' : Protocol) (result : Result E Value)
      (arrivals rest : List (Arrival E)) : Type ℓ where
    pub failed :
        ((e : Value.Error) × (result ≡ err (opack e))) ⊎ ((e : E) × (result ≡ err (connection e)))
    pub sent : p'.sent ≡ p.sent
    pub outstanding : is_outstanding p.xid p'.outstanding ≡ true
    pub unread : rest ≡ arrivals

  -- What a request with these entries leaves: the bookkeeping, the next number, and as its result a
  -- message with its own number if it is a message.
  pub record IsExchanged (t : FrameType) (entries : Fields) (arrivals : List (Arrival E))
      (p p' : Protocol) (result : Result E Value) (rest : List (Arrival E)) : Type ℓ where
    pub tracked : IsTracked debug p'
    pub next : p'.xid ≡ (p.xid + 1) % 2 ^ 32
    pub answer : IsResult E hash element_cost debug (for_xid p.xid) result
    pub sending : WasSent t entries p p' ⊎ WasNotSent p p' result arrivals rest

  -- A payload that is no dictionary is refused at once.
  abbrev pub IsRequested :
      FrameType
      → Value
      → List (Arrival E)
      → Protocol
      → Result E Value × Protocol × List (Arrival E)
      → Type ℓ
  IsRequested t (dict entries) arrivals p (result, p', rest) =
      IsExchanged t entries arrivals p p' result rest
  IsRequested t _ arrivals p (result, p', rest) =
      (result ≡ err (payload_not_a_dict t)) × (p' ≡ p) × (rest ≡ arrivals)

  -- The protocol when the number was issued.
  record IsIssued (p q : Protocol) : Type 0 where
    tracked : IsTracked debug q
    next : q.xid ≡ (p.xid + 1) % 2 ^ 32
    sent : q.sent ≡ p.sent
    outstanding : is_outstanding p.xid q.outstanding ≡ true

  issue-IsIssued : (p : Protocol) → IsTracked debug p → IsIssued p (issue p.xid (next_xid p).1)
  unfolding issue next_xid
  issue-IsIssued p i = record {
    tracked =
        issue-IsTracked debug p.xid (next_xid p).1
          (record { bounded = i.bounded; tracked = i.tracked });
    next = refl;
    sent = refl;
    outstanding =
        is_outstanding-append debug (forget p.outstanding p.stash).0 p.xid p.xid ∙ ground arith;
  }

  module _ (send_frame : FrameType → Bytes → Option E) where
    not_sent :
        (t : FrameType) (entries : Fields) (arrivals : List (Arrival E)) (p q : Protocol)
        (e : Error E)
        → IsIssued p q
        → ((e' : Value.Error) × (◌≡◌ {A = Result E Value} (err e) (err (opack e'))))
          ⊎ ((e' : E) × (◌≡◌ {A = Result E Value} (err e) (err (connection e'))))
        → IsExchanged t entries arrivals p q (err e) arrivals
    not_sent t entries arrivals p q e i f = record {
      tracked = i.tracked;
      next = i.next;
      answer = tt;
      sending =
          inr (record { failed = f; sent = i.sent; outstanding = i.outstanding; unread = refl });
    }

    was_sent :
        (t : FrameType) (entries fields : Fields) (packed : Bytes) (arrivals : List (Arrival E))
        (p q : Protocol)
        → IsNumbering p.xid entries fields
        → pack (dict fields) ≡ Value.ok packed
        → IsTracked debug q
        → q.xid ≡ (p.xid + 1) % 2 ^ 32
        → q.sent ≡ p.sent ++ (t, packed) ∷ []
        → let w : Result E Value × Protocol × List (Arrival E) =
            pump hash element_cost debug (for_xid p.xid) arrivals q in
          IsExchanged t entries arrivals p w.1 w.0 w.2
    was_sent t entries fields packed arrivals p q n h i next sent =
        let (kept, released) = pump-IsKept hash element_cost debug E p.xid arrivals q in
        let (tracked, answer) =
          pump-IsCalled E hash element_cost debug (for_xid p.xid) arrivals q i in
        record {
          tracked = tracked;
          next = kept.number ∙ next;
          answer = answer;
          sending = inl (record {
            fields = fields;
            packed = packed;
            numbering = n;
            packs = h;
            sent = kept.sent ∙ sent;
            released = released;
          });
        }

    abbrev IsSending :
        FrameType → Fields → List (Arrival E) → Protocol → Result E (Unit {0}) × Protocol → Type ℓ
    IsSending t entries arrivals p s =
        let w : Result E Value × Protocol × List (Arrival E) =
          pump_sent hash element_cost debug send_frame (for_xid p.xid) arrivals s in
        IsExchanged t entries arrivals p w.1 w.0 w.2

    packed-IsSending :
        (t : FrameType) (entries fields : Fields) (arrivals : List (Arrival E)) (p q : Protocol)
        (o : Value.Result Bytes)
        → pack (dict fields) ≡ o
        → IsNumbering p.xid entries fields
        → IsIssued p q
        → IsSending t entries arrivals p (send_packed send_frame t o q)
    unfolding send_packed pump_sent
    packed-IsSending t entries fields arrivals p q (Value.err e) h n i =
        not_sent t entries arrivals p q (opack e) i (inl (e, refl))
    packed-IsSending t entries fields arrivals p q (Value.ok packed) h n i =
        elim (Option-cases (send_frame t packed)) [
          | inl (e, f) ↦
              rw (f, send_packed) (not_sent t entries arrivals p q (connection e) i (inr (e, refl)))
          | inr f ↦
              rw (f, send_packed)
                (was_sent t entries fields packed arrivals p
                  (record q { sent = q.sent ++ (t, packed) ∷ [] }) n h
                  (record { bounded = i.tracked.bounded; tracked = i.tracked.tracked }) i.next
                  (ap (λ xs. xs ++ (t, packed) ∷ []) i.sent))
        ]

    numbered-IsSending :
        (t : FrameType) (entries fields : Fields) (arrivals : List (Arrival E)) (p q : Protocol)
        → has_xid fields ≡ true
        → IsNumbering p.xid entries fields
        → IsIssued p q
        → IsSending t entries arrivals p (send_opack send_frame t (dict fields) q)
    unfolding send_opack send_entries number_fields
    numbered-IsSending t entries fields arrivals p q h n i =
        rw (h, number_fields)
          (packed-IsSending t entries fields arrivals p q (pack (dict fields)) refl n i)

    -- A request that starts with the bookkeeping in order keeps it, moves on to the next number and
    -- returns a message only if it has the request's number. Either one frame is sent, in which the
    -- payload has that number, and then the number is released however the wait ends; or nothing is
    -- sent, for an error that is returned, nothing is read and the number is left outstanding. A
    -- payload that is no dictionary changes nothing.
    pub exchange_opack-IsRequested :
        (t : FrameType) (payload : Value) (arrivals : List (Arrival E)) (p : Protocol)
        → IsTracked debug p
        → IsRequested t payload arrivals p
            (exchange_opack hash element_cost debug send_frame t payload arrivals p)
    unfolding exchange_opack exchange_entries next_xid
    exchange_opack-IsRequested t (dict entries) arrivals p i =
        numbered-IsSending t entries (push_field (drop_xid entries) (string key_xid) (uint p.xid))
          arrivals p (issue p.xid (next_xid p).1)
          (has_xid-push_field (uint p.xid) (drop_xid entries))
          (record {
            numbered = numbered_lem (uint p.xid) entries;
            others = λ key h. others_lem key (uint p.xid) entries h;
          })
          (issue-IsIssued p i)
    exchange_opack-IsRequested t _ arrivals p i = (refl, refl, refl)
