-- ===== src/Companion/Protocol/Answered.antt =====
-- A response that arrives in time, and nothing else, ends the wait for it.
use pyatv_rs.Prelude.{
  All, ap, sym, ◌∙◌, ◌||◌, ◌==◌, ne→==_false, Option, Bool-cases, ℕ, ◌≡◌, refl, true, false, none,
  some, List, [], ◌∷◌, ◌++◌, Bytes, find_key, Option-cases, inl, inr, ==_refl,
}
use pyatv_rs.Opack.Value.{Value}
use pyatv_rs.Opack.Value
use pyatv_rs.Opack.De.{unpack}
use pyatv_rs.Companion.Frame.{FrameType, is_auth, is_opack}
use pyatv_rs.Companion.Message.{
  MessageType, event, request, response, rejected, Envelope, from_value, into_result,
}
use pyatv_rs.Companion.Message
use pyatv_rs.Companion.Protocol.{
  Awaiting, for_xid, Result, ok, err, envelope, Protocol, dispatch_response, is_awaited,
}
use pyatv_rs.Companion.Protocol.Dispatch.{
  Arrival, frame, got, response_to, dispatch_kind, dispatch_message, dispatch_value,
  dispatch_unpacked, read_and_dispatch, Waited, is_wanted_auth, wait_loop, pump_inner, checked,
  answer, finish, pump, message_result,
}

module _ (hash : List ℕ → ℕ) (element_cost : ℕ) (debug : Value → Bytes) where
  -- A frame that carries a response with a number.
  pub record IsResponse (xid : ℕ) (t : FrameType) (payload : Bytes) : Type 0 where
    pub value : Value
    pub consumed : ℕ
    pub message : Envelope
    pub plain : is_auth t ≡ false
    pub opack : is_opack t ≡ true
    pub unpacked : unpack hash element_cost payload ≡ Value.ok (value, consumed)
    pub reads : from_value debug value ≡ Message.ok message
    pub kind : message.message_type ≡ some response
    pub number : message.xid ≡ some xid

  read_response :
      (xid : ℕ) (t : FrameType) (payload : Bytes) (p : Protocol) (r : IsResponse xid t payload)
      → (read_and_dispatch hash element_cost debug (some (for_xid xid)) t payload p).0
        ≡ some r.value
  unfolding read_and_dispatch dispatch_unpacked dispatch_value dispatch_message dispatch_kind
      response_to dispatch_response is_awaited
  read_response xid t payload p r =
      rw (r.plain, r.opack, r.unpacked, r.plain, r.reads, r.kind, r.number, ==_refl xid) refl

  -- What does not carry a response with the number does not end the wait for it.
  unread_kind :
      (xid : ℕ) (t : FrameType) (payload : Bytes) (p : Protocol) (m : Envelope) (value : Value)
      → ((xid' : ℕ) → m.message_type ≡ some response → m.xid ≡ some xid' → (xid == xid') ≡ false)
      → (o : Option MessageType) → m.message_type ≡ o
      → (dispatch_kind o (some (for_xid xid)) m value p).0 ≡ none
  unfolding dispatch_kind response_to dispatch_response is_awaited
  unread_kind xid t payload p m value n none k = refl
  unread_kind xid t payload p m value n (some event) k = refl
  unread_kind xid t payload p m value n (some request) k = refl
  unread_kind xid t payload p m value n (some response) k = elim (Option-cases (m.xid)) [
    | inl (xid', h) ↦ rw (h, n xid' k h) refl
    | inr h ↦ rw h refl
  ]

  unread_message :
      (xid : ℕ) (t : FrameType) (payload : Bytes) (p : Protocol) (value : Value) (consumed : ℕ)
      → (IsResponse xid t payload → ⊥)
      → is_auth t ≡ false
      → is_opack t ≡ true
      → unpack hash element_cost payload ≡ Value.ok (value, consumed)
      → (o : Message.Result Envelope) → from_value debug value ≡ o
      → (dispatch_message (some (for_xid xid)) o value p).0 ≡ none
  unfolding dispatch_message
  unread_message xid t payload p value consumed other plain opack u (Message.err e) reads = refl
  unread_message xid t payload p value consumed other plain opack u (Message.ok m) reads =
      unread_kind xid t payload p m value
        (λ xid' k h. ne→==_false xid xid' (λ e. other (record {
          value = value;
          consumed = consumed;
          message = m;
          plain = plain;
          opack = opack;
          unpacked = u;
          reads = reads;
          kind = k;
          number = h ∙ ap some (sym e);
        })))
        m.message_type refl

  unread_unpacked :
      (xid : ℕ) (t : FrameType) (payload : Bytes) (p : Protocol)
      → (IsResponse xid t payload → ⊥)
      → (is_auth t || is_opack t) ≡ true
      → (o : Value.Result (Value × ℕ)) → unpack hash element_cost payload ≡ o
      → (dispatch_unpacked hash element_cost debug (some (for_xid xid)) t o p).0 ≡ none
  unfolding dispatch_unpacked dispatch_value is_wanted_auth
  unread_unpacked xid t payload p other b (Value.err e) u = refl
  unread_unpacked xid t payload p other b (Value.ok (value, consumed)) u =
      elim (Bool-cases (is_auth t)) [
        | inl a ↦ rw a refl
        | inr a ↦ rw a (
            unread_message xid t payload p value consumed other a (sym (rw a refl) ∙ b) u
              (from_value debug value) refl)
      ]

  unread :
      (xid : ℕ) (t : FrameType) (payload : Bytes) (p : Protocol)
      → (IsResponse xid t payload → ⊥)
      → (read_and_dispatch hash element_cost debug (some (for_xid xid)) t payload p).0 ≡ none
  unfolding read_and_dispatch
  unread xid t payload p other = elim (Bool-cases (is_auth t || is_opack t)) [
    | inl b ↦
        rw (b, read_and_dispatch)
          (unread_unpacked xid t payload p other b (unpack hash element_cost payload) refl)
    | inr b ↦ rw (b, read_and_dispatch) refl
  ]

  module _ {ℓ} (E : Type ℓ) where
    -- Other frames, in the order of their arrival.
    abbrev pub frames : List (FrameType × Bytes) → List (Arrival E)
    frames [] = []
    frames ((t, payload) ∷ others) = frame t payload ∷ frames others

    -- None of the frames carries a response with the number.
    abbrev pub AreOthers : ℕ → List (FrameType × Bytes) → Type 0
    AreOthers xid others = All (λ f. IsResponse xid f.0 f.1 → ⊥) others

    -- A wait that ended with a value, when the rest had not arrived.
    abbrev HasValue : Value → List (Arrival E) → Waited E → Type ℓ
    HasValue v rest (outcome, p, arrivals) = (outcome ≡ got v) × (arrivals ≡ rest)

    wait_loop-HasValue :
        (xid : ℕ) (others : List (FrameType × Bytes)) (t : FrameType) (payload : Bytes)
        (rest : List (Arrival E)) (p : Protocol)
        → AreOthers xid others
        → (r : IsResponse xid t payload)
        → HasValue r.value rest (
            wait_loop hash element_cost debug
              (for_xid xid)
              (frames others ++ frame t payload ∷ rest)
              p)
    unfolding wait_loop
    wait_loop-HasValue xid [] t payload rest p other r =
        rw (read_response xid t payload p r, wait_loop) (refl, refl)
    wait_loop-HasValue xid ((t', payload') ∷ others) t payload rest p other r =
        rw (unread xid t' payload' p other.0, wait_loop)
          (wait_loop-HasValue xid others t payload rest
            (read_and_dispatch hash element_cost debug (some (for_xid xid)) t' payload' p).1 other.1
            r)

    -- The answer that a response makes: its value, or the error it tells.
    abbrev pub answer_to : Value → Envelope → Result E Value
    answer_to value m = elim (m.error) [
      | none ↦ ok value
      | some error ↦ err (envelope (rejected m.identifier error))
    ]

    -- A call that ended with the answer of a response, when the rest had not arrived.
    abbrev pub IsAnswered :
        Value → Envelope → List (Arrival E) → Result E Value × Protocol × List (Arrival E) → Type ℓ
    IsAnswered value m rest (result, p, arrivals) = (result ≡ answer_to value m) × (arrivals ≡ rest)

    checked-answer_to :
        (value : Value) (m : Envelope)
        → checked hash element_cost debug value (into_result m) ≡ answer_to value m
    unfolding checked into_result
    checked-answer_to value m = elim (Option-cases (m.error)) [
      | inl (error, h) ↦ rw h refl
      | inr h ↦ rw h refl
    ]

    answer-answer_to :
        (awaiting : Awaiting) (value : Value) (m : Envelope)
        → from_value debug value ≡ Message.ok m
        → answer hash element_cost debug awaiting (got value) ≡ answer_to value m
    unfolding answer message_result
    answer-answer_to awaiting value m h =
        ap (λ o. checked hash element_cost debug value (message_result o)) h
        ∙ checked-answer_to value m

    finish-IsAnswered :
        (awaiting : Awaiting) (value : Value) (m : Envelope) (rest : List (Arrival E))
        (w : Waited E)
        → from_value debug value ≡ Message.ok m
        → HasValue value rest w
        → IsAnswered value m rest (finish hash element_cost debug awaiting w)
    unfolding finish
    finish-IsAnswered awaiting value m rest (outcome, p, arrivals) reads (h, same) = (
      ap (answer hash element_cost debug awaiting) h ∙ answer-answer_to awaiting value m reads,
      same,
    )

    pump_inner-HasValue :
        (xid : ℕ) (others : List (FrameType × Bytes)) (t : FrameType) (payload : Bytes)
        (rest : List (Arrival E)) (p : Protocol)
        → find_key xid p.stash ≡ none
        → AreOthers xid others
        → (r : IsResponse xid t payload)
        → HasValue r.value rest (
            pump_inner hash element_cost debug
              (for_xid xid)
              (frames others ++ frame t payload ∷ rest)
              p)
    unfolding pump_inner
    pump_inner-HasValue xid others t payload rest p fresh other r =
        rw (fresh, pump_inner) (wait_loop-HasValue xid others t payload rest p other r)

    -- A call that waits for a number for which nothing was stashed is answered by the first frame that
    -- carries a response with that number, if it arrives before the time limit and the connection is
    -- not lost before it: its result is the value of that response, or the error that the response
    -- tells, whatever other frames arrived before, and nothing that arrives later is read.
    pub pump-IsAnswered :
        (xid : ℕ) (others : List (FrameType × Bytes)) (t : FrameType) (payload : Bytes)
        (rest : List (Arrival E)) (p : Protocol)
        → find_key xid p.stash ≡ none
        → AreOthers xid others
        → (r : IsResponse xid t payload)
        → IsAnswered r.value r.message rest
            (pump hash element_cost debug (for_xid xid) (frames others ++ frame t payload ∷ rest) p)
    unfolding pump
    pump-IsAnswered xid others t payload rest p fresh other r =
        finish-IsAnswered (for_xid xid) r.value r.message rest
          (pump_inner hash element_cost debug (for_xid xid)
            (frames others ++ frame t payload ∷ rest) p)
          r.reads (pump_inner-HasValue xid others t payload rest p fresh other r)
