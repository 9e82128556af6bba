-- ===== src/Companion/Protocol/Calls.antt =====
-- Whole calls: what they leave behind, and whose response they return.
use pyatv_rs.Prelude.{
  ℕ, subst, Option, none, some, List, [], ◌∷◌, Bytes, find_key, Bool-cases, Option-cases, inl, inr,
}
use pyatv_rs.Opack.Value.{Value, Fields, dict, string, uint}
use pyatv_rs.Opack.Value
use pyatv_rs.Opack.Ser.{pack}
use pyatv_rs.Companion.Frame.{FrameType, response_type}
use pyatv_rs.Companion.Message.{key_xid, Envelope, from_value}
use pyatv_rs.Companion.Message
use pyatv_rs.Companion.Protocol.{
  Awaiting, auth, for_xid, Result, ok, err, Protocol, next_xid, has_xid, number_fields, send_opack,
  send_entries, send_packed,
}
use pyatv_rs.Companion.Protocol.Dispatch.{
  Arrival, frame, lost, Outcome, got, failed, timed_out, Waited, read_and_dispatch, wait_loop,
  pump_inner, message_result, settle, checked, answer, finish, pump, pump_sent, exchange_auth,
  poll_once,
}
use pyatv_rs.Companion.Protocol.Tracked.{IsTracked, forgotten_one, resolve-IsTracked}
use pyatv_rs.Companion.Protocol.Answers.{IsAnswer, read_and_dispatch-IsDispatched}

settle-IsTracked :
    (debug : Value → Bytes) (awaiting : Awaiting) (p : Protocol)
    → IsTracked debug p
    → IsTracked debug (settle awaiting p)
unfolding settle
settle-IsTracked debug (auth t) p i = i
settle-IsTracked debug (for_xid xid) p i = resolve-IsTracked debug xid p i

module _ {ℓ} (E : Type ℓ) (hash : List ℕ → ℕ) (element_cost : ℕ) (debug : Value → Bytes) where
  -- The end of a wait, and of a call.
  abbrev pub IsEnd : Awaiting → Outcome E → Type 0
  IsEnd awaiting (got v) = IsAnswer debug (some awaiting) (some v)
  IsEnd awaiting (failed e) = Unit {0}
  IsEnd awaiting timed_out = Unit {0}

  abbrev pub IsResult : Awaiting → Result E Value → Type 0
  IsResult awaiting (ok v) = IsAnswer debug (some awaiting) (some v)
  IsResult awaiting (err e) = Unit {0}

  abbrev pub IsWaited : Awaiting → Waited E → Type 0
  IsWaited awaiting (outcome, p, arrivals) = IsTracked debug p × IsEnd awaiting outcome

  abbrev pub IsCalled : Awaiting → Result E Value × Protocol × List (Arrival E) → Type 0
  IsCalled awaiting (result, p, arrivals) = IsTracked debug p × IsResult awaiting result

  wait_loop-IsWaited :
      (awaiting : Awaiting) (arrivals : List (Arrival E)) (p : Protocol)
      → IsTracked debug p
      → IsWaited awaiting (wait_loop hash element_cost debug awaiting arrivals p)
  unfolding wait_loop
  wait_loop-IsWaited awaiting [] p i = (i, tt)
  wait_loop-IsWaited awaiting (lost e ∷ arrivals) p i = (i, tt)
  wait_loop-IsWaited awaiting (frame t payload ∷ arrivals) p i =
      let (kept, is) =
        read_and_dispatch-IsDispatched debug hash element_cost (some awaiting) t payload p i in
      elim (Option-cases
        (read_and_dispatch hash element_cost debug (some awaiting) t payload p).0) [
          | inl (v, e) ↦ rw (e, wait_loop) (kept, subst (IsAnswer debug (some awaiting)) e is)
          | inr e ↦
              rw (e, wait_loop)
                (wait_loop-IsWaited awaiting arrivals
                  (read_and_dispatch hash element_cost debug (some awaiting) t payload p).1 kept)
        ]

  pump_inner-IsWaited :
      (awaiting : Awaiting) (arrivals : List (Arrival E)) (p : Protocol)
      → IsTracked debug p
      → IsWaited awaiting (pump_inner hash element_cost debug awaiting arrivals p)
  unfolding pump_inner
  pump_inner-IsWaited (auth t) arrivals p i = wait_loop-IsWaited (auth t) arrivals p i
  pump_inner-IsWaited (for_xid xid) arrivals p i = elim (Option-cases (find_key xid p.stash)) [
    | inl (v, e) ↦
        rw (e, pump_inner)
          (
            record {
              bounded = i.bounded;
              tracked = forgotten_one debug xid p.outstanding p.stash i.tracked;
            },
            i.tracked.is_numbered xid v e,
          )
    | inr e ↦ rw (e, pump_inner) (wait_loop-IsWaited (for_xid xid) arrivals p i)
  ]

  checked-IsResult :
      (awaiting : Awaiting) (v : Value) (r : Message.Result Envelope)
      → IsAnswer debug (some awaiting) (some v)
      → IsResult awaiting (checked hash element_cost debug v r)
  unfolding checked
  checked-IsResult awaiting v (Message.err e) h = tt
  checked-IsResult awaiting v (Message.ok e) h = h

  answer-IsResult :
      (awaiting : Awaiting) (o : Outcome E)
      → IsEnd awaiting o
      → IsResult awaiting (answer hash element_cost debug awaiting o)
  unfolding answer
  answer-IsResult awaiting (got v) h =
      checked-IsResult awaiting v (message_result (from_value debug v)) h
  answer-IsResult awaiting (failed e) h = tt
  answer-IsResult awaiting timed_out h = tt

  finish-IsCalled :
      (awaiting : Awaiting) (w : Waited E)
      → IsWaited awaiting w
      → IsCalled awaiting (finish hash element_cost debug awaiting w)
  unfolding finish
  finish-IsCalled awaiting (o, p, arrivals) (i, h) =
      (settle-IsTracked debug awaiting p i, answer-IsResult awaiting o h)

  pub pump-IsCalled :
      (awaiting : Awaiting) (arrivals : List (Arrival E)) (p : Protocol)
      → IsTracked debug p
      → IsCalled awaiting (pump hash element_cost debug awaiting arrivals p)
  unfolding pump
  pump-IsCalled awaiting arrivals p i =
      finish-IsCalled awaiting (pump_inner hash element_cost debug awaiting arrivals p)
        (pump_inner-IsWaited awaiting arrivals p i)

  -- Polling for whatever comes next keeps the bookkeeping.
  pub poll_once-IsTracked :
      (arrivals : List (Arrival E)) (p : Protocol)
      → IsTracked debug p
      → IsTracked debug (poll_once hash element_cost debug arrivals p).1
  unfolding poll_once
  poll_once-IsTracked [] p i = i
  poll_once-IsTracked (lost e ∷ arrivals) p i = i
  poll_once-IsTracked (frame t payload ∷ arrivals) p i =
      (read_and_dispatch-IsDispatched debug hash element_cost none t payload p i).0

  module _ (send_frame : FrameType → Bytes → Option E) where
    send_packed-IsTracked :
        (t : FrameType) (r : Value.Result Bytes) (p : Protocol)
        → IsTracked debug p
        → IsTracked debug (send_packed send_frame t r p).1
    unfolding send_packed
    send_packed-IsTracked t (Value.err e) p i = i
    send_packed-IsTracked t (Value.ok packed) p i = elim (Option-cases (send_frame t packed)) [
      | inl (e, h) ↦ rw (h, send_packed) i
      | inr h ↦ rw (h, send_packed) (record { bounded = i.bounded; tracked = i.tracked })
    ]

    number_fields-IsTracked :
        (entries : Fields) (p : Protocol)
        → IsTracked debug p
        → IsTracked debug (number_fields entries p).1
    unfolding number_fields next_xid
    number_fields-IsTracked entries p i = elim (Bool-cases (has_xid entries)) [
      | inl h ↦ rw (h, number_fields) i
      | inr h ↦ rw (h, number_fields) (record { bounded = i.bounded; tracked = i.tracked })
    ]

    send_opack-IsTracked :
        (t : FrameType) (v : Value) (p : Protocol)
        → IsTracked debug p
        → IsTracked debug (send_opack send_frame t v p).1
    unfolding send_opack send_entries
    send_opack-IsTracked t (dict entries) p i =
        send_packed-IsTracked t (pack (dict (number_fields entries p).0))
          (number_fields entries p).1 (number_fields-IsTracked entries p i)
    send_opack-IsTracked t _ p i = i

    pump_sent-IsCalled :
        (awaiting : Awaiting) (arrivals : List (Arrival E)) (s : Result E (Unit {0}) × Protocol)
        → IsTracked debug s.1
        → IsCalled awaiting (pump_sent hash element_cost debug send_frame awaiting arrivals s)
    unfolding pump_sent
    pump_sent-IsCalled awaiting arrivals (err e, p) i = (i, tt)
    pump_sent-IsCalled awaiting arrivals (ok sent, p) i = pump-IsCalled awaiting arrivals p i

    -- An authentication exchange keeps the bookkeeping.
    pub exchange_auth-IsCalled :
        (t : FrameType) (payload : Value) (arrivals : List (Arrival E)) (p : Protocol)
        → IsTracked debug p
        → IsCalled
            (auth (response_type t))
            (exchange_auth hash element_cost debug send_frame t payload arrivals p)
    unfolding exchange_auth
    exchange_auth-IsCalled t payload arrivals p i =
        pump_sent-IsCalled (auth (response_type t)) arrivals (send_opack send_frame t payload p)
          (send_opack-IsTracked t payload p i)
