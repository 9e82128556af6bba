-- ===== src/Companion/Protocol/Answers.antt =====
-- Calls keep the bookkeeping, and a request is answered by its own response.
use pyatv_rs.Prelude.{
  ℕ, ◌≡◌, ◌∙◌, sym, ap, refl, true, ◌||◌, Option, none, some, List, Bytes, if◌then◌else◌,
  Bool-cases, Option-cases, inl, inr, ==→eq,
}
use pyatv_rs.Opack.Value.{Value, Fields, dict, string, uint}
use pyatv_rs.Opack.Value
use pyatv_rs.Opack.De.{unpack}
use pyatv_rs.Companion.Frame.{FrameType, is_auth, is_opack}
use pyatv_rs.Companion.Message.{MessageType, event, request, response, Envelope, from_value}
use pyatv_rs.Companion.Message
use pyatv_rs.Companion.Protocol.{
  Awaiting, auth, for_xid, Protocol, dispatch_response, dispatch_event, is_awaited,
}
use pyatv_rs.Companion.Protocol.Dispatch.{
  is_wanted_auth, response_to, dispatch_kind, dispatch_message, dispatch_value, dispatch_unpacked,
  read_and_dispatch,
}
use pyatv_rs.Companion.Protocol.Tracked.{IsNumbered, IsTracked, stash_response-IsTracked}

module _ (debug : Value → Bytes) where
  -- A value that a wait for a number ends with is a message with that number.
  abbrev pub IsAnswer : Option Awaiting → Option Value → Type 0
  IsAnswer awaiting none = Unit {0}
  IsAnswer none (some v) = Unit {0}
  IsAnswer (some (auth t)) (some v) = Unit {0}
  IsAnswer (some (for_xid xid)) (some v) = IsNumbered debug xid v

  abbrev pub IsDispatched : Option Awaiting → Option Value × Protocol → Type 0
  IsDispatched awaiting (o, p) = IsTracked debug p × IsAnswer awaiting o

  awaited :
      (awaiting : Awaiting) (xid : ℕ) (e : Envelope) (value : Value)
      → from_value debug value ≡ Message.ok e
      → e.xid ≡ some xid
      → is_awaited awaiting xid ≡ true
      → IsAnswer (some awaiting) (some value)
  unfolding is_awaited
  awaited (auth t) xid e value reads n h = tt
  awaited (for_xid wanted) xid e value reads n h = record {
    message = e;
    reads = reads;
    number = n ∙ ap some (sym (==→eq wanted xid h));
  }

  dispatch_response-IsDispatched :
      (awaiting : Awaiting) (e : Envelope) (value : Value) (p : Protocol)
      → from_value debug value ≡ Message.ok e
      → IsTracked debug p
      → IsDispatched (some awaiting) (dispatch_response awaiting e value p)
  unfolding dispatch_response
  dispatch_response-IsDispatched awaiting e value p reads t = elim (Option-cases (e.xid)) [
    | inr n ↦ rw (n, dispatch_response) (t, tt)
    | inl (xid, n) ↦ elim (Bool-cases (is_awaited awaiting xid)) [
      | inl a ↦ rw (n, dispatch_response, a) (t, awaited awaiting xid e value reads n a)
      | inr a ↦ rw (n, dispatch_response, a) (stash_response-IsTracked debug e value p reads t, tt)
    ]
  ]

  response_to-IsDispatched :
      (awaiting : Option Awaiting) (e : Envelope) (value : Value) (p : Protocol)
      → from_value debug value ≡ Message.ok e
      → IsTracked debug p
      → IsDispatched awaiting (response_to awaiting e value p)
  unfolding response_to
  response_to-IsDispatched none e value p reads t =
      (stash_response-IsTracked debug e value p reads t, tt)
  response_to-IsDispatched (some awaiting) e value p reads t =
      dispatch_response-IsDispatched awaiting e value p reads t

  dispatch_event-IsTracked :
      (e : Envelope) (p : Protocol) → IsTracked debug p → IsTracked debug (dispatch_event e p)
  unfolding dispatch_event
  dispatch_event-IsTracked e p t = elim (Option-cases (e.identifier)) [
    | inr n ↦ rw (n, dispatch_event) t
    | inl (name, n) ↦ rw (n, dispatch_event) (record { bounded = t.bounded; tracked = t.tracked })
  ]

  dispatch_kind-IsDispatched :
      (kind : Option MessageType) (awaiting : Option Awaiting) (e : Envelope) (value : Value)
      (p : Protocol)
      → from_value debug value ≡ Message.ok e
      → IsTracked debug p
      → IsDispatched awaiting (dispatch_kind kind awaiting e value p)
  unfolding dispatch_kind
  dispatch_kind-IsDispatched none awaiting e value p reads t = (t, tt)
  dispatch_kind-IsDispatched (some event) awaiting e value p reads t =
      (dispatch_event-IsTracked e p t, tt)
  dispatch_kind-IsDispatched (some request) awaiting e value p reads t = (t, tt)
  dispatch_kind-IsDispatched (some response) awaiting e value p reads t =
      response_to-IsDispatched awaiting e value p reads t

  dispatch_message-IsDispatched :
      (awaiting : Option Awaiting) (read : Message.Result Envelope) (value : Value) (p : Protocol)
      → from_value debug value ≡ read
      → IsTracked debug p
      → IsDispatched awaiting (dispatch_message awaiting read value p)
  unfolding dispatch_message
  dispatch_message-IsDispatched awaiting (Message.err e) value p reads t = (t, tt)
  dispatch_message-IsDispatched awaiting (Message.ok e) value p reads t =
      dispatch_kind-IsDispatched e.message_type awaiting e value p reads t

  any_auth : (wanted : FrameType) (o : Option Value) → IsAnswer (some (auth wanted)) o
  any_auth wanted none = tt
  any_auth wanted (some v) = tt

  module _ (hash : List ℕ → ℕ) (element_cost : ℕ) where
    auth_answered :
        (awaiting : Option Awaiting) (t : FrameType) (value : Value)
        → IsAnswer awaiting (if is_wanted_auth awaiting t then some value else none)
    unfolding is_wanted_auth
    auth_answered none t value = tt
    auth_answered (some (auth wanted)) t value =
        any_auth wanted (if is_wanted_auth (some (auth wanted)) t then some value else none)
    auth_answered (some (for_xid xid)) t value = tt

    dispatch_value-IsDispatched :
        (awaiting : Option Awaiting) (t : FrameType) (value : Value) (p : Protocol)
        → IsTracked debug p
        → IsDispatched awaiting (dispatch_value hash element_cost debug awaiting t value p)
    unfolding dispatch_value
    dispatch_value-IsDispatched awaiting t value p i = elim (Bool-cases (is_auth t)) [
      | inl a ↦ rw (a, dispatch_value) (i, auth_answered awaiting t value)
      | inr a ↦
          rw (a, dispatch_value)
            (dispatch_message-IsDispatched awaiting (from_value debug value) value p refl i)
    ]

    dispatch_unpacked-IsDispatched :
        (awaiting : Option Awaiting) (t : FrameType) (r : Value.Result (Value × ℕ)) (p : Protocol)
        → IsTracked debug p
        → IsDispatched awaiting (dispatch_unpacked hash element_cost debug awaiting t r p)
    unfolding dispatch_unpacked
    dispatch_unpacked-IsDispatched awaiting t (Value.err e) p i = (i, tt)
    dispatch_unpacked-IsDispatched awaiting t (Value.ok (value, n)) p i =
        dispatch_value-IsDispatched awaiting t value p i

    pub read_and_dispatch-IsDispatched :
        (awaiting : Option Awaiting) (t : FrameType) (payload : Bytes) (p : Protocol)
        → IsTracked debug p
        → IsDispatched awaiting (read_and_dispatch hash element_cost debug awaiting t payload p)
    unfolding read_and_dispatch
    read_and_dispatch-IsDispatched awaiting t payload p i =
        elim (Bool-cases (is_auth t || is_opack t)) [
          | inl a ↦
              rw (a, read_and_dispatch)
                (dispatch_unpacked-IsDispatched awaiting t (unpack hash element_cost payload) p i)
          | inr a ↦ rw (a, read_and_dispatch) (i, tt)
        ]
