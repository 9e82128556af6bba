-- ===== src/Companion/Protocol/Dispatch.antt =====
-- Frames that arrive while a call waits, and the calls that wait for them.
use pyatv_rs.Prelude.{
  ℕ, Bool, false, ◌||◌, Option, none, some, List, [], ◌∷◌, Bytes, ◌==◌, if◌then◌else◌, find_key,
  remove_key,
}
use pyatv_rs.Opack.Value.{Value, Fields, dict, string, uint}
use pyatv_rs.Opack.Value
use pyatv_rs.Opack.De.{unpack}
use pyatv_rs.Companion.Frame.{FrameType, type_byte, is_auth, is_opack, response_type, e_opack}
use pyatv_rs.Companion.Message.{
  MessageType, event, request, response, key_xid, Envelope, to_value, request_envelope,
  event_envelope, from_value, into_result,
}
use pyatv_rs.Companion.Message
use pyatv_rs.Companion.Protocol.{
  Awaiting, auth, for_xid, payload_not_a_dict, connection, timeout, envelope, Result, ok, err,
  Protocol, next_xid, issue, resolve, stash_response, dispatch_response, dispatch_event, push_field,
  drop_xid, send_opack,
}

-- What the connection gives next: a frame that it has opened, or a failure.
pub data Arrival {ℓ} (E : Type ℓ) : Type ℓ where
  frame : FrameType → Bytes → Arrival E
  lost : E → Arrival E

-- How waiting ends.
pub data Outcome {ℓ} (E : Type ℓ) : Type ℓ where
  got : Value → Outcome E
  failed : E → Outcome E
  timed_out : Outcome E

-- What a wait leaves: its end, the protocol, and what has yet to arrive.
abbrev pub Waited {ℓ} : Type ℓ → Type ℓ
Waited E = Outcome E × Protocol × List (Arrival E)

unfoldable pub is_wanted_auth : Option Awaiting → FrameType → Bool
unfolding type_byte
is_wanted_auth (some (auth wanted)) t = type_byte wanted == type_byte t
is_wanted_auth _ t = false

unfoldable pub response_to : Option Awaiting → Envelope → Value → Protocol → Option Value × Protocol
unfolding dispatch_response stash_response
response_to none e value p = (none, stash_response e value p)
response_to (some awaiting) e value p = dispatch_response awaiting e value p

-- The kinds of message: an event goes to the channel, a response to who waits for it, and the rest is
-- ignored.
unfoldable pub dispatch_kind :
    Option MessageType → Option Awaiting → Envelope → Value → Protocol → Option Value × Protocol
unfolding dispatch_event response_to
dispatch_kind (some event) awaiting e value p = (none, dispatch_event e p)
dispatch_kind (some response) awaiting e value p = response_to awaiting e value p
dispatch_kind _ awaiting e value p = (none, p)

unfoldable pub dispatch_message :
    Option Awaiting → Message.Result Envelope → Value → Protocol → Option Value × Protocol
unfolding dispatch_kind
dispatch_message awaiting (Message.err e) value p = (none, p)
dispatch_message awaiting (Message.ok e) value p = dispatch_kind e.message_type awaiting e value p

unfoldable pub settle : Awaiting → Protocol → Protocol
unfolding resolve
settle (auth t) p = p
settle (for_xid xid) p = resolve xid p

unfoldable pub message_result : Message.Result Envelope → Message.Result Envelope
unfolding into_result
message_result (Message.err e) = Message.err e
message_result (Message.ok e) = into_result e

module _ (hash : List ℕ → ℕ) (element_cost : ℕ) (debug : Value → Bytes) where
  unfoldable pub dispatch_value :
      Option Awaiting → FrameType → Value → Protocol → Option Value × Protocol
  unfolding is_auth is_wanted_auth dispatch_message from_value
  dispatch_value awaiting t value p =
      if is_auth t
      then ((if is_wanted_auth awaiting t then some value else none), p)
      else dispatch_message awaiting (from_value debug value) value p

  unfoldable pub dispatch_unpacked :
      Option Awaiting → FrameType → Value.Result (Value × ℕ) → Protocol → Option Value × Protocol
  unfolding dispatch_value
  dispatch_unpacked awaiting t (Value.err e) p = (none, p)
  dispatch_unpacked awaiting t (Value.ok (value, consumed)) p = dispatch_value awaiting t value p

  -- `read_and_dispatch` of a frame that has been received.
  unfoldable pub read_and_dispatch :
      Option Awaiting → FrameType → Bytes → Protocol → Option Value × Protocol
  unfolding is_auth is_opack dispatch_unpacked unpack
  read_and_dispatch awaiting t payload p =
      if is_auth t || is_opack t
      then dispatch_unpacked awaiting t (unpack hash element_cost payload) p
      else (none, p)

  module _ {ℓ} {E : Type ℓ} where
    -- The loop of `pump_inner`.
    unfoldable pub wait_loop : Awaiting → List (Arrival E) → Protocol → Waited E
    unfolding read_and_dispatch
    wait_loop awaiting [] p = (timed_out, p, [])
    wait_loop awaiting (lost e ∷ arrivals) p = (failed e, p, arrivals)
    wait_loop awaiting (frame t payload ∷ arrivals) p =
        elim ((read_and_dispatch (some awaiting) t payload p).0) [
          | some value ↦ (got value, (read_and_dispatch (some awaiting) t payload p).1, arrivals)
          | none ↦ wait_loop awaiting arrivals (read_and_dispatch (some awaiting) t payload p).1
        ]

    -- `pump_inner`: a response that was stashed is taken at once.
    unfoldable pub pump_inner : Awaiting → List (Arrival E) → Protocol → Waited E
    unfolding find_key remove_key wait_loop
    pump_inner (auth t) arrivals p = wait_loop (auth t) arrivals p
    pump_inner (for_xid xid) arrivals p = elim (find_key xid p.stash) [
      | some value ↦ (got value, record p { stash = remove_key xid p.stash }, arrivals)
      | none ↦ wait_loop (for_xid xid) arrivals p
    ]

    unfoldable pub checked : Value → Message.Result Envelope → Result E Value
    checked value (Message.err e) = err (envelope e)
    checked value (Message.ok e) = ok value

    unfoldable pub answer : Awaiting → Outcome E → Result E Value
    unfolding checked message_result from_value
    answer awaiting (got value) = checked value (message_result (from_value debug value))
    answer awaiting (failed e) = err (connection e)
    answer awaiting timed_out = err (timeout awaiting)

    unfoldable pub finish : Awaiting → Waited E → Result E Value × Protocol × List (Arrival E)
    unfolding answer settle
    finish awaiting (outcome, p, arrivals) = (answer awaiting outcome, settle awaiting p, arrivals)

    unfoldable pub pump :
        Awaiting → List (Arrival E) → Protocol → Result E Value × Protocol × List (Arrival E)
    unfolding pump_inner finish
    pump awaiting arrivals p = finish awaiting (pump_inner awaiting arrivals p)

    unfoldable pub poll_once :
        List (Arrival E) → Protocol → Option (Result E (Unit {0})) × Protocol × List (Arrival E)
    unfolding read_and_dispatch
    poll_once [] p = (none, p, [])
    poll_once (lost e ∷ arrivals) p = (some (err (connection e)), p, arrivals)
    poll_once (frame t payload ∷ arrivals) p =
        (some (ok tt), (read_and_dispatch none t payload p).1, arrivals)

    module _ (send_frame : FrameType → Bytes → Option E) where
      -- A wait that is begun only when the request was sent.
      unfoldable pub pump_sent :
          Awaiting
          → List (Arrival E)
          → Result E (Unit {0}) × Protocol
          → Result E Value × Protocol × List (Arrival E)
      unfolding pump
      pump_sent awaiting arrivals (err e, p) = (err e, p, arrivals)
      pump_sent awaiting arrivals (ok sent, p) = pump awaiting arrivals p

      unfoldable pub exchange_auth :
          FrameType
          → Value
          → List (Arrival E)
          → Protocol
          → Result E Value × Protocol × List (Arrival E)
      unfolding pump_sent send_opack response_type
      exchange_auth t payload arrivals p =
          pump_sent (auth (response_type t)) arrivals (send_opack send_frame t payload p)

      unfoldable pub exchange_entries :
          FrameType
          → Fields
          → ℕ × Protocol
          → List (Arrival E)
          → Result E Value × Protocol × List (Arrival E)
      unfolding pump_sent send_opack push_field drop_xid issue
      exchange_entries t entries (xid, p) arrivals = pump_sent (for_xid xid) arrivals (
          send_opack send_frame t (dict (push_field (drop_xid entries) (string key_xid) (uint xid)))
            (issue xid p))

      unfoldable pub exchange_opack :
          FrameType
          → Value
          → List (Arrival E)
          → Protocol
          → Result E Value × Protocol × List (Arrival E)
      unfolding exchange_entries next_xid
      exchange_opack t (dict entries) arrivals p = exchange_entries t entries (next_xid p) arrivals
      exchange_opack t _ arrivals p = (err (payload_not_a_dict t), p, arrivals)

      unfoldable pub send_event : Bytes → Value → Protocol → Result E (Unit {0}) × Protocol
      unfolding send_opack to_value
      send_event identifier content p =
          send_opack send_frame e_opack (to_value (event_envelope identifier content)) p

      unfoldable pub envelope_result :
          Result E Value × Protocol × List (Arrival E)
          → Result E Envelope × Protocol × List (Arrival E)
      unfolding from_value
      envelope_result (err e, p, arrivals) = (err e, p, arrivals)
      envelope_result (ok value, p, arrivals) = elim (from_value debug value) [
        | Message.err e ↦ (err (envelope e), p, arrivals)
        | Message.ok e ↦ (ok e, p, arrivals)
      ]

      unfoldable pub send_command :
          Bytes
          → Value
          → List (Arrival E)
          → Protocol
          → Result E Envelope × Protocol × List (Arrival E)
      unfolding envelope_result exchange_opack to_value
      send_command identifier content arrivals p =
          envelope_result
            (exchange_opack e_opack (to_value (request_envelope identifier content)) arrivals p)

-- `close`, without the connection's own closing.
unfoldable pub close : Protocol → Protocol
close p = record p { outstanding = []; stash = [] }
