-- ===== src/Companion/Protocol/Kept.antt =====
-- What arrives changes neither the next number nor what was sent.
use pyatv_rs.Prelude.{
  ℕ, ◌≡◌, ◌∙◌, refl, false, ◌||◌, Option, none, some, List, [], ◌∷◌, Bytes, find_key, remove_key,
  find_key-remove_key, Bool-cases, Option-cases, inl, inr, arith,
}
use pyatv_rs.Opack.Value.{Value}
use pyatv_rs.Opack.Value
use pyatv_rs.Opack.De.{unpack}
use pyatv_rs.Companion.Frame.{FrameType, is_auth, is_opack}
use pyatv_rs.Companion.Message.{MessageType, event, request, response, Envelope, from_value}
use pyatv_rs.Companion.Message
use pyatv_rs.Companion.Protocol.{
  Awaiting, for_xid, Protocol, dispatch_response, dispatch_event, is_awaited, stash_response,
  is_outstanding, retain_other, resolve,
}
use pyatv_rs.Companion.Protocol.Dispatch.{
  Arrival, frame, lost, response_to, dispatch_kind, dispatch_message, dispatch_value,
  dispatch_unpacked, read_and_dispatch, wait_loop, pump_inner, settle, finish, pump,
}

-- The next number and what was sent are the same.
pub record IsKept (p p' : Protocol) : Type 0 where
  pub number : p'.xid ≡ p.xid
  pub sent : p'.sent ≡ p.sent

unchanged : (p : Protocol) → IsKept p p
unchanged p = record { number = refl; sent = refl }

pub IsKept-trans : (p q r : Protocol) → IsKept p q → IsKept q r → IsKept p r
IsKept-trans p q r k l = record { number = l.number ∙ k.number; sent = l.sent ∙ k.sent }

stash_response-IsKept :
    (e : Envelope) (value : Value) (p : Protocol) → IsKept p (stash_response e value p)
unfolding stash_response
stash_response-IsKept e value p = elim (Option-cases (e.xid)) [
  | inr n ↦ rw (n, stash_response) (unchanged p)
  | inl (xid, n) ↦ elim (Bool-cases (is_outstanding xid p.outstanding)) [
    | inl o ↦ rw (n, stash_response, o) (record { number = refl; sent = refl })
    | inr o ↦ rw (n, stash_response, o) (unchanged p)
  ]
]

response_to-IsKept :
    (awaiting : Option Awaiting) (e : Envelope) (value : Value) (p : Protocol)
    → IsKept p (response_to awaiting e value p).1
unfolding response_to dispatch_response
response_to-IsKept none e value p = stash_response-IsKept e value p
response_to-IsKept (some awaiting) e value p = elim (Option-cases (e.xid)) [
  | inr n ↦ rw (n, dispatch_response) (unchanged p)
  | inl (xid, n) ↦ elim (Bool-cases (is_awaited awaiting xid)) [
    | inl a ↦ rw (n, dispatch_response, a) (unchanged p)
    | inr a ↦ rw (n, dispatch_response, a) (stash_response-IsKept e value p)
  ]
]

dispatch_event-IsKept : (e : Envelope) (p : Protocol) → IsKept p (dispatch_event e p)
unfolding dispatch_event
dispatch_event-IsKept e p = elim (Option-cases (e.identifier)) [
  | inr n ↦ rw (n, dispatch_event) (unchanged p)
  | inl (name, n) ↦ rw (n, dispatch_event) (record { number = refl; sent = refl })
]

dispatch_kind-IsKept :
    (awaiting : Option Awaiting) (e : Envelope) (value : Value) (p : Protocol)
    (o : Option MessageType)
    → IsKept p (dispatch_kind o awaiting e value p).1
unfolding dispatch_kind
dispatch_kind-IsKept awaiting e value p none = unchanged p
dispatch_kind-IsKept awaiting e value p (some event) = dispatch_event-IsKept e p
dispatch_kind-IsKept awaiting e value p (some request) = unchanged p
dispatch_kind-IsKept awaiting e value p (some response) = response_to-IsKept awaiting e value p

dispatch_message-IsKept :
    (awaiting : Option Awaiting) (o : Message.Result Envelope) (value : Value) (p : Protocol)
    → IsKept p (dispatch_message awaiting o value p).1
unfolding dispatch_message
dispatch_message-IsKept awaiting (Message.err e) value p = unchanged p
dispatch_message-IsKept awaiting (Message.ok e) value p =
    dispatch_kind-IsKept awaiting e value p (e.message_type)

-- A number that is finished with: a late response to it is dropped.
pub record IsReleased (xid : ℕ) (p : Protocol) : Type 0 where
  pub outstanding : is_outstanding xid p.outstanding ≡ false
  pub stash : find_key xid p.stash ≡ none

retained : (xid : ℕ) (xs : List ℕ) → is_outstanding xid (retain_other xid xs) ≡ false
unfolding is_outstanding retain_other
retained xid [] = refl
retained xid (x ∷ xs) = ground (arith, retained xid xs)

removed : (xid : ℕ) (m : List (ℕ × Value)) → find_key xid (remove_key xid m) ≡ none
removed xid m = ground (arith, find_key-remove_key xid xid m)

module _ (hash : List ℕ → ℕ) (element_cost : ℕ) (debug : Value → Bytes) where
  dispatch_unpacked-IsKept :
      (awaiting : Option Awaiting) (t : FrameType) (o : Value.Result (Value × ℕ)) (p : Protocol)
      → IsKept p (dispatch_unpacked hash element_cost debug awaiting t o p).1
  unfolding dispatch_unpacked dispatch_value
  dispatch_unpacked-IsKept awaiting t (Value.err e) p = unchanged p
  dispatch_unpacked-IsKept awaiting t (Value.ok (value, n)) p = elim (Bool-cases (is_auth t)) [
    | inl a ↦ rw (a, dispatch_value) (unchanged p)
    | inr a ↦
        rw (a, dispatch_value) (dispatch_message-IsKept awaiting (from_value debug value) value p)
  ]

  read_and_dispatch-IsKept :
      (awaiting : Option Awaiting) (t : FrameType) (payload : Bytes) (p : Protocol)
      → IsKept p (read_and_dispatch hash element_cost debug awaiting t payload p).1
  unfolding read_and_dispatch
  read_and_dispatch-IsKept awaiting t payload p = elim (Bool-cases (is_auth t || is_opack t)) [
    | inl a ↦
        rw (a, read_and_dispatch)
          (dispatch_unpacked-IsKept awaiting t (unpack hash element_cost payload) p)
    | inr a ↦ rw (a, read_and_dispatch) (unchanged p)
  ]

  module _ {ℓ} (E : Type ℓ) where
    wait_loop-IsKept :
        (awaiting : Awaiting) (arrivals : List (Arrival E)) (p : Protocol)
        → IsKept p (wait_loop hash element_cost debug awaiting arrivals p).1
    unfolding wait_loop
    wait_loop-IsKept awaiting [] p = unchanged p
    wait_loop-IsKept awaiting (lost e ∷ arrivals) p = unchanged p
    wait_loop-IsKept awaiting (frame t payload ∷ arrivals) p =
        elim (Option-cases
          (read_and_dispatch hash element_cost debug (some awaiting) t payload p).0) [
            | inl (v, e) ↦ rw (e, wait_loop) (read_and_dispatch-IsKept (some awaiting) t payload p)
            | inr e ↦
                rw (e, wait_loop)
                  (IsKept-trans p
                    (read_and_dispatch hash element_cost debug (some awaiting) t payload p).1
                    (wait_loop hash element_cost debug awaiting arrivals
                      (read_and_dispatch hash element_cost debug (some awaiting) t payload p).1).1
                    (read_and_dispatch-IsKept (some awaiting) t payload p)
                    (wait_loop-IsKept awaiting arrivals
                      (read_and_dispatch hash element_cost debug (some awaiting) t payload p).1))
          ]

    pump_inner-IsKept :
        (xid : ℕ) (arrivals : List (Arrival E)) (p : Protocol)
        → IsKept p (pump_inner hash element_cost debug (for_xid xid) arrivals p).1
    unfolding pump_inner
    pump_inner-IsKept xid arrivals p = elim (Option-cases (find_key xid p.stash)) [
      | inl (v, h) ↦ rw (h, pump_inner) (record { number = refl; sent = refl })
      | inr h ↦ rw (h, pump_inner) (wait_loop-IsKept (for_xid xid) arrivals p)
    ]

    pub pump-IsKept :
        (xid : ℕ) (arrivals : List (Arrival E)) (p : Protocol)
        → IsKept p (pump hash element_cost debug (for_xid xid) arrivals p).1
          × IsReleased xid (pump hash element_cost debug (for_xid xid) arrivals p).1
    unfolding pump finish settle resolve
    pump-IsKept xid arrivals p =
        let kept : IsKept p (pump_inner hash element_cost debug (for_xid xid) arrivals p).1 =
          pump_inner-IsKept xid arrivals p in
        (
          record { number = kept.number; sent = kept.sent },
          record {
            outstanding =
                retained xid
                  (pump_inner hash element_cost debug (for_xid xid) arrivals p).1.outstanding;
            stash =
                removed xid (pump_inner hash element_cost debug (for_xid xid) arrivals p).1.stash;
          },
        )
