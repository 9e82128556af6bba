-- ===== src/Companion/Protocol.antt =====
-- crates/pyatv-proto-companion/src/protocol.rs: requests and their responses over the frames of one
-- connection. What arrives while a call waits is a list, whose end is the time limit; whether a frame
-- can be sent is a parameter, as are the hasher and the element size of the OPACK decoder and the
-- text of a value. `start`, which runs the pairing, is left out.
pub mod Dispatch
pub mod Tracked
pub mod Answered
pub mod Answers
pub mod Calls
pub mod Kept
pub mod Numbering
pub mod Exchange
use pyatv_rs.Prelude.{
  ℕ, ◌+◌, ◌%◌, ◌^◌, Bool, true, false, ◌||◌, Option, none, some, List, [], ◌∷◌, ◌++◌, Bytes, length,
  leb, ◌==◌, if◌then◌else◌, find_key, insert_key, remove_key,
}
use pyatv_rs.Opack.Value.{Value, Fields, dict, end, field, string, uint, is_key}
use pyatv_rs.Opack.Value
use pyatv_rs.Opack.Ser.{pack}
use pyatv_rs.Companion.Frame.{FrameType, response_type, e_opack}
use pyatv_rs.Companion.Message.{
  key_xid, Envelope, to_value, request_envelope, event_envelope, from_value, into_result,
}
use pyatv_rs.Companion.Message

abbrev pub max_outstanding : ℕ
max_outstanding = 16

pub record CompanionEvent : Type 0 where
  pub name : Bytes
  pub content : Value

pub data Awaiting : Type 0 where
  auth : FrameType → Awaiting
  for_xid : ℕ → Awaiting

-- The errors of this file; `E` is what the connection can fail with.
pub data Error {ℓ} (E : Type ℓ) : Type ℓ where
  payload_not_a_dict : FrameType → Error E
  opack : Value.Error → Error E
  connection : E → Error E
  timeout : Awaiting → Error E
  envelope : Message.Error → Error E

pub data Result {ℓ κ} (E : Type ℓ) (A : Type κ) : Type (ℓ ⊔ κ) where
  ok : A → Result E A
  err : Error E → Result E A

-- `events` and `sent` are what went into the channel and over the connection, in order.
pub record Protocol : Type 0 where
  pub xid : ℕ
  pub outstanding : List ℕ
  pub stash : List (ℕ × Value)
  pub events : List CompanionEvent
  pub sent : List (FrameType × Bytes)

unfoldable pub with_xid : ℕ → Protocol
with_xid xid = record { xid = xid; outstanding = []; stash = []; events = []; sent = [] }

-- `wrapping_add` on `u32`.
unfoldable pub next_xid : Protocol → ℕ × Protocol
next_xid p = (p.xid, record p { xid = (p.xid + 1) % 2 ^ 32 })

-- The loop that forgets the oldest numbers, and what was stashed for them.
unfoldable pub forget : List ℕ → List (ℕ × Value) → List ℕ × List (ℕ × Value)
unfolding remove_key
forget [] stash = ([], stash)
forget (x ∷ xs) stash = elim (leb max_outstanding (length (x ∷ xs))) [
  | true ↦ forget xs (remove_key x stash)
  | false ↦ (x ∷ xs, stash)
]

unfoldable pub issue : ℕ → Protocol → Protocol
unfolding forget
issue xid p =
    let (outstanding, stash) = forget p.outstanding p.stash in
    record p { outstanding = outstanding ++ xid ∷ []; stash = stash }

unfoldable pub retain_other : ℕ → List ℕ → List ℕ
retain_other xid [] = []
retain_other xid (x ∷ xs) = let rest = retain_other xid xs in if x == xid then rest else x ∷ rest

unfoldable pub resolve : ℕ → Protocol → Protocol
unfolding retain_other remove_key
resolve xid p = record p {
  outstanding = retain_other xid p.outstanding;
  stash = remove_key xid p.stash;
}

unfoldable pub is_outstanding : ℕ → List ℕ → Bool
is_outstanding xid [] = false
is_outstanding xid (x ∷ xs) = (x == xid) || is_outstanding xid xs

unfoldable pub stash_response : Envelope → Value → Protocol → Protocol
unfolding is_outstanding insert_key
stash_response e value p = elim (e.xid) [
  | none ↦ p
  | some xid ↦
      if is_outstanding xid p.outstanding
      then record p { stash = insert_key xid value p.stash }
      else p
]

unfoldable pub is_awaited : Awaiting → ℕ → Bool
is_awaited (auth t) xid = false
is_awaited (for_xid wanted) xid = wanted == xid

unfoldable pub dispatch_response : Awaiting → Envelope → Value → Protocol → Option Value × Protocol
unfolding is_awaited stash_response
dispatch_response awaiting e value p = elim (e.xid) [
  | none ↦ (none, p)
  | some xid ↦ if is_awaited awaiting xid then (some value, p) else (none, stash_response e value p)
]

unfoldable pub dispatch_event : Envelope → Protocol → Protocol
dispatch_event e p = elim (e.identifier) [
  | none ↦ p
  | some name ↦ record p { events = p.events ++ record { name = name; content = e.content } ∷ [] }
]

unfoldable pub has_xid : Fields → Bool
unfolding is_key
has_xid end = false
has_xid (field k v fs) = is_key key_xid k || has_xid fs

unfoldable pub push_field : Fields → Value → Value → Fields
push_field end k v = field k v end
push_field (field j w fs) k v = field j w (push_field fs k v)

-- `entries.retain(..)`: every entry but those under the number's key.
unfoldable pub drop_xid : Fields → Fields
unfolding is_key
drop_xid end = end
drop_xid (field k v fs) =
    let rest = drop_xid fs in if is_key key_xid k then rest else field k v rest

unfoldable pub number_fields : Fields → Protocol → Fields × Protocol
unfolding has_xid push_field next_xid
number_fields entries p =
    if has_xid entries
    then (entries, p)
    else (push_field entries (string key_xid) (uint (next_xid p).0), (next_xid p).1)

module _ {ℓ} {E : Type ℓ} (send_frame : FrameType → Bytes → Option E) where
  unfoldable pub send_packed :
      FrameType → Value.Result Bytes → Protocol → Result E (Unit {0}) × Protocol
  send_packed t (Value.err e) p = (err (opack e), p)
  send_packed t (Value.ok packed) p = elim (send_frame t packed) [
    | some e ↦ (err (connection e), p)
    | none ↦ (ok tt, record p { sent = p.sent ++ (t, packed) ∷ [] })
  ]

  unfoldable pub send_entries : FrameType → Fields × Protocol → Result E (Unit {0}) × Protocol
  unfolding pack send_packed
  send_entries t (entries, p) = send_packed t (pack (dict entries)) p

  unfoldable pub send_opack : FrameType → Value → Protocol → Result E (Unit {0}) × Protocol
  unfolding number_fields send_entries
  send_opack t (dict entries) p = send_entries t (number_fields entries p)
  send_opack t _ p = (err (payload_not_a_dict t), p)
