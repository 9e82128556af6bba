-- ===== src/Raop/Fifo.antt =====
-- crates/pyatv-proto-airplay/src/raop/fifo.rs: the backlog of sent packets. A sequence number is a
-- number under 2^16, a packet is an element of any type, and capacities of buffers have no effect.
pub mod Refine
pub mod Trace
use pyatv_rs.Prelude.{
  ℕ, ◌+◌, Bool, true, false, Option, none, some, List, [], ◌∷◌, ◌++◌, length, ltb, ◌==◌,
  if◌then◌else◌, find_key, insert_key, remove_key,
}

abbrev pub packet_backlog_size : ℕ
packet_backlog_size = 1000

-- `items` is the map of packets and `order` its keys as they were inserted, the oldest first.
pub record PacketFifo {ℓ} (P : Type ℓ) : Type ℓ where
  pub items : List (ℕ × P)
  pub order : List ℕ
  pub upper_limit : ℕ

module _ {ℓ} {P : Type ℓ} where
  unfoldable pub new : ℕ → PacketFifo P
  new upper_limit = record { items = []; order = []; upper_limit = upper_limit }

  unfoldable pub len : PacketFifo P → ℕ
  len f = length f.items

  unfoldable pub is_empty : PacketFifo P → Bool
  is_empty f = elim (f.items) [ [] ↦ true | _ ∷ _ ↦ false ]

  unfoldable pub contains_key : ℕ → PacketFifo P → Bool
  unfolding find_key
  contains_key seqno f = elim (find_key seqno f.items) [ some packet ↦ true | none ↦ false ]

  -- `pop_front` of the order, and the removal of that key from the map.
  unfoldable pub evict_oldest : PacketFifo P → PacketFifo P
  unfolding remove_key
  evict_oldest f = elim (f.order) [
    | [] ↦ f
    | oldest ∷ order ↦ record f { items = remove_key oldest f.items; order = order }
  ]

  unfoldable pub evict : PacketFifo P → PacketFifo P
  unfolding evict_oldest
  evict f = if ltb f.upper_limit (length f.items + 1) then evict_oldest f else f

  unfoldable pub store : ℕ → P → PacketFifo P → PacketFifo P
  unfolding insert_key
  store seqno packet f = record f {
    items = insert_key seqno packet f.items;
    order = f.order ++ seqno ∷ [];
  }

  unfoldable pub insert : ℕ → P → PacketFifo P → Bool × PacketFifo P
  unfolding contains_key evict store
  insert seqno packet f =
      if contains_key seqno f
      then (false, f)
      else if f.upper_limit == 0
      then (false, f)
      else (true, store seqno packet (evict f))

  unfoldable pub get : ℕ → PacketFifo P → Option P
  unfolding find_key
  get seqno f = find_key seqno f.items

  unfoldable pub clear : PacketFifo P → PacketFifo P
  clear f = record f { items = []; order = [] }
