-- ===== src/Companion/Protocol/Numbering.antt =====
-- The number that a request puts into its payload.
use pyatv_rs.Prelude.{
  ℕ, ◌≡◌, ◌∙◌, refl, ap, true, false, some, Bytes, bytes_eq, bytes_eq→eq, Bool-cases, inl, inr,
  arith,
}
use pyatv_rs.Opack.Value.{Value, Fields, end, field, string, uint, is_key, find_field}
use pyatv_rs.Companion.Message.{key_xid}
use pyatv_rs.Companion.Protocol.{push_field, drop_xid, has_xid}

-- The entries with a number: it is read under the number's key, whatever stood there, and under any
-- other key what the entries have.
pub record IsNumbering (xid : ℕ) (entries fields : Fields) : Type 0 where
  pub numbered : find_field key_xid fields ≡ some (uint xid)
  pub others :
      (key : Bytes) → bytes_eq key_xid key ≡ false → find_field key fields ≡ find_field key entries

is_key-other :
    (key : Bytes) (k : Value)
    → bytes_eq key_xid key ≡ false
    → is_key key_xid k ≡ true
    → is_key key k ≡ false
unfolding is_key
is_key-other key (string s) h e = ap (λ x. bytes_eq x key) (bytes_eq→eq s key_xid e) ∙ h
is_key-other key _ h e = refl

pub numbered_lem :
    (v : Value) (fs : Fields)
    → find_field key_xid (push_field (drop_xid fs) (string key_xid) v) ≡ some v
unfolding find_field push_field drop_xid is_key
numbered_lem v end = refl
numbered_lem v (field k w fs) = elim (Bool-cases (is_key key_xid k)) [
  | inl h ↦ rw (h, drop_xid) (numbered_lem v fs)
  | inr h ↦ rw (h, drop_xid, h) (numbered_lem v fs)
]

pub others_lem :
    (key : Bytes) (v : Value) (fs : Fields)
    → bytes_eq key_xid key ≡ false
    → find_field key (push_field (drop_xid fs) (string key_xid) v) ≡ find_field key fs
unfolding find_field push_field drop_xid
others_lem key v end h = unfold is_key in rw h refl
others_lem key v (field k w fs) h = elim (Bool-cases (is_key key_xid k)) [
  | inl e ↦ rw (e, drop_xid, is_key-other key k h e) (others_lem key v fs h)
  | inr e ↦ elim (Bool-cases (is_key key k)) [
    | inl f ↦ rw (e, drop_xid, f) refl
    | inr f ↦ rw (e, drop_xid, f) (others_lem key v fs h)
  ]
]

pub has_xid-push_field :
    (v : Value) (fs : Fields) → has_xid (push_field fs (string key_xid) v) ≡ true
unfolding has_xid push_field
has_xid-push_field v end = unfold is_key in refl
has_xid-push_field v (field k w fs) = ground (arith, has_xid-push_field v fs)
