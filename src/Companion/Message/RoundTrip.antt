-- ===== src/Companion/Message/RoundTrip.antt =====
-- What is sent as an envelope is read back as one.
use pyatv_rs.Prelude.{ℕ, ◌^◌, ◌<◌, ◌≡◌, sym, subst, refl, Option, none, some, Bytes, lt→ltb}
use pyatv_rs.Opack.Value.{Value, get, find_field, is_key, as_str, as_u64, as_dict}
use pyatv_rs.Companion.Message.{
  MessageType, event, request, response, code, from_code, Envelope, ok, optional_field, to_value,
  and_then, try_u32, or_empty_dict, envelope_of, from_value,
}

-- The ranges of an envelope's fields: a transaction number is a `u32`.
abbrev pub XidFits : Option ℕ → Type 0
XidFits none = Unit {0}
XidFits (some n) = n < 2 ^ 32

module _ (debug : Value → Bytes) where
  pieces :
      (i : Option Bytes) (t : Option MessageType) (x : Option ℕ) (c : Value)
      → XidFits x
      → from_value debug (
          to_value
            (record { identifier = i; message_type = t; xid = x; content = c; error = none }))
        ≡ ok (record { identifier = i; message_type = t; xid = x; content = c; error = none })
  unfolding from_value to_value envelope_of optional_field get find_field is_key as_str as_u64
      as_dict and_then try_u32 or_empty_dict from_code code
  pieces none none none c x = refl
  pieces none none (some n) c x = rw (lt→ltb n (2 ^ 32) x) refl
  pieces none (some event) none c x = refl
  pieces none (some event) (some n) c x = rw (lt→ltb n (2 ^ 32) x) refl
  pieces none (some request) none c x = refl
  pieces none (some request) (some n) c x = rw (lt→ltb n (2 ^ 32) x) refl
  pieces none (some response) none c x = refl
  pieces none (some response) (some n) c x = rw (lt→ltb n (2 ^ 32) x) refl
  pieces (some s) none none c x = refl
  pieces (some s) none (some n) c x = rw (lt→ltb n (2 ^ 32) x) refl
  pieces (some s) (some event) none c x = refl
  pieces (some s) (some event) (some n) c x = rw (lt→ltb n (2 ^ 32) x) refl
  pieces (some s) (some request) none c x = refl
  pieces (some s) (some request) (some n) c x = rw (lt→ltb n (2 ^ 32) x) refl
  pieces (some s) (some response) none c x = refl
  pieces (some s) (some response) (some n) c x = rw (lt→ltb n (2 ^ 32) x) refl

  -- An envelope without an error that is sent is received as it was, whichever of its fields it has;
  -- its transaction number, if it has one, is a `u32`.
  pub from_value-to_value :
      (e : Envelope) → e.error ≡ none → XidFits e.xid → from_value debug (to_value e) ≡ ok e
  from_value-to_value e h x =
      subst
        (λ o. from_value debug (to_value (record e { error = o })) ≡ ok (record e { error = o }))
        (sym h) (pieces e.identifier e.message_type e.xid e.content x)
