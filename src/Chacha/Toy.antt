-- ===== src/Chacha/Toy.antt =====
-- A toy cipher in the parameter's place, and the two ends of a session under it, for tests.
use pyatv_rs.Prelude.{
  ◌-◌, ◌≡◌, refl, sym, ap, ◌∙◌, some, [], ◌∷◌, ◌++◌, Bytes, length, take, zeros, arith,
  length-append, take-append,
}
use pyatv_rs.Chacha.{Aead, IsAead, bare_counter, Cipher}
use pyatv_rs.Chacha.Stream.{IsPaired}

-- Sealing appends sixteen zeros, which opening drops again.
abbrev pub toy : Aead
unfolding zeros
toy = record {
  seal = λ key nonce' aad message. some (message ++ zeros 16);
  unseal = λ key nonce' aad sealed. some (take (length sealed - 16) sealed);
}

some_injective : (a b : Bytes) → some a ≡ some b → a ≡ b
some_injective a b h = cc

dropped :
    (message : Bytes) → take (length (message ++ zeros 16) - 16) (message ++ zeros 16) ≡ message
unfolding zeros
dropped message =
    ap (λ n. take n (message ++ zeros 16)) (omega (arith, length-append message (zeros 16)))
    ∙ take-append message (zeros 16)

pub toy-IsAead : IsAead toy
unfolding zeros
toy-IsAead = record {
  opens = λ key nonce' aad message sealed h. ap some (
      ap (λ s. take (length s - 16) s) (sym (some_injective (message ++ zeros 16) sealed h))
      ∙ dropped message);
  adds_tag = λ key nonce' aad message sealed h.
      ap length (sym (some_injective (message ++ zeros 16) sealed h))
      ∙ length-append message (zeros 16);
}

abbrev pub client : Cipher
client = record {
  out_key = 1 ∷ [];
  in_key = 2 ∷ [];
  out_counter = 5;
  in_counter = 0;
  layout = bare_counter;
}

abbrev pub device : Cipher
device = record {
  out_key = 2 ∷ [];
  in_key = 1 ∷ [];
  out_counter = 0;
  in_counter = 5;
  layout = bare_counter;
}

pub client-device-IsPaired : IsPaired client device
client-device-IsPaired = record { same_key = refl; same_counter = refl; same_layout = refl }
