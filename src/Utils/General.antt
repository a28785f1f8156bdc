-- ===== src/Utils/General.antt =====
-- What ToCfxGeneralAddress and Keccak256 of utils/crypto.go do to addresses and texts.
use go_conflux_sdk.Base.{
  ℕ, ◌+◌, ◌/◌, ◌%◌, ◌<◌, ◌≡◌, ◌↔◌, refl, sym, ap, ◌∙◌, [], ◌∷◌, ◌++◌, arith, Bytes, AllBytes, codes,
  text_eq_refl,
}
use go_conflux_sdk.Result.{ok}
use go_conflux_sdk.Hex.{encode_to_string, decode_string-encode}
use go_conflux_sdk.Ethereum.{Ethereum, IsAddress, HexLaws}
use go_conflux_sdk.Utils.{general_bytes, to_cfx_general_address, keccak256_hex, general_byte}

pub general_bytes_lem : (b : ℕ) (bs : Bytes) → b < 256 → general_bytes (b ∷ bs) ≡ (16 + b % 16) ∷ bs
unfolding general_bytes
general_bytes_lem b bs h = ap (λ (x : ℕ). x ∷ bs) (general_byte b h)

pub general_bytes-IsAddress : (a : Bytes) → IsAddress a → IsAddress (general_bytes a)
general_bytes-IsAddress [] h = absurd (omega (arith, h.length_eq))
general_bytes-IsAddress (b ∷ bs) h =
    rw (general_bytes_lem b bs h.all_bytes.0)
      (record { length_eq = h.length_eq; all_bytes = (omega arith, h.all_bytes.1) })

-- The high half of the first byte.
abbrev pub first_nibble : Bytes → ℕ
first_nibble [] = 1
first_nibble (b ∷ bs) = b / 16

pub general_bytes-first_nibble : (a : Bytes) → IsAddress a → first_nibble (general_bytes a) ≡ 1
general_bytes-first_nibble [] h = absurd (omega (arith, h.length_eq))
general_bytes-first_nibble (b ∷ bs) h = rw (general_bytes_lem b bs h.all_bytes.0) (omega arith)

head_eq : {b c : ℕ} {bs cs : Bytes} → b ∷ bs ≡ c ∷ cs → b ≡ c
head_eq e = cc

-- An address is its own general address exactly if its first hex digit is 1.
pub general_bytes-eq_self_iff :
    (a : Bytes) → IsAddress a → (general_bytes a ≡ a) ↔ (first_nibble a ≡ 1)
general_bytes-eq_self_iff [] h = absurd (omega (arith, h.length_eq))
general_bytes-eq_self_iff (b ∷ bs) h = (
  λ e.
      let f : 16 + b % 16 ≡ b = head_eq (sym (general_bytes_lem b bs h.all_bytes.0) ∙ e) in
      omega (arith, h.all_bytes.0),
  λ e.
      let f : 16 + b % 16 ≡ b = omega (arith, h.all_bytes.0) in
      general_bytes_lem b bs h.all_bytes.0 ∙ ap (λ (x : ℕ). x ∷ bs) f,
)

-- Two addresses have one general address exactly if they agree behind the first hex digit.
abbrev pub SameTail : Bytes → Bytes → Type 0
SameTail [] [] = Unit
SameTail (b ∷ bs) (c ∷ cs) = (b % 16 ≡ c % 16) × (bs ≡ cs)
SameTail _ _ = ⊥

general_address_lem :
    (E : Ethereum) (a : Bytes) → to_cfx_general_address E a ≡ E.hex_encode (general_bytes a)
unfolding to_cfx_general_address
general_address_lem E a = refl

module _ (E : Ethereum) (hex : HexLaws E) where
  -- The general address of an address spells 20 bytes whose first hex digit is 1; taking the general
  -- address of those bytes again changes nothing.
  pub general_address_idem :
      (a : Bytes)
      → IsAddress a
      → (first_nibble (E.hex_to_address (to_cfx_general_address E a)) ≡ 1)
        × (to_cfx_general_address E (E.hex_to_address (to_cfx_general_address E a))
            ≡ to_cfx_general_address E a)
  general_address_idem a h =
      let g = general_bytes-IsAddress a h in
      let back : E.hex_to_address (to_cfx_general_address E a) ≡ general_bytes a =
        rw (general_address_lem E a) (hex.address-encode (general_bytes a) g) in
      let one = general_bytes-first_nibble a h in
      (
        rw back one,
        rw back (
            rw (general_address_lem E (general_bytes a), general_address_lem E a)
              (ap E.hex_encode ((general_bytes-eq_self_iff (general_bytes a) g).1 one))),
      )

  -- Two addresses get the same general address exactly if they agree on all digits but the first:
  -- what the first digit was is lost, and nothing else.
  pub general_address-eq_iff :
      (a b : Bytes)
      → IsAddress a
      → IsAddress b
      → (to_cfx_general_address E a ≡ to_cfx_general_address E b) ↔ SameTail a b
  general_address-eq_iff [] _ ha hb = absurd (omega (arith, ha.length_eq))
  general_address-eq_iff (x ∷ xs) [] ha hb = absurd (omega (arith, hb.length_eq))
  general_address-eq_iff (x ∷ xs) (y ∷ ys) ha hb =
      let gx = general_bytes_lem x xs ha.all_bytes.0 in
      let gy = general_bytes_lem y ys hb.all_bytes.0 in
      rw (general_address_lem E (x ∷ xs), general_address_lem E (y ∷ ys))
        (
          λ e.
              let f : (16 + x % 16) ∷ xs ≡ (16 + y % 16) ∷ ys =
                sym gx
                ∙ sym (hex.address-encode _ (general_bytes-IsAddress (x ∷ xs) ha))
                ∙ ap E.hex_to_address e
                ∙ hex.address-encode _ (general_bytes-IsAddress (y ∷ ys) hb)
                ∙ gy in
              let g = head_eq f in (omega arith, cc f),
          λ s.
              let f : (16 + x % 16) ∷ xs ≡ (16 + y % 16) ∷ ys = rw (s.0, s.1) in
              ap E.hex_encode (gx ∙ f ∙ sym gy),
        )

-- The hash of the hex spelling of bytes is the hex spelling of their Keccak hash.
pub keccak256-encode :
    (E : Ethereum) (bs : Bytes)
    → AllBytes bs
    → keccak256_hex E (codes "0x" ++ encode_to_string bs)
      ≡ ok (codes "0x" ++ encode_to_string (E.keccak256 bs))
unfolding keccak256_hex
keccak256-encode E bs h = rw (text_eq_refl (codes "0x"), decode_string-encode bs h)
