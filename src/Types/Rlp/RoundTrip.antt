-- ===== src/Types/Rlp/RoundTrip.antt =====
-- Encode, Decode and EncodeWithSignature of types/transaction_unsigned.go and
-- types/transaction_signed.go, there and back.
use go_conflux_sdk.Base.{ℕ, zero, suc, ◌<◌, ◌≡◌, Option, none, Bytes, AllBytes, map, lower, arith}
use go_conflux_sdk.Base.BigBytes.{bytes, set_bytes, trim, bytes_one, bytes-set_bytes}
use go_conflux_sdk.Result.{ok, panic}
use go_conflux_sdk.Ethereum.{Ethereum, HexLaws}
use go_conflux_sdk.Types.Address.{Address}
use go_conflux_sdk.Types.Rlp.{
  Rlp, RlpLaws, Complete, complete_tx, signed_struct, encode_unsigned_tx, decode_unsigned_tx,
  encode_with_signature, decode_signed_tx,
}

module _ (E : Ethereum) where
  -- The spelling in which an address comes back: the lower-case print of its 20 bytes.
  abbrev pub respelled : Address → Address
  respelled a = map lower (E.address_hex (E.hex_to_address a))

  module _ (R : Rlp) (hex : HexLaws E) (rlp : RlpLaws R) where
    -- A transaction with all numbers set and not negative and with a recipient is encoded without
    -- an error, and decoding gives it back with no sender and with the recipient's address respelled.
    pub decode-encode :
        (c : Complete) (from : Option Address) (to : Address)
        → AllBytes c.tx_data
        → (raw : Bytes) × (encode_unsigned_tx E R (complete_tx c from to) ≡ ok raw)
          × (decode_unsigned_tx E R raw ≡ ok (complete_tx c none (respelled to)))
    unfolding encode_unsigned_tx decode_unsigned_tx
    decode-encode c from to bs =
        let (raw, enc, dec) = rlp.unsigned_law c (E.hex_to_address to) (hex.IsAddress-hex to) bs in
        (raw, rw enc, rw dec)

    -- The address read from the respelled recipient is the address that was sent to.
    pub respelled_address : (to : Address) → E.hex_to_address (respelled to) ≡ E.hex_to_address to
    respelled_address to = hex.address-lower (E.hex_to_address to) (hex.IsAddress-hex to)

    signed_encoded :
        (c : Complete) (from : Option Address) (to : Address) (v : ℕ) (r s : Bytes)
        → AllBytes c.tx_data
        → (raw : Bytes) × (encode_with_signature E R (complete_tx c from to) v r s ≡ ok raw)
          × (R.decode_signed raw
              ≡ ok (signed_struct c (E.hex_to_address to) v (set_bytes r) (set_bytes s)))
    unfolding encode_with_signature
    signed_encoded c from to v r s bs =
        let (raw, enc, dec) =
          rlp.signed_law c (E.hex_to_address to) v (set_bytes r) (set_bytes s)
            (hex.IsAddress-hex to) bs in
        (raw, rw enc, dec)

    -- A transaction encoded with a signature whose v is a byte other than 0 decodes to the same
    -- transaction (with no sender, the recipient respelled) and the same v; r and s come back without
    -- their leading zero bytes.
    pub decode-encode_signed :
        (c : Complete) (from : Option Address) (to : Address) (v : ℕ) (r s : Bytes)
        → AllBytes c.tx_data
        → 0 < v
        → v < 256
        → AllBytes r
        → AllBytes s
        → (raw : Bytes) × (encode_with_signature E R (complete_tx c from to) v r s ≡ ok raw)
          × (decode_signed_tx E R raw
              ≡ ok (record {
                unsigned = complete_tx c none (respelled to);
                v = v;
                r = trim r;
                s = trim s;
              }))
    decode-encode_signed c from to zero r s _ h _ _ _ = absurd (omega arith)
    decode-encode_signed c from to (suc v) r s bs h hv hr hs =
        let (raw, enc, dec) = signed_encoded c from to (suc v) r s bs in
        (
          raw,
          enc,
          unfold decode_signed_tx in
              rw (dec, bytes_one v hv, bytes-set_bytes r hr, bytes-set_bytes s hs),
        )

    -- The fault of the decoder: a transaction encoded with v = 0, whatever its r and s, makes Decode
    -- panic, since it takes the first byte of an empty slice.
    pub decode-encode_v_zero :
        (c : Complete) (from : Option Address) (to : Address) (r s : Bytes)
        → AllBytes c.tx_data
        → (raw : Bytes) × (encode_with_signature E R (complete_tx c from to) 0 r s ≡ ok raw)
          × (decode_signed_tx E R raw ≡ panic)
    decode-encode_v_zero c from to r s bs =
        let (raw, enc, dec) = signed_encoded c from to 0 r s bs in
        (raw, enc, unfold decode_signed_tx bytes in rw dec)
