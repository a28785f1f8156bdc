-- ===== src/Contract/Event.antt =====
-- The log that DecodeEvent of contract.go hands to UnpackLog.
use go_conflux_sdk.Base.{
  ◌≡◌, refl, ◌∙◌, ap, ◌<◌, Option, List, [], ◌∷◌, ◌++◌, map, Bytes, Text, All, AllBytes, codes,
  arith,
}
use go_conflux_sdk.Errors.{Error}
use go_conflux_sdk.Result.{Result}
use go_conflux_sdk.Ethereum.{Ethereum}
use go_conflux_sdk.Hex.{
  encode_to_string, encode_to_string-All, decode_partial, decode_partial-encode,
}
use go_conflux_sdk.Types.Address.{Address, Hash, to_common_hash}
use go_conflux_sdk.Types.Response.{LogEntry}
use go_conflux_sdk.Contract.{Abi, Contract, remove_0x, event_log, bound_address, decode_event}

-- A text without the letter x stays as it is.
remove_0x_lem : (s : Text) → All (λ c. c < b'g') s → remove_0x s ≡ s
unfolding remove_0x
remove_0x_lem [] h = refl
remove_0x_lem (a ∷ []) h = refl
remove_0x_lem (a ∷ b ∷ s) h = ground (arith, h, remove_0x_lem (b ∷ s) h.1)

remove_0x-prefix : (s : Text) → remove_0x (codes "0x" ++ s) ≡ remove_0x s
unfolding remove_0x
remove_0x-prefix s = refl

module _ {W A I O : Type 0} (E : Ethereum) (L : Abi A I O) (contract : Contract W A) where
  -- UnpackLog on given bytes.
  abbrev unpack_bytes : Text → List Hash → Bytes → Result O
  unpack_bytes event topics bs =
      L.unpack_log (bound_address E L contract contract.address) contract.abi event
        (record { topics = map (to_common_hash E) topics; log_data = bs })

  decode_event_lem :
      (event : Text) (log : LogEntry) (bs : Bytes)
      → AllBytes bs
      → remove_0x log.log_data ≡ encode_to_string bs
      → decode_event E L contract event log ≡ unpack_bytes event log.topics bs
  unfolding decode_event event_log
  decode_event_lem event log bs h clean =
      ap (λ (s : Text). unpack_bytes event log.topics (decode_partial s).0) clean
      ∙ ap (λ (p : Bytes × Option Error). unpack_bytes event log.topics p.0)
          (decode_partial-encode bs h)

  -- DecodeEvent of a log whose data is the hex spelling of bytes, with the prefix 0x or without it,
  -- is UnpackLog on exactly these bytes and on the log's topics read as hashes, at the contract's address.
  pub decode_event-encode :
      (event : Text) (a : Address) (topics : List Hash) (bs : Bytes)
      → AllBytes bs
      → let outcome =
          L.unpack_log
            (bound_address E L contract contract.address)
            contract.abi
            event
            (record { topics = map (to_common_hash E) topics; log_data = bs }) in
        (decode_event E L contract event
            (record { address = a; topics = topics; log_data = codes "0x" ++ encode_to_string bs })
          ≡ outcome)
        × (decode_event E L contract event
              (record { address = a; topics = topics; log_data = encode_to_string bs })
            ≡ outcome)
  decode_event-encode event a topics bs h =
      let clean = remove_0x_lem (encode_to_string bs) (encode_to_string-All bs h) in
      (
        decode_event_lem event _ bs h (remove_0x-prefix (encode_to_string bs) ∙ clean),
        decode_event_lem event _ bs h clean,
      )
