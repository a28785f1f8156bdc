-- ===== src/Utils/Keys.antt =====
-- PublicKeyToAddress and PrivateKeyToPublicKey of utils/crypto.go, and SetString of math/big with base 0.
use go_conflux_sdk.Base.{
  ℕ, ◌+◌, ◌*◌, ◌/◌, ◌%◌, ◌<◌, ◌≡◌, refl, ap, ◌∙◌, ◌==◌, ◌||◌, Bool, true, false, Option, none, some,
  [], ◌∷◌, ◌++◌, Bytes, Text, AllBytes, codes, drop, ltb, if◌then◌else◌, arith,
}
use go_conflux_sdk.Base.BigBytes.{set_bytes, set_bytes_from, bytes, trim, bytes-set_bytes}
use go_conflux_sdk.Result.{Result, ok, panic}
use go_conflux_sdk.Hex.{
  encode_to_string, digit, digit_value, digit_value-digit, digit-not_underscore,
}
use go_conflux_sdk.Ethereum.{Ethereum}
use go_conflux_sdk.Types.Address.{Address}
use go_conflux_sdk.Utils.{to_cfx_general_address}

-- The digits of a number in a base. An underscore stands between digits, or between a prefix and a
-- digit: `after_digit` says that it may come next.
pub scan : ℕ → Bool → ℕ → Text → Option ℕ
scan base after_digit n [] = if after_digit then some n else none
scan base after_digit n (c ∷ s) =
    let separated = scan base false n s in
    if c == b'_' then (if after_digit then separated else none) else elim (digit_value c) [
      | none ↦ none
      | some d ↦ let rest = scan base true (n * base + d) s in if ltb d base then rest else none
    ]

-- A prefix wants a digit behind it.
behind_prefix : ℕ → Text → Option ℕ
unfolding scan
behind_prefix base [] = none
behind_prefix base (c ∷ s) = scan base true 0 (c ∷ s)

-- The magnitude, with its base by its prefix; a zero alone is 0, and one before digits means octal.
magnitude : Text → Option ℕ
unfolding behind_prefix
magnitude [] = none
magnitude (a ∷ []) = scan 10 false 0 (a ∷ [])
magnitude (a ∷ b ∷ s) =
    if a == b'0'
    then if b == b'x' || b == b'X'
      then behind_prefix 16 s
      else if b == b'b' || b == b'B'
      then behind_prefix 2 s
      else if b == b'o' || b == b'O'
      then behind_prefix 8 s
      else scan 8 true 0 (b ∷ s)
    else scan 10 false 0 (a ∷ b ∷ s)

-- SetString(s, 0), without the sign, which Bytes drops.
pub set_string : Text → Option ℕ
unfolding magnitude
set_string [] = none
set_string (c ∷ s) = if c == b'-' || c == b'+' then magnitude s else magnitude (c ∷ s)

module _ (E : Ethereum) where
  address_of_key : Option ℕ → Result Address
  address_of_key none = panic
  address_of_key (some key) = ok (to_cfx_general_address E (drop 12 (E.keccak256 (bytes key))))

  pub public_key_to_address : Text → Result Address
  unfolding address_of_key
  public_key_to_address public_key = address_of_key (set_string public_key)

  public_of_key : Option ℕ → Result Text
  public_of_key none = panic
  public_of_key (some key) = ok (E.hex_encode (drop 1 (E.public_key (bytes key))))

  pub private_key_to_public_key : Text → Result Text
  unfolding public_of_key
  private_key_to_public_key private_key = public_of_key (set_string private_key)

scan-digit :
    (d n : ℕ) (after_digit : Bool) (s : Text)
    → d < 16
    → scan 16 after_digit n (digit d ∷ s) ≡ scan 16 true (n * 16 + d) s
unfolding scan
scan-digit d n after_digit s h =
    let small : ltb d 16 ≡ true = ground arith in
    rw (digit-not_underscore d h, digit_value-digit d h, small) refl

scan-encode :
    (bs : Bytes) (n : ℕ)
    → AllBytes bs
    → scan 16 true n (encode_to_string bs) ≡ some (set_bytes_from n bs)
unfolding encode_to_string set_bytes_from
scan-encode [] n h = unfold scan in refl
scan-encode (b ∷ bs) n (hb, h) =
    let value : (n * 16 + b / 16) * 16 + b % 16 ≡ n * 256 + b = omega arith in
    scan-digit (b / 16) n true _ (omega arith)
    ∙ scan-digit (b % 16) (n * 16 + b / 16) true _ (omega arith)
    ∙ ap (λ (m : ℕ). scan 16 true m (encode_to_string bs)) value
    ∙ scan-encode bs (n * 256 + b) h

set_string-encode :
    (b : ℕ) (bs : Bytes)
    → AllBytes (b ∷ bs)
    → set_string (codes "0x" ++ encode_to_string (b ∷ bs)) ≡ some (set_bytes (b ∷ bs))
unfolding set_string magnitude behind_prefix set_bytes encode_to_string
set_string-encode b bs h = scan-encode (b ∷ bs) 0 h

module _ (E : Ethereum) where
  -- Of a key spelled in hex behind 0x, of one byte or more, PublicKeyToAddress gives the general address
  -- of the last 20 bytes of the hash of the key without its leading zero bytes.
  pub public_key_to_address-encode :
      (b : ℕ) (bs : Bytes)
      → AllBytes (b ∷ bs)
      → public_key_to_address E (codes "0x" ++ encode_to_string (b ∷ bs))
        ≡ ok (to_cfx_general_address E (drop 12 (E.keccak256 (trim (b ∷ bs)))))
  unfolding public_key_to_address address_of_key
  public_key_to_address-encode b bs h =
      ap (address_of_key E) (set_string-encode b bs h)
      ∙ ap (λ (k : Bytes). ok (to_cfx_general_address E (drop 12 (E.keccak256 k))))
          (bytes-set_bytes (b ∷ bs) h)

  public_of_key_lem :
      (b : ℕ) (bs : Bytes)
      → AllBytes (b ∷ bs)
      → private_key_to_public_key E (codes "0x" ++ encode_to_string (b ∷ bs))
        ≡ ok (E.hex_encode (drop 1 (E.public_key (trim (b ∷ bs)))))
  unfolding private_key_to_public_key public_of_key
  public_of_key_lem b bs h =
      ap (public_of_key E) (set_string-encode b bs h)
      ∙ ap (λ (k : Bytes). ok (E.hex_encode (drop 1 (E.public_key k)))) (bytes-set_bytes (b ∷ bs) h)

  -- Of a private key in hex behind 0x, of one byte or more, whose public key has two bytes or more, and
  -- with hexutil.Encode as the hex spelling behind 0x, PrivateKeyToPublicKey gives a text that
  -- PublicKeyToAddress takes: the address is the general one of the last 20 bytes of the hash of the
  -- public key without the byte that marks its form and without its leading zero bytes.
  pub public_key_to_address-private :
      (b : ℕ) (bs : Bytes) (p : ℕ) (q : ℕ) (ps : Bytes)
      → AllBytes (b ∷ bs)
      → E.public_key (trim (b ∷ bs)) ≡ p ∷ q ∷ ps
      → AllBytes (q ∷ ps)
      → ((xs : Bytes) → AllBytes xs → E.hex_encode xs ≡ codes "0x" ++ encode_to_string xs)
      → (text : Text) × (private_key_to_public_key E (codes "0x" ++ encode_to_string (b ∷ bs))
          ≡ ok text)
        × (public_key_to_address E text
            ≡ ok (to_cfx_general_address E (drop 12 (E.keccak256 (trim (q ∷ ps))))))
  public_key_to_address-private b bs p q ps h key hq spells = (
    codes "0x" ++ encode_to_string (q ∷ ps),
    public_of_key_lem b bs h
        ∙ ap (λ (k : Bytes). ok (E.hex_encode (drop 1 k))) key
        ∙ ap (λ (t : Text). ok t) (spells (q ∷ ps) hq),
    public_key_to_address-encode q ps hq,
  )
