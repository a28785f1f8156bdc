-- ===== src/Tests/Instances.antt =====
-- Instances of the parameters of the model: a codec of addresses, an RLP codec that keeps numbers
-- whole, and a keystore that is a list of accounts. They satisfy the laws that the theorems assume.
use go_conflux_sdk.Base.{
  ℕ, zero, suc, ◌+◌, ◌*◌, ◌-◌, ◌%◌, ◌==◌, ◌≡◌, refl, Bool, true, false, ◌||◌, Option, none, some,
  List, [], ◌∷◌, ◌++◌, Bytes, Text, codes, length, take, drop, All, All-append, AllBytes, text_eq,
  if◌then◌else◌, arith,
}
use go_conflux_sdk.Base.Int.{ℤ, pos, pos_part}
use go_conflux_sdk.Errors.{message}
use go_conflux_sdk.Result.{Result, ok, err, deref, ◌>>=◌}
use go_conflux_sdk.Ethereum.{Ethereum, IsAddress, HexLaws}
use go_conflux_sdk.Hex.{
  encode_to_string, decode_partial, decode_partial-encode, lower-encode_to_string,
}
use go_conflux_sdk.Types.Rlp.{
  UnsignedTransactionForRlp, SignedTransactionForRlp, Rlp, RlpLaws, complete_struct,
}
use go_conflux_sdk.Account.Keys.{Account, KeyStore, KeyStoreLaws}

-- n bytes: the first n of a list, with zeros behind a shorter one.
unfoldable pub fit : ℕ → Bytes → Bytes
fit zero bs = []
fit (suc n) [] = 0 ∷ fit n []
fit (suc n) (b ∷ bs) = b % 256 ∷ fit n bs

length-fit : (n : ℕ) (bs : Bytes) → length (fit n bs) ≡ n
unfolding fit
length-fit zero bs = refl
length-fit (suc n) [] = omega (arith, length-fit n [])
length-fit (suc n) (b ∷ bs) = omega (arith, length-fit n bs)

pub fit-AllBytes : (n : ℕ) (bs : Bytes) → AllBytes (fit n bs)
unfolding fit
fit-AllBytes zero bs = tt
fit-AllBytes (suc n) [] = (omega arith, fit-AllBytes n [])
fit-AllBytes (suc n) (b ∷ bs) = (omega arith, fit-AllBytes n bs)

fit_self : (n : ℕ) (bs : Bytes) → length bs ≡ n → AllBytes bs → fit n bs ≡ bs
unfolding fit
fit_self zero [] e h = refl
fit_self zero (b ∷ bs) e h = absurd (omega arith)
fit_self (suc n) [] e h = absurd (omega arith)
fit_self (suc n) (b ∷ bs) e (hb, h) =
    let same : b % 256 ≡ b = omega arith in rw (same, fit_self n bs (omega arith) h)

-- The number of a text of decimal digits.
abbrev number : ℕ → Text → ℕ
number n [] = n
number n (c ∷ s) = number (n * 10 + (c - b'0')) s

abbrev pub read_bytes : ℕ → Text → Bytes
read_bytes n s = fit n (decode_partial (drop 2 s)).0

-- A number is written as one digit, whatever its size.
abbrev pub eth : Ethereum
eth = record {
  hex_to_address = read_bytes 20;
  hex_to_hash = read_bytes 32;
  address_hex = λ a. codes "0x" ++ encode_to_string a;
  hex_encode = λ a. codes "0x" ++ encode_to_string a;
  encode_big = λ z. codes "0x" ++ ((b'0' + pos_part z) ∷ []);
  decode_big = λ s. ok (pos (number 0 (drop 2 s)));
  unmarshal_big = λ s. ok (pos (number 0 (drop 2 s)));
  unmarshal_uint64 = λ s. ok (number 0 (drop 2 s));
  keccak256 = fit 32;
  public_key = fit 64;
}

fit-decode-encode : (a : Bytes) → IsAddress a → fit 20 (decode_partial (encode_to_string a)).0 ≡ a
fit-decode-encode a h =
    rw (decode_partial-encode a h.all_bytes) (fit_self 20 a h.length_eq h.all_bytes)

pub eth-HexLaws : HexLaws eth
eth-HexLaws = record {
  address-encode = fit-decode-encode;
  address-lower = λ a h. rw (lower-encode_to_string a h.all_bytes) (fit-decode-encode a h);
  IsAddress-hex = λ s. record { length_eq = length-fit 20 _; all_bytes = fit-AllBytes 20 _ };
}

-- A codec on lists of numbers.
unfoldable pub natural : Option ℤ → Result ℕ
natural (some (pos n)) = ok n
natural _ = err (message "rlp: cannot encode")

-- An address behind 1, or 0 without one.
abbrev marked : Option Bytes → Bytes → Bytes
marked none rest = 0 ∷ rest
marked (some to) rest = 1 ∷ (to ++ rest)

unfoldable pub encode_struct : UnsignedTransactionForRlp → Result Bytes
unfolding natural
encode_struct t = do
  n ← natural t.nonce
  p ← natural t.gas_price
  g ← natural t.gas
  v ← natural t.value
  l ← natural t.storage_limit
  h ← natural t.epoch_height
  i ← natural t.chain_id
  ok (n ∷ p ∷ g ∷ v ∷ l ∷ h ∷ i ∷ marked t.to t.tx_data)

unfoldable pub decode_struct : Bytes → Result UnsignedTransactionForRlp
decode_struct (n ∷ p ∷ g ∷ v ∷ l ∷ h ∷ i ∷ mark ∷ rest) =
    if mark == 1
    then ok (
        complete_struct
          (record {
            nonce = n;
            gas_price = p;
            gas = g;
            value = v;
            storage_limit = l;
            epoch_height = h;
            chain_id = i;
            tx_data = drop 20 rest;
          })
          (take 20 rest))
    else err (message "rlp: input string too short for common.Address")
decode_struct _ = err (message "rlp: too few elements")

unfoldable pub encode_with_vrs : SignedTransactionForRlp → Result Bytes
unfolding natural encode_struct
encode_with_vrs t = do
  v ← natural t.v
  r ← natural t.r
  s ← natural t.s
  inner ← deref t.unsigned_data
  raw ← encode_struct inner
  ok (v ∷ r ∷ s ∷ raw)

pub decode_with_vrs : Bytes → Result SignedTransactionForRlp
unfolding decode_struct
decode_with_vrs (v ∷ r ∷ s ∷ raw) = do
  inner ← decode_struct raw
  ok (record { unsigned_data = some inner; v = some (pos v); r = some (pos r); s = some (pos s) })
decode_with_vrs _ = err (message "rlp: too few elements")

abbrev pub codec : Rlp
codec = record {
  encode_unsigned = encode_struct;
  decode_unsigned = decode_struct;
  encode_signed = encode_with_vrs;
  decode_signed = decode_with_vrs;
}

take-length : (n : ℕ) (xs ys : Bytes) → length xs ≡ n → take n (xs ++ ys) ≡ xs
take-length zero [] ys e = refl
take-length zero (x ∷ xs) ys e = absurd (omega arith)
take-length (suc n) [] ys e = absurd (omega arith)
take-length (suc n) (x ∷ xs) ys e = rw (take-length n xs ys (omega arith))

drop-length : (n : ℕ) (xs ys : Bytes) → length xs ≡ n → drop n (xs ++ ys) ≡ ys
drop-length zero [] ys e = refl
drop-length zero (x ∷ xs) ys e = absurd (omega arith)
drop-length (suc n) [] ys e = absurd (omega arith)
drop-length (suc n) (x ∷ xs) ys e = drop-length n xs ys (omega arith)

pub codec-RlpLaws : RlpLaws codec
unfolding encode_struct decode_struct encode_with_vrs decode_with_vrs natural
codec-RlpLaws = record {
  unsigned_law = λ c to h bs. (
    _,
    refl,
    rw (take-length 20 to c.tx_data h.length_eq, drop-length 20 to c.tx_data h.length_eq) refl,
  );
  signed_law = λ c to v r s h bs. (
    _,
    refl,
    rw (take-length 20 to c.tx_data h.length_eq, drop-length 20 to c.tx_data h.length_eq) refl,
  );
}

-- A keystore that is a list of accounts; an address is made of the passphrase or of the key.
pub without : Bytes → List Account → List Account
without b [] = []
without b (a ∷ rest) = let kept = without b rest in if text_eq a.address b then kept else a ∷ kept

without-All :
    (b : Bytes) (P : Account → Type 0) (xs : List Account) → All P xs → All P (without b xs)
unfolding without
without-All b P [] h = tt
without-All b P (a ∷ rest) (ha, h) =
    by_case (text_eq a.address b) (without b rest) (without-All b P rest h)
  where
    by_case : (t : Bool) (ys : List Account) → All P ys → All P (if t then ys else a ∷ ys)
    by_case true ys k = k
    by_case false ys k = (ha, k)

pub has : Bytes → List Account → Bool
has b [] = false
has b (a ∷ rest) = text_eq a.address b || has b rest

abbrev pub account_of : Bytes → Account
account_of b = record { address = fit 20 b; url = codes "keystore" }

abbrev pub keystore : KeyStore (List Account)
keystore = record {
  accounts = λ k. k;
  has_address = λ k b. has b k;
  new_account = λ p k. (ok (account_of p), k ++ (account_of p ∷ []));
  import_key = λ key p q k. (ok (account_of key), k ++ (account_of key ∷ []));
  delete = λ a p k. (ok tt, without a.address k);
  update = λ a p q k. (ok tt, k);
  unlock = λ a p k. (ok tt, k);
  timed_unlock = λ a p t k. (ok tt, k);
  lock = λ a k. (ok tt, k);
  sign_hash = λ k a h. ok (fit 64 h ++ (1 ∷ []));
  sign_hash_with_passphrase = λ k a p h. ok (fit 64 (p ++ h) ++ (1 ∷ []));
  decrypt_key = λ key p. ok (fit 20 key);
  read_file = λ path. ok path;
}

pub keystore-KeyStoreLaws : KeyStoreLaws keystore
keystore-KeyStoreLaws = record {
  new_law = λ p k P h new. All-append P k (account_of p ∷ []) h (new (account_of p) refl, tt);
  import_law =
      λ key p q k P h new. All-append P k (account_of key ∷ []) h (new (account_of key) refl, tt);
  delete_law = λ a p k P h. without-All a.address P k h;
  update_law = λ a p q k. refl;
  unlock_law = λ a p k. refl;
  timed_unlock_law = λ a p t k. refl;
  lock_law = λ a k. refl;
}
