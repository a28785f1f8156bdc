-- ===== src/Types/Rlp.antt =====
-- The RLP forms of types/transaction_unsigned.go and types/transaction_signed.go. The package rlp of
-- go-ethereum is a parameter: it encodes and decodes the two structs by their fields.
pub mod RoundTrip
use go_conflux_sdk.Base.{
  ℕ, zero, suc, ◌≡◌, Option, none, some, [], ◌∷◌, Bytes, AllBytes, map, lower, get_elem?,
}
use go_conflux_sdk.Base.Int.{ℤ, pos, negsuc}
use go_conflux_sdk.Base.BigBytes.{set_bytes, bytes}
use go_conflux_sdk.Errors.{Error}
use go_conflux_sdk.Result.{Result, ok, err, panic, ◌>>=◌, wrap, deref}
use go_conflux_sdk.Ethereum.{Ethereum, IsAddress}
use go_conflux_sdk.Types.Address.{Address}
use go_conflux_sdk.Types.Transaction.{UnsignedTransaction, SignedTransaction}

pub record UnsignedTransactionForRlp : Type 0 where
  pub nonce : Option ℤ
  pub gas_price : Option ℤ
  pub gas : Option ℤ
  pub to : Option Bytes
  pub value : Option ℤ
  pub storage_limit : Option ℤ
  pub epoch_height : Option ℤ
  pub chain_id : Option ℤ
  pub tx_data : Bytes

pub record SignedTransactionForRlp : Type 0 where
  pub unsigned_data : Option UnsignedTransactionForRlp
  pub v : Option ℤ
  pub r : Option ℤ
  pub s : Option ℤ

-- rlp.EncodeToBytes and rlp.DecodeBytes at the two structs.
pub record Rlp : Type 0 where
  pub encode_unsigned : UnsignedTransactionForRlp → Result Bytes
  pub decode_unsigned : Bytes → Result UnsignedTransactionForRlp
  pub encode_signed : SignedTransactionForRlp → Result Bytes
  pub decode_signed : Bytes → Result SignedTransactionForRlp

-- A transaction in which every number is set and not negative.
pub record Complete : Type 0 where
  pub nonce : ℕ
  pub gas_price : ℕ
  pub gas : ℕ
  pub value : ℕ
  pub storage_limit : ℕ
  pub epoch_height : ℕ
  pub chain_id : ℕ
  pub tx_data : Bytes

abbrev pub complete_tx : Complete → Option Address → Address → UnsignedTransaction
complete_tx c from to = record {
  base = record {
    from = from;
    nonce = some (pos c.nonce);
    gas_price = some (pos c.gas_price);
    gas = some (pos c.gas);
    value = some (pos c.value);
    storage_limit = some (pos c.storage_limit);
    epoch_height = some (pos c.epoch_height);
    chain_id = some (pos c.chain_id);
  };
  to = some to;
  tx_data = c.tx_data;
}

abbrev pub complete_struct : Complete → Bytes → UnsignedTransactionForRlp
complete_struct c to = record {
  nonce = some (pos c.nonce);
  gas_price = some (pos c.gas_price);
  gas = some (pos c.gas);
  to = some to;
  value = some (pos c.value);
  storage_limit = some (pos c.storage_limit);
  epoch_height = some (pos c.epoch_height);
  chain_id = some (pos c.chain_id);
  tx_data = c.tx_data;
}

abbrev pub signed_struct : Complete → Bytes → ℕ → ℕ → ℕ → SignedTransactionForRlp
signed_struct c to v r s = record {
  unsigned_data = some (complete_struct c to);
  v = some (pos v);
  r = some (pos r);
  s = some (pos s);
}

-- RLP encodes a struct whose numbers are set and not negative, and reads the same struct back.
pub record RlpLaws (R : Rlp) : Type 0 where
  pub unsigned_law :
      (c : Complete) (to : Bytes)
      → IsAddress to
      → AllBytes c.tx_data
      → (raw : Bytes) × (R.encode_unsigned (complete_struct c to) ≡ ok raw)
        × (R.decode_unsigned raw ≡ ok (complete_struct c to))
  pub signed_law :
      (c : Complete) (to : Bytes) (v r s : ℕ)
      → IsAddress to
      → AllBytes c.tx_data
      → (raw : Bytes) × (R.encode_signed (signed_struct c to v r s) ≡ ok raw)
        × (R.decode_signed raw ≡ ok (signed_struct c to v r s))

-- big.Int's Bytes: of the absolute value.
int_bytes : ℤ → Bytes
int_bytes (pos n) = bytes n
int_bytes (negsuc n) = bytes (suc n)

-- `buf[0]`, out of range if there is none
first_byte : Bytes → Result ℕ
first_byte bs = deref (get_elem? bs 0)

module _ (E : Ethereum) where
  unfoldable pub unsigned_to_struct : UnsignedTransaction → UnsignedTransactionForRlp
  unsigned_to_struct tx = record {
    nonce = tx.nonce;
    gas_price = tx.gas_price;
    gas = tx.gas;
    to = elim tx.to [ none ↦ none | some a ↦ some (E.hex_to_address a) ];
    value = tx.value;
    storage_limit = tx.storage_limit;
    epoch_height = tx.epoch_height;
    chain_id = tx.chain_id;
    tx_data = tx.tx_data;
  }

  -- Each `*` is a dereference of a pointer that may be nil.
  unfoldable pub to_unsigned_transaction : UnsignedTransactionForRlp → Result UnsignedTransaction
  to_unsigned_transaction t = do
    a ← deref t.to
    gas_price ← deref t.gas_price
    value ← deref t.value
    storage_limit ← deref t.storage_limit
    epoch_height ← deref t.epoch_height
    nonce ← deref t.nonce
    gas ← deref t.gas
    chain_id ← deref t.chain_id
    ok (record {
      base = record {
        from = none;
        nonce = some nonce;
        gas_price = some gas_price;
        gas = some gas;
        value = some value;
        storage_limit = some storage_limit;
        epoch_height = some epoch_height;
        chain_id = some chain_id;
      };
      to = some (map lower (E.address_hex a));
      tx_data = t.tx_data;
    })

  unfoldable pub signed_to_struct : SignedTransaction → SignedTransactionForRlp
  unfolding unsigned_to_struct
  signed_to_struct tx = record {
    unsigned_data = some (unsigned_to_struct tx.unsigned);
    v = some (pos tx.v);
    r = some (pos (set_bytes tx.r));
    s = some (pos (set_bytes tx.s));
  }

  unfoldable pub to_signed_transaction : SignedTransactionForRlp → Result SignedTransaction
  unfolding to_unsigned_transaction int_bytes first_byte
  to_signed_transaction t = do
    inner ← deref t.unsigned_data
    unsigned ← to_unsigned_transaction inner
    v ← deref t.v
    first ← first_byte (int_bytes v)
    r ← deref t.r
    s ← deref t.s
    ok (record { unsigned = unsigned; v = first; r = int_bytes r; s = int_bytes s })

  module _ (R : Rlp) where
    -- (*UnsignedTransaction).Encode, Decode, Hash
    unfoldable pub encode_unsigned_tx : UnsignedTransaction → Result Bytes
    unfolding unsigned_to_struct
    encode_unsigned_tx tx =
        wrap "encode data {%+v} to bytes error" (R.encode_unsigned (unsigned_to_struct tx))

    unfoldable pub decode_unsigned_tx : Bytes → Result UnsignedTransaction
    unfolding to_unsigned_transaction
    decode_unsigned_tx raw = do
      t ← wrap "decode data {%+x} to rlp error" (R.decode_unsigned raw)
      to_unsigned_transaction t

    unfoldable pub transaction_hash : UnsignedTransaction → Result Bytes
    unfolding encode_unsigned_tx
    transaction_hash tx = do
      encoded ← wrap "encode tx {%+v} error" (encode_unsigned_tx tx)
      ok (E.keccak256 encoded)

    -- (*SignedTransaction).Encode, Decode
    unfoldable pub encode_signed_tx : SignedTransaction → Result Bytes
    unfolding signed_to_struct
    encode_signed_tx tx =
        wrap "encode data {%+v} to bytes error" (R.encode_signed (signed_to_struct tx))

    unfoldable pub decode_signed_tx : Bytes → Result SignedTransaction
    unfolding to_signed_transaction
    decode_signed_tx raw = do
      t ← wrap "decode data {%+x} to rlp error" (R.decode_signed raw)
      to_signed_transaction t

    unfoldable pub encode_with_signature : UnsignedTransaction → ℕ → Bytes → Bytes → Result Bytes
    unfolding encode_signed_tx
    encode_with_signature tx v r s =
        encode_signed_tx (record { unsigned = tx; v = v; r = r; s = s })
