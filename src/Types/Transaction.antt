-- ===== src/Types/Transaction.antt =====
-- The structs of types/transaction_unsigned.go and types/transaction_signed.go, and ApplyDefault.
-- A *hexutil.Big is an `Option ℤ`; a nil []byte is the empty one.
use go_conflux_sdk.Base.{ℕ, Option, none, some, [], Bytes}
use go_conflux_sdk.Base.Int.{ℤ, pos}
use go_conflux_sdk.Types.Address.{Address, new_big_int}

pub record UnsignedTransactionBase : Type 0 where
  pub from : Option Address
  pub nonce : Option ℤ
  pub gas_price : Option ℤ
  pub gas : Option ℤ
  pub value : Option ℤ
  pub storage_limit : Option ℤ
  pub epoch_height : Option ℤ
  pub chain_id : Option ℤ

pub record UnsignedTransaction : Type 0 where
  pub base : UnsignedTransactionBase
  pub open base use *
  pub to : Option Address
  pub tx_data : Bytes

pub record SignedTransaction : Type 0 where
  pub unsigned : UnsignedTransaction
  pub v : ℕ
  pub r : Bytes
  pub s : Bytes

abbrev pub default_gas : Option ℤ
default_gas = some (pos 21000)

-- 10G drip
abbrev pub default_gas_price : Option ℤ
default_gas_price = some (pos 10_000_000_000)

abbrev pub empty_base : UnsignedTransactionBase
empty_base = record {
  from = none;
  nonce = none;
  gas_price = none;
  gas = none;
  value = none;
  storage_limit = none;
  epoch_height = none;
  chain_id = none;
}

-- new(UnsignedTransaction)
abbrev pub empty_transaction : UnsignedTransaction
empty_transaction = record { base = empty_base; to = none; tx_data = [] }

-- `if p == nil { p = d }`
abbrev pub fill {ℓ} : {A : Type ℓ} → Option A → Option A → Option A
fill none d = d
fill (some a) d = some a

unfoldable pub apply_default : UnsignedTransaction → UnsignedTransaction
unfolding new_big_int
apply_default tx = record tx {
  base = record (tx.base) {
    gas_price = fill tx.gas_price default_gas_price;
    gas = fill tx.gas default_gas;
    value = fill tx.value (new_big_int (pos 0));
  };
}
