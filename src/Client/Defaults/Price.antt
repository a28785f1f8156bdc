-- ===== src/Client/Defaults/Price.antt =====
-- The gas price that ApplyUnsignedTransactionDefault of client.go leaves in the transaction.
use go_conflux_sdk.Base.{◌≡◌, Option, none, some, arith}
use go_conflux_sdk.Base.Int.{ℤ, pos, negsuc, ◌≤ℤ◌}
use go_conflux_sdk.Result.{ok}
use go_conflux_sdk.Ethereum.{Ethereum}
use go_conflux_sdk.Types.Address.{min_gasprice}
use go_conflux_sdk.Types.Transaction.{
  UnsignedTransaction, apply_default, fill, default_gas_price as ten_gdrip,
}
use go_conflux_sdk.Client.Requester.{Client}
use go_conflux_sdk.Client.Defaults.{
  TxState, fill_estimate, at_least_min, apply_unsigned_transaction_default,
}
use go_conflux_sdk.Client.Defaults.Fills.{
  Fills, sender, next_nonce, chain, price, height, estimate, constants, Reaches, here, next,
  apply_unsigned_transaction_default-Reaches,
}
use go_conflux_sdk.Client.Defaults.Filled.{Present, apply_unsigned_transaction_default_fills}

-- A gas price that is nil or not below the least price of the chain.
abbrev pub FloorPrice : Option ℤ → Type 0
FloorPrice none = Unit
FloorPrice (some p) = pos min_gasprice ≤ℤ p

at_least_min-FloorPrice : (p : ℤ) → FloorPrice (some (at_least_min p))
unfolding at_least_min
at_least_min-FloorPrice (pos n) = ground arith
at_least_min-FloorPrice (negsuc n) = ground arith

apply_default-FloorPrice : (p : Option ℤ) → FloorPrice p → FloorPrice (fill p ten_gdrip)
apply_default-FloorPrice none h = ground arith
apply_default-FloorPrice (some p) h = h

Fills-FloorPrice :
    {t u : UnsignedTransaction} → Fills t u → FloorPrice t.gas_price → FloorPrice u.gas_price
unfolding fill_estimate apply_default
Fills-FloorPrice (sender a e) h = h
Fills-FloorPrice (next_nonce n e) h = h
Fills-FloorPrice (chain id e) h = h
Fills-FloorPrice (price p e) h = at_least_min-FloorPrice p
Fills-FloorPrice (height n e) h = h
Fills-FloorPrice (estimate sm) h = h
Fills-FloorPrice {t} constants h = apply_default-FloorPrice t.gas_price h

Reaches-FloorPrice :
    {t u : UnsignedTransaction} → FloorPrice t.gas_price → Reaches t u → FloorPrice u.gas_price
Reaches-FloorPrice h here = h
Reaches-FloorPrice h (next r step) = Fills-FloorPrice step (Reaches-FloorPrice h r)

-- A transaction whose gas price is nil or not below 1 Gdrip has, when the call on a client succeeds,
-- a gas price that is set and not below 1 Gdrip.
pub apply_unsigned_transaction_default-FloorPrice :
    {W : Type 0} (E : Ethereum) (c : Client W) (st : TxState W)
    → FloorPrice st.tx.gas_price
    → (apply_unsigned_transaction_default E (some c) st).0 ≡ ok tt
    → let p = (apply_unsigned_transaction_default E (some c) st).1.tx.gas_price in
      Present p × FloorPrice p
apply_unsigned_transaction_default-FloorPrice E c st h e = (
  (apply_unsigned_transaction_default_fills E c st e).2,
  Reaches-FloorPrice h (apply_unsigned_transaction_default-Reaches E (some c) st),
)
