-- ===== src/Client/Defaults/Kept.antt =====
-- ApplyUnsignedTransactionDefault of client.go changes no field that was set.
use go_conflux_sdk.Base.{◌≡◌, refl, ◌∙◌, Option, none, some}
use go_conflux_sdk.Base.Int.{pos}
use go_conflux_sdk.Ethereum.{Ethereum}
use go_conflux_sdk.Types.Address.{new_big_int}
use go_conflux_sdk.Types.Transaction.{
  UnsignedTransaction, apply_default, fill, default_gas, default_gas_price as ten_gdrip,
}
use go_conflux_sdk.Client.Requester.{Client}
use go_conflux_sdk.Client.Defaults.{
  TxState, fill_estimate, apply_unsigned_transaction_default, at_least_min,
}
use go_conflux_sdk.Client.Defaults.Fills.{
  Fills, sender, next_nonce, chain, price, height, estimate, constants, Reaches, here, next,
  apply_unsigned_transaction_default-Reaches,
}

-- A pointer that was set is the same.
abbrev pub Kept {ℓ} : {A : Type ℓ} → Option A → Option A → Type ℓ
Kept none q = Unit
Kept (some a) q = q ≡ some a

-- Every field that is set in t is the same in u; the recipient and the data are the same.
pub record Extends (t u : UnsignedTransaction) : Type 0 where
  pub from : Kept t.from u.from
  pub nonce : Kept t.nonce u.nonce
  pub gas_price : Kept t.gas_price u.gas_price
  pub gas : Kept t.gas u.gas
  pub value : Kept t.value u.value
  pub storage_limit : Kept t.storage_limit u.storage_limit
  pub epoch_height : Kept t.epoch_height u.epoch_height
  pub chain_id : Kept t.chain_id u.chain_id
  pub to : u.to ≡ t.to
  pub tx_data : u.tx_data ≡ t.tx_data

Kept-refl : {A : Type 0} (p : Option A) → Kept p p
Kept-refl none = tt
Kept-refl (some a) = refl

Kept-trans : {A : Type 0} (p q r : Option A) → Kept p q → Kept q r → Kept p r
Kept-trans none q r h k = tt
Kept-trans (some a) none r h k = absurd (cc h)
Kept-trans (some a) (some b) r h k = k ∙ h

Kept-none : {A : Type 0} (p q : Option A) → p ≡ none → Kept p q
Kept-none none q e = tt
Kept-none (some a) q e = absurd (cc e)

Kept-fill : {A : Type 0} (p q d : Option A) → Kept p q → Kept p (fill q d)
Kept-fill none q d h = tt
Kept-fill (some a) none d h = absurd (cc h)
Kept-fill (some a) (some b) d h = h

pub Extends-refl : (t : UnsignedTransaction) → Extends t t
Extends-refl t = record {
  from = Kept-refl t.from;
  nonce = Kept-refl t.nonce;
  gas_price = Kept-refl t.gas_price;
  gas = Kept-refl t.gas;
  value = Kept-refl t.value;
  storage_limit = Kept-refl t.storage_limit;
  epoch_height = Kept-refl t.epoch_height;
  chain_id = Kept-refl t.chain_id;
  to = refl;
  tx_data = refl;
}

pub Extends-trans : {t u v : UnsignedTransaction} → Extends t u → Extends u v → Extends t v
Extends-trans {t} {u} {v} h k = record {
  from = Kept-trans t.from u.from v.from h.from k.from;
  nonce = Kept-trans t.nonce u.nonce v.nonce h.nonce k.nonce;
  gas_price = Kept-trans t.gas_price u.gas_price v.gas_price h.gas_price k.gas_price;
  gas = Kept-trans t.gas u.gas v.gas h.gas k.gas;
  value = Kept-trans t.value u.value v.value h.value k.value;
  storage_limit =
      Kept-trans t.storage_limit u.storage_limit v.storage_limit h.storage_limit k.storage_limit;
  epoch_height =
      Kept-trans t.epoch_height u.epoch_height v.epoch_height h.epoch_height k.epoch_height;
  chain_id = Kept-trans t.chain_id u.chain_id v.chain_id h.chain_id k.chain_id;
  to = k.to ∙ h.to;
  tx_data = k.tx_data ∙ h.tx_data;
}

-- A step changes no field that was set.
pub Fills-Extends : {t u : UnsignedTransaction} → Fills t u → Extends t u
unfolding fill_estimate apply_default
Fills-Extends {t} (sender a e) = assumption (Extends-refl t, Kept-none t.from (some a) e)
Fills-Extends {t} (next_nonce n e) = assumption (Extends-refl t, Kept-none t.nonce (some n) e)
Fills-Extends {t} (chain id e) = assumption (Extends-refl t, Kept-none t.chain_id id e)
Fills-Extends {t} (price p e) =
    assumption (Extends-refl t, Kept-none t.gas_price (some (at_least_min p)) e)
Fills-Extends {t} (height n e) = assumption (Extends-refl t, Kept-none t.epoch_height (some n) e)
Fills-Extends {t} (estimate sm) = assumption (
  Extends-refl t,
  Kept-fill t.gas t.gas sm.gas_used (Kept-refl t.gas),
  Kept-fill t.storage_limit t.storage_limit sm.storage_collateralized (Kept-refl t.storage_limit),
)
Fills-Extends {t} constants = assumption (
  Extends-refl t,
  Kept-fill t.gas_price t.gas_price ten_gdrip (Kept-refl t.gas_price),
  Kept-fill t.gas t.gas default_gas (Kept-refl t.gas),
  Kept-fill t.value t.value (new_big_int (pos 0)) (Kept-refl t.value),
)

pub Reaches-Extends : {t u : UnsignedTransaction} → Reaches t u → Extends t u
Reaches-Extends {t} here = Extends-refl t
Reaches-Extends (next r step) = Extends-trans (Reaches-Extends r) (Fills-Extends step)

-- On a client, nil or not, and however the call ends, every field of the transaction that was set is
-- the same afterwards, and so are the recipient and the data.
pub apply_unsigned_transaction_default-Extends :
    {W : Type 0} (E : Ethereum) (c : Option (Client W)) (st : TxState W)
    → Extends st.tx (apply_unsigned_transaction_default E c st).1.tx
apply_unsigned_transaction_default-Extends E c st =
    Reaches-Extends (apply_unsigned_transaction_default-Reaches E c st)
