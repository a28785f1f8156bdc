-- ===== src/Account/Operator.antt =====
-- The AccountManager of account.go as the AccountManagerOperator that a client uses (interface.go).
use go_conflux_sdk.Base.{some}
use go_conflux_sdk.Exec.{Exec, ◌>>=◌, pure}
use go_conflux_sdk.Ethereum.{Ethereum}
use go_conflux_sdk.Types.Rlp.{Rlp}
use go_conflux_sdk.Account.Keys.{KeyStore}
use go_conflux_sdk.Account.{AccountManager, get_default, sign_transaction}
use go_conflux_sdk.Client.Requester.{AccountManagerOperator}

-- The world of a client holds an account manager.
pub record Holds (K W : Type 0) : Type 0 where
  pub get : W → AccountManager K
  pub put : AccountManager K → W → W

module _ {K W : Type 0} (E : Ethereum) (R : Rlp) (S : KeyStore K) (H : Holds K W) where
  unfoldable pub on_manager : {A : Type 0} → Exec (AccountManager K) A → Exec W A
  on_manager f w = ((f (H.get w)).0, H.put (f (H.get w)).1 w)

  unfoldable pub operator : AccountManagerOperator W
  unfolding on_manager
  operator = record {
    get_default = on_manager (get_default E R S >>= λ a. pure (some a));
    sign_transaction = λ tx. on_manager (sign_transaction E R S tx);
  }
