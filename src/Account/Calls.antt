-- ===== src/Account/Calls.antt =====
-- Sequences of calls of the methods of account.go that may change the manager.
use go_conflux_sdk.Base.{List, [], ◌∷◌, Text}
use go_conflux_sdk.Base.Int.{ℤ}
use go_conflux_sdk.Result.{Result}
use go_conflux_sdk.Exec.{Exec, ◌>>◌, pure}
use go_conflux_sdk.Ethereum.{Ethereum}
use go_conflux_sdk.Types.Address.{Address}
use go_conflux_sdk.Types.Rlp.{Rlp}
use go_conflux_sdk.Account.Keys.{KeyStore}
use go_conflux_sdk.Account.{
  AccountManager, create, import_account, delete, update, unlock, unlock_default, timed_unlock,
  timed_unlock_default, lock,
}

-- A call of a method that may change the manager; the signing methods do not.
pub data Op : Type 0 where
  creates : Text → Op
  imports : Text → Text → Text → Op
  deletes : Address → Text → Op
  updates : Address → Text → Text → Op
  unlocks : Address → Text → Op
  unlocks_default : Text → Op
  unlocks_timed : Address → Text → ℤ → Op
  unlocks_default_timed : Text → ℤ → Op
  locks : Address → Op

-- A method that returns no more than an error.
unfoldable pub done : {S : Type 0} → Exec S (Unit {0}) → Exec S Text
done m = m >> pure []

-- The answers to a sequence of calls, and the state after it.
unfoldable pub trace : {S : Type 0} → (Op → Exec S Text) → List Op → S → List (Result Text) × S
trace f [] s = ([], s)
trace f (o ∷ os) s = let rest = trace f os (f o s).1 in ((f o s).0 ∷ rest.0, rest.1)

module _ {K : Type 0} (E : Ethereum) (R : Rlp) (S : KeyStore K) where
  -- What the caller gets: the address of an account that was added, or nothing.
  unfoldable pub answer : Op → Exec (AccountManager K) Text
  unfolding done
  answer (creates p) = create E R S p
  answer (imports f p q) = import_account E R S f p q
  answer (deletes a p) = done (delete E R S a p)
  answer (updates a p q) = done (update E R S a p q)
  answer (unlocks a p) = done (unlock E R S a p)
  answer (unlocks_default p) = done (unlock_default E R S p)
  answer (unlocks_timed a p t) = done (timed_unlock E R S a p t)
  answer (unlocks_default_timed p t) = done (timed_unlock_default E R S p t)
  answer (locks a) = done (lock E R S a)

  unfoldable pub step : Op → AccountManager K → AccountManager K
  unfolding answer
  step o m = (answer o m).1

  unfoldable pub run : List Op → AccountManager K → AccountManager K
  unfolding step
  run [] m = m
  run (o ∷ os) m = run os (step o m)
