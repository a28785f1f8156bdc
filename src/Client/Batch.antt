-- ===== src/Client/Batch.antt =====
-- The batch queries of client.go: one call for all hashes, each asked once.
pub mod Answers
pub mod Singles
pub mod Loop
pub mod RiskNode
pub mod Risks
pub mod Rates
use go_conflux_sdk.Base.{
  Bool, true, false, ◌||◌, Option, none, some, List, [], ◌∷◌, map, String, Text, text_eq,
  or_default, if◌then◌else◌,
}
use go_conflux_sdk.Base.Int.{ℤ}
use go_conflux_sdk.Base.Dict.{Dict, lookup, insert, keys}
use go_conflux_sdk.Base.Float.{Float}
use go_conflux_sdk.Result.{Result, ok, err, panic, ◌>>=◌ as bind}
use go_conflux_sdk.Exec.{Exec, continue, ◌>>=◌, pure, lift}
use go_conflux_sdk.Ethereum.{Ethereum}
use go_conflux_sdk.Json.{Value}
use go_conflux_sdk.Json.Decode.{decode_text}
use go_conflux_sdk.Json.Transactions.{decode_transaction}
use go_conflux_sdk.Json.Blocks.{decode_summary}
use go_conflux_sdk.Types.Address.{Hash}
use go_conflux_sdk.Types.Response.{Transaction, empty_transaction}
use go_conflux_sdk.Types.Block.{BlockSummary, empty_summary}
use go_conflux_sdk.Client.Requester.{text, flag, BatchElem, Answer, answered, refused, Requester}
use go_conflux_sdk.Utils.Risk.{calc_block_confirmation_risk}
use go_conflux_sdk.Client.Blocks.{epoch_of_summary, risk_without_answer}

unfoldable pub member : Text → List Text → Bool
member h [] = false
member h (x ∷ xs) = text_eq x h || member h xs

-- The keys of the map that holds the elements.
unfoldable pub distinct : List Text → List Text
unfolding member
distinct [] = []
distinct (x ∷ xs) = let rest = distinct xs in if member x xs then rest else x ∷ rest

-- The elements by their keys, each with what its result pointer holds.
unfoldable pub pointers : {T : Type 0} → List Text → List T → Dict T
pointers [] ts = []
pointers (x ∷ xs) [] = []
pointers (x ∷ xs) (t ∷ ts) = (x, t) ∷ pointers xs ts

-- What a result pointer points to at first, how encoding/json reads a result into it, and what it leaves
-- there on a fault.
pub record Results (T : Type 0) : Type 0 where
  pub empty : T
  pub read : Value → Result T
  pub left : Value → T

unfoldable pub read_or : {T : Type 0} → Result T → T → T
read_or (ok t) left = t
read_or (err e) left = left
read_or panic left = left

-- What a result pointer points to afterwards. The code does not look at the Error of an element.
unfoldable pub held : {T : Type 0} → Results T → Answer → T
unfolding read_or
held R (answered v) = read_or (R.read v) (R.left v)
held R (refused e) = R.empty

-- A pointer holds what the element was made with if nothing came.
unfoldable pub result_of : {T : Type 0} → T → Dict T → Text → T
result_of empty table h = or_default (lookup h table) empty

-- The map that is returned. `be.Result == types.Transaction{}` compares an interface that holds a
-- pointer with a struct, which is false, so that no entry is nil.
unfoldable pub collect : {T : Type 0} → T → Dict T → List Text → Dict (Option T) → Dict (Option T)
unfolding result_of
collect empty table [] d = d
collect empty table (h ∷ hs) d =
    collect empty table hs (insert h (some (result_of empty table h)) d)

-- What encoding/json leaves in a struct that it cannot read: it does not promise that.
pub record Leftovers : Type 0 where
  pub transaction : Value → Transaction
  pub summary : Value → BlockSummary

-- `order` is the order in which Go ranges over the map.
module _ {W : Type 0} (order : List Text → List Text) (Q : Requester W) where
  unfoldable pub batch_get :
      {T : Type 0} → Results T → (Hash → BatchElem) → List Hash → Exec W (Dict (Option T))
  unfolding distinct pointers collect held
  batch_get R elem [] = pure []
  batch_get R elem (h ∷ hs) = do
    answers ← Q.batch (map elem (order (distinct (h ∷ hs))))
    pure (collect R.empty (pointers (order (distinct (h ∷ hs))) (map (held R) answers)) (h ∷ hs) [])

  module _ (F : Leftovers) (E : Ethereum) where
    abbrev pub tx_results : Results Transaction
    tx_results = record {
      empty = empty_transaction;
      read = decode_transaction E;
      left = F.transaction;
    }

    abbrev pub summary_results : Results BlockSummary
    summary_results = record { empty = empty_summary; read = decode_summary E; left = F.summary }

    -- A string keeps what it holds when the result is none.
    abbrev pub text_results : Results Text
    text_results = record { empty = []; read = decode_text; left = λ v. [] }

    abbrev pub tx_elem : Hash → BatchElem
    tx_elem h = ("cfx_getTransactionByHash", text h ∷ [])

    abbrev pub summary_elem : Hash → BatchElem
    summary_elem h = ("cfx_getBlockByHash", text h ∷ flag false ∷ [])

    abbrev pub risk_elem : Hash → BatchElem
    risk_elem h = ("cfx_getConfirmationRiskByHash", text h ∷ [])

    unfoldable pub batch_get_tx_by_hashes : List Hash → Exec W (Dict (Option Transaction))
    unfolding batch_get
    batch_get_tx_by_hashes = batch_get tx_results tx_elem

    unfoldable pub batch_get_block_summarys : List Hash → Exec W (Dict (Option BlockSummary))
    unfolding batch_get
    batch_get_block_summarys = batch_get summary_results summary_elem

    -- The hashes whose result is still empty.
    unfoldable pub without_risk : Dict Text → List Hash → List Hash
    unfolding result_of
    without_risk table [] = []
    without_risk table (h ∷ hs) =
        let rest = without_risk table hs in
        elim (result_of [] table h) [ [] ↦ h ∷ rest | c ∷ cs ↦ rest ]

    -- A missing key gives nil.
    unfoldable pub summary_at : Dict (Option BlockSummary) → Hash → Option BlockSummary
    summary_at summaries h = or_default (lookup h summaries) none

    unfoldable pub risk_of : Text → Option BlockSummary → Result ℤ
    risk_of [] summary = ok (risk_without_answer (epoch_of_summary summary))
    risk_of (c ∷ cs) summary = E.decode_big (c ∷ cs)

    unfoldable pub risks :
        Dict Text → Dict (Option BlockSummary) → List Hash → Dict ℤ → Result (Dict ℤ)
    unfolding risk_of result_of summary_at
    risks table summaries [] d = ok d
    risks table summaries (h ∷ hs) d =
        bind (risk_of (result_of [] table h) (summary_at summaries h))
          λ r. risks table summaries hs (insert h r d)

    -- The rest of the method, when the risks have come.
    unfoldable pub risks_from : Dict Text → List Hash → Exec W (Dict ℤ)
    unfolding without_risk batch_get_block_summarys risks
    risks_from table hashes = do
      summaries ← batch_get_block_summarys (without_risk table hashes)
      lift (risks table summaries hashes [])

    unfoldable pub batch_get_raw_block_confirmation_risk : List Hash → Exec W (Dict ℤ)
    unfolding distinct pointers risks_from held
    batch_get_raw_block_confirmation_risk [] = pure []
    batch_get_raw_block_confirmation_risk (h ∷ hs) = do
      answers ← Q.batch (map risk_elem (order (distinct (h ∷ hs))))
      risks_from (pointers (order (distinct (h ∷ hs))) (map (held text_results) answers)) (h ∷ hs)

    -- The loop over the map of the risks, whose pointers are not nil.
    unfoldable pub put_rate : Text → Option ℤ → Dict Float → Result (Dict Float)
    put_rate h none d = ok d
    put_rate h (some risk) d =
        bind (calc_block_confirmation_risk (some risk)) λ f. ok (insert h f d)

    unfoldable pub rates_from : Dict ℤ → List Text → Dict Float → Result (Dict Float)
    unfolding put_rate
    rates_from table [] d = ok d
    rates_from table (h ∷ hs) d = bind (put_rate h (lookup h table) d) λ d'. rates_from table hs d'

    unfoldable pub batch_get_block_confirmation_risk : List Hash → Exec W (Dict Float)
    unfolding rates_from keys
    batch_get_block_confirmation_risk hashes = do
      table ← batch_get_raw_block_confirmation_risk hashes
      lift (rates_from table (order (keys table)) [])
