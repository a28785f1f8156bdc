-- ===== src/Tests/Batches.antt =====
-- A node that knows the risk of one block and no block, and the batch queries on it.
use go_conflux_sdk.Base.{
  ℕ, ◌≡◌, ◌↔◌, refl, ap, true, Option, none, some, List, [], ◌∷◌, map, map-map, Text, codes,
  text_eq, or_default, if◌then◌else◌, Bool-cases, inl, inr,
}
use go_conflux_sdk.Base.Int.{ℤ, pos}
use go_conflux_sdk.Base.Dict.{Dict, lookup}
use go_conflux_sdk.Base.Float.{Float}
use go_conflux_sdk.Errors.{message}
use go_conflux_sdk.Result.{ok, err}
use go_conflux_sdk.Json.{Value, null, str, obj, end, as_string}
use go_conflux_sdk.Json.Struct.{read_struct, set_fields}
use go_conflux_sdk.Json.Transactions.{decode_transaction}
use go_conflux_sdk.Json.Decode.{unmarshal_rpc_result}
use go_conflux_sdk.Types.Address.{Hash}
use go_conflux_sdk.Types.Response.{Transaction, empty_transaction}
use go_conflux_sdk.Types.Block.{empty_summary}
use go_conflux_sdk.Client.Requester.{Arg, text, BatchElem, Answer, answered, refused, Requester}
use go_conflux_sdk.Client.Queries.{query, unless_null, as_big, get_transaction_by_hash}
use go_conflux_sdk.Client.Blocks.{
  risk_without_answer, get_block_summary_by_hash, raw_risk, get_raw_block_confirmation_risk,
  get_block_confirmation_risk,
}
use go_conflux_sdk.Client.Batch.{
  member, Leftovers, held, text_results, batch_get, risk_elem, batch_get_tx_by_hashes,
  batch_get_raw_block_confirmation_risk, batch_get_block_confirmation_risk,
}
use go_conflux_sdk.Client.Batch.Rates.{batch_rate_iff}
use go_conflux_sdk.Utils.Risk.{risk_rate}
use go_conflux_sdk.Client.Batch.Answers.{batch_get_lem}
use go_conflux_sdk.Client.Batch.Singles.{Node, batch_get_tx_by_hashes-single}
use go_conflux_sdk.Client.Batch.RiskNode.{risk_value, RiskNode}
use go_conflux_sdk.Client.Batch.Risks.{batch_risk_iff}
use go_conflux_sdk.Tests.Instances.{eth}

unfoldable pub known_risk : Hash → Option (ℕ × Text)
known_risk h = if text_eq h (codes "0xa") then some (b'0', codes "x5") else none

abbrev risk_of_args : List Arg → Option (ℕ × Text)
risk_of_args (text h ∷ []) = known_risk h
risk_of_args _ = none

abbrev risk_answers : List Arg → Value
risk_answers args = risk_value (risk_of_args args)

-- A node that answers alike, alone and in a batch.
abbrev steady : (List Arg → Value) → Requester ℕ
steady f = record {
  call = λ method args w. (ok (f args), w);
  call_status = λ method args w. (err (message "no status"), w);
  batch = λ elems w. (ok (map (λ (e : BatchElem). answered (f e.1)) elems), w);
  close = λ w. w;
}

abbrev same_order : List Text → List Text
same_order ks = ks

abbrev steady_node : (f : List Arg → Value) → Node same_order (steady f)
steady_node f = record {
  answer = λ method args. f args;
  covers = λ ks h e. e;
  single = λ method args w. refl;
  batch = λ elems w. refl;
}

abbrev risk_node : Requester ℕ
risk_node = steady risk_answers

-- Nothing is left by a fault.
abbrev leftovers : Leftovers
leftovers = record { transaction = λ v. empty_transaction; summary = λ v. empty_summary }

risk_node-RiskNode : RiskNode same_order risk_node eth
unfolding get_block_summary_by_hash query unless_null known_risk
risk_node-RiskNode = record {
  node = steady_node risk_answers;
  risk = known_risk;
  summary = λ h. none;
  risk_answer = λ h. refl;
  single_summary = λ h w. refl;
}

abbrev asked : List Hash
asked = codes "0xa" ∷ codes "0xb" ∷ codes "0xa" ∷ []

abbrev risk_list : Hash → ℤ
risk_list h = if text_eq h (codes "0xa") then pos 5 else risk_without_answer none

known_single : (h : Hash) → (get_raw_block_confirmation_risk eth risk_node h 0).0 ≡ ok (risk_list h)
unfolding get_raw_block_confirmation_risk raw_risk get_block_summary_by_hash query as_big as_string
    unless_null known_risk
known_single h = elim (Bool-cases (text_eq h (codes "0xa"))) [
  | inl e ↦ rw e refl
  | inr e ↦ rw e refl
]

abbrev EntriesOf : {A : Type 0} → (Hash → A) → Dict A → Type 0
EntriesOf f d = (h : Hash) → lookup h d ≡ (if member h asked then some (f h) else none)

batch_risk_iff_example :
    ((h : Hash)
      → member h asked ≡ true
      → (get_raw_block_confirmation_risk eth risk_node h 0).0 ≡ ok (risk_list h))
    ↔ ((d : Dict ℤ) × ((batch_get_raw_block_confirmation_risk same_order risk_node leftovers eth
            asked 0).0
          ≡ ok d)
        × EntriesOf risk_list d)
batch_risk_iff_example =
    batch_risk_iff same_order risk_node leftovers eth risk_node-RiskNode asked risk_list 0

risks_known :
    (d : Dict ℤ) × ((batch_get_raw_block_confirmation_risk same_order risk_node leftovers eth asked
        0).0
      ≡ ok d)
    × EntriesOf risk_list d
risks_known = batch_risk_iff_example.0 λ h m. known_single h

batch_rate_iff_example :
    ((h : Hash)
      → member h asked ≡ true
      → (get_block_confirmation_risk eth risk_node h 0).0 ≡ ok (some (risk_rate (risk_list h))))
    ↔ ((d : Dict Float) × ((batch_get_block_confirmation_risk same_order risk_node leftovers eth
            asked 0).0
          ≡ ok d)
        × EntriesOf (λ h. risk_rate (risk_list h)) d)
batch_rate_iff_example =
    batch_rate_iff same_order risk_node leftovers eth risk_node-RiskNode asked
      (λ h. risk_rate (risk_list h)) 0

-- A node that refuses one hash.
abbrev some_answers : Hash → Answer
some_answers h =
    if text_eq h (codes "0xb") then refused (message "unknown") else answered (str (codes "0x5"))

abbrev refusing_elem : BatchElem → Answer
refusing_elem (method, text h ∷ []) = some_answers h
refusing_elem _ = refused (message "unknown")

abbrev refusing : Requester ℕ
refusing = record risk_node { batch = λ elems w. (ok (map refusing_elem elems), w) }

batch_get_example :
    (d : Dict (Option Text)) × ((batch_get same_order refusing
        (text_results same_order refusing leftovers eth)
        (risk_elem same_order refusing leftovers eth)
        asked
        0).0
      ≡ ok d)
    × ((h : Hash)
        → lookup h d ≡ (
            if member h asked
            then some
                (some (held (text_results same_order refusing leftovers eth) (some_answers h)))
            else none))
batch_get_example =
    batch_get_lem same_order (λ ks h e. e) (text_results same_order refusing leftovers eth)
      some_answers refusing (risk_elem same_order refusing leftovers eth) asked 0 0
      λ ks. ap (λ (answers : List Answer). (ok answers, 0)) (map-map refusing_elem _ ks)

-- A node that knows one transaction.
abbrev tx_answers : List Arg → Value
tx_answers (text h ∷ []) = if text_eq h (codes "0xa") then obj end else null
tx_answers _ = null

abbrev known_tx : Hash → Option Transaction
known_tx h = if text_eq h (codes "0xa") then some empty_transaction else none

known_tx_single :
    (h : Hash) → (get_transaction_by_hash eth (steady tx_answers) h 0).0 ≡ ok (known_tx h)
unfolding get_transaction_by_hash query unless_null unmarshal_rpc_result decode_transaction
    read_struct set_fields
known_tx_single h = elim (Bool-cases (text_eq h (codes "0xa"))) [
  | inl e ↦ rw e refl
  | inr e ↦ rw e refl
]

batch_get_tx_by_hashes-single_example :
    (d : Dict (Option Transaction)) × ((batch_get_tx_by_hashes same_order
        (steady tx_answers)
        leftovers
        eth
        asked
        0).0
      ≡ ok d)
    × ((h : Hash)
        → lookup h d ≡ (
            if member h asked
            then some (some (or_default (known_tx h) empty_transaction))
            else none))
batch_get_tx_by_hashes-single_example =
    batch_get_tx_by_hashes-single same_order (steady tx_answers) (steady_node tx_answers) leftovers
      eth asked known_tx 0 λ h m. known_tx_single h
