-- ===== src/Client/Batch/Singles.antt =====
-- BatchGetTxByHashes and BatchGetBlockSummarys of client.go against GetTransactionByHash and
-- GetBlockSummaryByHash.
use go_conflux_sdk.Base.{
  ◌≡◌, refl, sym, ap, ◌∙◌, subst, true, false, Option, none, some, List, [], ◌∷◌, map, map-map,
  String, Text, or_default, if◌then◌else◌,
}
use go_conflux_sdk.Base.Dict.{Dict, lookup}
use go_conflux_sdk.Result.{Result, ok, err, panic, wrap, ok_injective}
use go_conflux_sdk.Ethereum.{Ethereum}
use go_conflux_sdk.Json.{Value, null, bool, num, str, arr, obj}
use go_conflux_sdk.Json.Float64.{in_interface}
use go_conflux_sdk.Json.Narrow.Structs.{transaction-IsNarrow, summary-IsNarrow}
use go_conflux_sdk.Json.Decode.{unmarshal_rpc_result}
use go_conflux_sdk.Json.Struct.{read_struct}
use go_conflux_sdk.Json.Transactions.{decode_transaction}
use go_conflux_sdk.Json.Blocks.{decode_summary}
use go_conflux_sdk.Types.Address.{Hash}
use go_conflux_sdk.Types.Response.{Transaction, empty_transaction}
use go_conflux_sdk.Types.Block.{BlockSummary, empty_summary}
use go_conflux_sdk.Client.Requester.{Arg, text, flag, BatchElem, Answer, answered, Requester}
use go_conflux_sdk.Client.Queries.{query, unless_null, get_transaction_by_hash}
use go_conflux_sdk.Client.Blocks.{get_block_summary_by_hash}
use go_conflux_sdk.Client.Batch.{
  member, Leftovers, Results, read_or, held, tx_results, tx_elem, summary_results, summary_elem,
  batch_get, batch_get_tx_by_hashes, batch_get_block_summarys,
}
use go_conflux_sdk.Client.Batch.Answers.{if_member, batch_get_lem}

-- A node whose answers do not change and are the same in a batch and alone, and a range over a map that
-- reaches every key.
pub record Node {W : Type 0} (order : List Text → List Text) (Q : Requester W) : Type 0 where
  pub answer : String → List Arg → Value
  pub covers : (ks : List Text) (h : Text) → member h ks ≡ true → member h (order ks) ≡ true
  pub single :
      (method : String) (args : List Arg) (w : W)
      → Q.call method args w ≡ (ok (answer method args), w)
  pub batch :
      (elems : List BatchElem) (w : W)
      → Q.batch elems w ≡ (ok (map (λ (e : BatchElem). answered (answer e.0 e.1)) elems), w)

-- What a single query and a result pointer make of one result.
module _ {T : Type 0} (R : Results T) (reads_null : R.read null ≡ ok R.empty)
    (same : (v : Value) → R.read (in_interface v) ≡ R.read v) (msg : String) where
  same_default :
      (t : T) (p q : Option T)
      → ◌≡◌ {A = Result (Option T)} (ok q) (ok p)
      → t ≡ or_default q R.empty
      → t ≡ or_default p R.empty
  same_default t p q e = subst (λ (o : Option T). t ≡ or_default o R.empty) (ok_injective e)

  read_ok :
      (o : Result T) (l : T) (p : Option T)
      → wrap msg (unless_null (unmarshal_rpc_result (λ v. o)) (bool true)) ≡ ok p
      → read_or o l ≡ or_default p R.empty
  unfolding unless_null unmarshal_rpc_result read_or
  read_ok (ok t) l p e = same_default t p (some t) e refl
  read_ok (err x) l p e = absurd (cc e)
  read_ok panic l p e = absurd (cc e)

  read_in :
      (v : Value) (l : T) (p : Option T)
      → wrap msg (unless_null (unmarshal_rpc_result (λ w. R.read (in_interface v))) (bool true))
        ≡ ok p
      → read_or (R.read v) l ≡ or_default p R.empty
  read_in v l p e =
      sym (ap (λ (r : Result T). read_or r l) (same v)) ∙ read_ok (R.read (in_interface v)) l p e

  pub held-single :
      (v : Value) (p : Option T)
      → wrap msg (unless_null (unmarshal_rpc_result R.read) v) ≡ ok p
      → held R (answered v) ≡ or_default p R.empty
  unfolding unless_null unmarshal_rpc_result held in_interface
  held-single null p e = rw reads_null (same_default R.empty p none e refl)
  held-single (bool b) p e = read_in (bool b) (R.left (bool b)) p e
  held-single (num t) p e = read_in (num t) (R.left (num t)) p e
  held-single (str t) p e = read_in (str t) (R.left (str t)) p e
  held-single (arr vs) p e = read_in (arr vs) (R.left (arr vs)) p e
  held-single (obj fs) p e = read_in (obj fs) (R.left (obj fs)) p e

module _ {W : Type 0} (order : List Text → List Text) (Q : Requester W) (N : Node order Q) where
  abbrev pub answer_of : BatchElem → Answer
  answer_of e = answered (N.answer e.0 e.1)

  -- What a batch brings for elements made of keys.
  pub batch_answers :
      (elem : Hash → BatchElem) (ks : List Text) (w : W)
      → Q.batch (map elem ks) w ≡ (ok (map (λ k. answer_of (elem k)) ks), w)
  batch_answers elem ks w =
      N.batch (map elem ks) w
      ∙ ap (λ (answers : List Answer). (ok answers, w)) (map-map answer_of elem ks)

  -- When the single query of each hash succeeds, the batch succeeds, and has for each hash that was asked
  -- for what the single query returns, or the empty value where that is nil, and nothing else.
  batch_get-single :
      {T : Type 0} (R : Results T) (elem : Hash → BatchElem) (single : Hash → Option T)
      (hashes : List Hash) (w : W)
      → ((h : Hash)
          → member h hashes ≡ true
          → held R (answer_of (elem h)) ≡ or_default (single h) R.empty)
      → (d : Dict (Option T)) × ((batch_get order Q R elem hashes w).0 ≡ ok d)
        × ((h : Hash)
            → lookup h d
              ≡ (if member h hashes then some (some (or_default (single h) R.empty)) else none))
  batch_get-single R elem single hashes w same =
      let (d, got, finds) =
        batch_get_lem order N.covers R (λ k. answer_of (elem k)) Q elem hashes w w
          (λ ks. batch_answers elem ks w) in
      (
        d,
        got,
        λ h. finds h ∙ if_member (member h hashes) _ _ _ λ m. ap (λ t. some (some t)) (same h m),
      )

  module _ (F : Leftovers) (E : Ethereum) where
    pub held-tx :
        (h : Hash) (p : Option Transaction) (w : W)
        → (get_transaction_by_hash E Q h w).0 ≡ ok p
        → held (tx_results order Q F E) (answer_of (tx_elem order Q F E h))
          ≡ or_default p empty_transaction
    unfolding get_transaction_by_hash query decode_transaction read_struct
    held-tx h p w e =
        held-single (tx_results order Q F E) refl (transaction-IsNarrow E empty_transaction)
          "UnmarshalRPCResult %+v error" (N.answer "cfx_getTransactionByHash" (text h ∷ [])) p
          (rw (N.single "cfx_getTransactionByHash" (text h ∷ []) w) at e)

    pub held-summary :
        (h : Hash) (p : Option BlockSummary) (w : W)
        → (get_block_summary_by_hash E Q h w).0 ≡ ok p
        → held (summary_results order Q F E) (answer_of (summary_elem order Q F E h))
          ≡ or_default p empty_summary
    unfolding get_block_summary_by_hash query decode_summary read_struct
    held-summary h p w e =
        held-single (summary_results order Q F E) refl (summary-IsNarrow E empty_summary)
          "UnmarshalRPCResult %+v error" (N.answer "cfx_getBlockByHash" (text h ∷ flag false ∷ []))
          p (rw (N.single "cfx_getBlockByHash" (text h ∷ flag false ∷ []) w) at e)

    -- On a node whose answers do not change and are the same in a batch and alone, when
    -- GetTransactionByHash succeeds for each hash that is asked for, BatchGetTxByHashes succeeds, and has
    -- for each of these hashes, and for no other, the transaction that GetTransactionByHash returns, or an
    -- empty one where that returns nil.
    pub batch_get_tx_by_hashes-single :
        (hashes : List Hash) (tx : Hash → Option Transaction) (w : W)
        → ((h : Hash) → member h hashes ≡ true → (get_transaction_by_hash E Q h w).0 ≡ ok (tx h))
        → (d : Dict (Option Transaction)) × ((batch_get_tx_by_hashes order Q F E hashes w).0 ≡ ok d)
          × ((h : Hash)
              → lookup h d ≡ (
                  if member h hashes
                  then some (some (or_default (tx h) empty_transaction))
                  else none))
    unfolding batch_get_tx_by_hashes
    batch_get_tx_by_hashes-single hashes tx w single =
        batch_get-single (tx_results order Q F E) (tx_elem order Q F E) tx hashes w
          λ h m. held-tx h (tx h) w (single h m)

    -- The same for BatchGetBlockSummarys and GetBlockSummaryByHash.
    pub batch_get_block_summarys-single :
        (hashes : List Hash) (summary : Hash → Option BlockSummary) (w : W)
        → ((h : Hash)
            → member h hashes ≡ true
            → (get_block_summary_by_hash E Q h w).0 ≡ ok (summary h))
        → (d : Dict (Option BlockSummary)) × ((batch_get_block_summarys order Q F E hashes w).0
            ≡ ok d)
          × ((h : Hash)
              → lookup h d ≡ (
                  if member h hashes
                  then some (some (or_default (summary h) empty_summary))
                  else none))
    unfolding batch_get_block_summarys
    batch_get_block_summarys-single hashes summary w single =
        batch_get-single (summary_results order Q F E) (summary_elem order Q F E) summary hashes w
          λ h m. held-summary h (summary h) w (single h m)
