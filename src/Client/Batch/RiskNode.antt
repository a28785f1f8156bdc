-- ===== src/Client/Batch/RiskNode.antt =====
-- A node whose risks of blocks GetRawBlockConfirmationRisk of client.go can read.
use go_conflux_sdk.Base.{ℕ, ◌≡◌, refl, ap, ◌∙◌, Option, none, some, [], ◌∷◌, List, Text}
use go_conflux_sdk.Result.{ok}
use go_conflux_sdk.Ethereum.{Ethereum}
use go_conflux_sdk.Json.{Value, null, str, as_string}
use go_conflux_sdk.Json.Codec.{text_value}
use go_conflux_sdk.Json.Decode.{decode_text}
use go_conflux_sdk.Types.Address.{Hash}
use go_conflux_sdk.Types.Block.{BlockSummary}
use go_conflux_sdk.Client.Requester.{Requester, Answer, answered, text}
use go_conflux_sdk.Client.Queries.{query, as_big}
use go_conflux_sdk.Client.Blocks.{
  epoch_of_summary, risk_without_answer, get_block_summary_by_hash, raw_risk,
  get_raw_block_confirmation_risk,
}
use go_conflux_sdk.Client.Batch.{Leftovers, read_or, held, text_results, risk_elem}
use go_conflux_sdk.Client.Batch.Singles.{Node, answer_of}

-- The node's risk of a block, a text that is not empty, as JSON and in a string that was empty.
abbrev pub risk_value : Option (ℕ × Text) → Value
risk_value none = null
risk_value (some (c, t)) = str (c ∷ t)

abbrev pub risk_text : Option (ℕ × Text) → Text
risk_text none = []
risk_text (some (c, t)) = c ∷ t

-- A node whose answers do not change and are the same in a batch and alone, with the risks and the
-- summaries that it answers: no risk is an empty text, and the query of a summary succeeds.
pub record RiskNode {W : Type 0} (order : List Text → List Text) (Q : Requester W) (E : Ethereum)
    : Type 0 where
  pub node : Node order Q
  pub risk : Hash → Option (ℕ × Text)
  pub summary : Hash → Option BlockSummary
  pub risk_answer :
      (h : Hash) → node.answer "cfx_getConfirmationRiskByHash" (text h ∷ []) ≡ risk_value (risk h)
  pub single_summary : (h : Hash) (w : W) → get_block_summary_by_hash E Q h w ≡ (ok (summary h), w)

module _ {W : Type 0} (order : List Text → List Text) (Q : Requester W) (F : Leftovers)
    (E : Ethereum) (N : RiskNode order Q E) where
  single_risk :
      (h : Hash) (w : W)
      → Q.call "cfx_getConfirmationRiskByHash" (text h ∷ []) w ≡ (ok (risk_value (N.risk h)), w)
  single_risk h w =
      N.node.single "cfx_getConfirmationRiskByHash" (text h ∷ []) w
      ∙ ap (λ (v : Value). (ok v, w)) (N.risk_answer h)

  pub single_none :
      (h : Hash) (w : W)
      → N.risk h ≡ none
      → get_raw_block_confirmation_risk E Q h w
        ≡ (ok (risk_without_answer (epoch_of_summary (N.summary h))), w)
  unfolding get_raw_block_confirmation_risk raw_risk query
  single_none h w e = rw (single_risk h w, e, N.single_summary h w) refl

  pub single_some :
      (h : Hash) (w : W) (p : ℕ × Text)
      → N.risk h ≡ some p
      → get_raw_block_confirmation_risk E Q h w ≡ (E.decode_big (risk_text (some p)), w)
  unfolding get_raw_block_confirmation_risk raw_risk query as_big as_string
  single_some h w p e = rw (single_risk h w, e) refl

  abbrev pub risk_answer_of : Hash → Answer
  risk_answer_of h = answer_of order Q N.node (risk_elem order Q F E h)

  held_risk :
      (p : Option (ℕ × Text))
      → held (text_results order Q F E) (answered (risk_value p)) ≡ risk_text p
  unfolding held read_or decode_text text_value
  held_risk none = refl
  held_risk (some p) = refl

  pub held-risk :
      (h : Hash) → held (text_results order Q F E) (risk_answer_of h) ≡ risk_text (N.risk h)
  held-risk h = rw (N.risk_answer h) (held_risk (N.risk h))
