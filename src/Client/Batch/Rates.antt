-- ===== src/Client/Batch/Rates.antt =====
-- BatchGetBlockConfirmationRisk of client.go against GetBlockConfirmationRisk.
use go_conflux_sdk.Base.{
  ◌≡◌, refl, sym, ap, ◌∙◌, ◌↔◌, Bool, true, false, Option, none, some, List, [], ◌∷◌, Text, text_eq,
  text_eq_iff, arith, if◌then◌else◌,
}
use go_conflux_sdk.Base.Int.{ℤ, pos}
use go_conflux_sdk.Base.Dict.{Dict, lookup, insert, keys, lookup-insert}
use go_conflux_sdk.Base.Float.{Float}
use go_conflux_sdk.Result.{Result, ok, err, panic, ok_injective}
use go_conflux_sdk.Exec.{lift}
use go_conflux_sdk.Exec.Gives.{continue_ok}
use go_conflux_sdk.Ethereum.{Ethereum}
use go_conflux_sdk.Types.Address.{Hash}
use go_conflux_sdk.Utils.Risk.{risk_rate, calc_block_confirmation_risk}
use go_conflux_sdk.Client.Requester.{Requester}
use go_conflux_sdk.Client.Blocks.{get_raw_block_confirmation_risk, get_block_confirmation_risk}
use go_conflux_sdk.Client.Batch.{
  Leftovers, member, put_rate, rates_from, batch_get_raw_block_confirmation_risk,
  batch_get_block_confirmation_risk,
}
use go_conflux_sdk.Client.Batch.RiskNode.{RiskNode}
use go_conflux_sdk.Client.Batch.Risks.{batch_risk-single, batch_risk_iff}

or_zero : Result ℤ → ℤ
or_zero (ok r) = r
or_zero (err e) = pos 0
or_zero panic = pos 0

-- A key of an entry is among the keys.
member-keys :
    {V : Type 0} (h : Text) (v : V) (d : Dict V) → lookup h d ≡ some v → member h (keys d) ≡ true
unfolding member lookup keys
member-keys h v [] e = absurd (cc e)
member-keys h v ((k, u) ∷ d) e = ground (arith, member-keys h v d)

-- The loop never fails, and the entry of a key that it reaches is the rate of its risk.
module _ {W : Type 0} (order : List Text → List Text) (Q : Requester W) (F : Leftovers)
    (E : Ethereum) (table : Dict ℤ) where
  abbrev pub rate_at : Option ℤ → Option Float → Option Float
  rate_at none old = old
  rate_at (some r) old = some (risk_rate r)

  rate_at_twice : (o : Option ℤ) (old : Option Float) → rate_at o (rate_at o old) ≡ rate_at o old
  rate_at_twice none old = refl
  rate_at_twice (some r) old = refl

  put_rate-total :
      (x : Text) (o : Option ℤ) (d : Dict Float)
      → (d' : Dict Float) × (put_rate order Q F E x o d ≡ ok d')
        × ((h : Text) → lookup h d' ≡ (if text_eq x h then rate_at o (lookup h d) else lookup h d))
  unfolding put_rate calc_block_confirmation_risk
  put_rate-total x none d = (d, refl, λ h. ground arith)
  put_rate-total x (some r) d =
      (insert x (risk_rate r) d, refl, λ h. ground (arith, lookup-insert x h (risk_rate r) d))

  pub rates_from-total :
      (hs : List Text) (d : Dict Float)
      → (d' : Dict Float) × (rates_from order Q F E table hs d ≡ ok d')
        × ((h : Text)
            → lookup h d'
              ≡ (if member h hs then rate_at (lookup h table) (lookup h d) else lookup h d))
  unfolding rates_from member
  rates_from-total [] d = (d, refl, λ h. refl)
  rates_from-total (x ∷ xs) d =
      let (d1, put, put_finds) = put_rate-total x (lookup x table) d in
      let (d2, done, finds) = rates_from-total xs d1 in
      (
        d2,
        rw put done,
        λ h. ground (
          arith,
          finds h,
          put_finds h,
          text_eq_iff x h,
          rate_at_twice (lookup h table) (lookup h d),
        ),
      )

module _ {W : Type 0} (order : List Text → List Text) (Q : Requester W) (F : Leftovers)
    (E : Ethereum) (N : RiskNode order Q E) where
  single_rate :
      (h : Hash) (w : W) (r : ℤ)
      → get_raw_block_confirmation_risk E Q h w ≡ (ok r, w)
      → get_block_confirmation_risk E Q h w ≡ (ok (some (risk_rate r)), w)
  unfolding get_block_confirmation_risk risk_rate
  single_rate h w r e = rw e refl

  -- A key that has no risk gets no rate, and one that has a risk is reached by the loop.
  reached :
      (table : Dict ℤ) (h : Text) (o : Option ℤ)
      → lookup h table ≡ o
      → (if member h (order (keys table)) then rate_at order Q F E table o none else none)
        ≡ rate_at order Q F E table o none
  reached table h none at = ground arith
  reached table h (some r) at = rw (N.node.covers (keys table) h (member-keys h r table at)) refl

  rate_of_entry :
      (table : Dict ℤ) (b : Bool) (r : ℤ) (f : Float)
      → (b ≡ true → risk_rate r ≡ f)
      → rate_at order Q F E table (if b then some r else none) none ≡ (if b then some f else none)
  rate_of_entry table true r f e = ap (λ (g : Float). some g) (e refl)
  rate_of_entry table false r f e = refl

  -- The batch of the rates from that of the risks.
  batch_rate-risks :
      (hashes : List Hash) (w : W) (table : Dict ℤ)
      → (batch_get_raw_block_confirmation_risk order Q F E hashes w).0 ≡ ok table
      → (d : Dict Float) × ((batch_get_block_confirmation_risk order Q F E hashes w).0 ≡ ok d)
        × ((h : Text) → lookup h d ≡ rate_at order Q F E table (lookup h table) none)
  batch_rate-risks hashes w table got =
      let (d, done, finds) = rates_from-total order Q F E table (order (keys table)) [] in
      (
        d,
        unfold batch_get_block_confirmation_risk in rw got done,
        λ h. unfold lookup in finds h ∙ reached table h (lookup h table) refl,
      )

  -- When the batch of the rates succeeds on a node whose answers do not change and are the same in a
  -- batch and alone, it has for every hash that was asked for the rate that the single query returns
  -- for it.
  pub batch_rate-single :
      (hashes : List Hash) (w : W) (d : Dict Float)
      → (batch_get_block_confirmation_risk order Q F E hashes w).0 ≡ ok d
      → (h : Hash) → member h hashes ≡ true
      → (f : Float) × (lookup h d ≡ some f)
        × (get_block_confirmation_risk E Q h w ≡ (ok (some f), w))
  unfolding batch_get_block_confirmation_risk
  batch_rate-single hashes w d e h m =
      let o = batch_get_raw_block_confirmation_risk order Q F E hashes w in
      let (table, got, _) =
        continue_ok o.0 o.1 (λ t. lift (rates_from order Q F E t (order (keys t)) [])) d e in
      let (d', got', finds) = batch_rate-risks hashes w table got in
      let same : d' ≡ d = ok_injective (sym got' ∙ e) in
      let (r, at, single) = batch_risk-single order Q F E N hashes w table got h m in
      (risk_rate r, ap (lookup h) (sym same) ∙ finds h ∙ rw at refl, single_rate h w r single)

  -- The risk that stands behind a rate.
  abbrev risk_of_single : Hash → W → ℤ
  risk_of_single h w = or_zero (get_raw_block_confirmation_risk E Q h w).0

  risk_of_rate :
      (h : Hash) (w : W) (f : Float) (o : Result ℤ) (w' : W)
      → get_raw_block_confirmation_risk E Q h w ≡ (o, w')
      → (get_block_confirmation_risk E Q h w).0 ≡ ok (some f)
      → (o ≡ ok (or_zero o)) × (risk_rate (or_zero o) ≡ f)
  unfolding get_block_confirmation_risk risk_rate or_zero
  risk_of_rate h w f (ok r) w' at e = (refl, cc (rw at at e))
  risk_of_rate h w f (err x) w' at e = absurd (cc (rw at at e))
  risk_of_rate h w f panic w' at e = absurd (cc (rw at at e))

  -- The map of the batch has these rates of the hashes that were asked for, and nothing else.
  abbrev pub Rates : List Hash → (Hash → Float) → Dict Float → Type 0
  Rates hashes f d = (h : Hash) → lookup h d ≡ (if member h hashes then some (f h) else none)

  batch_rate-total :
      (hashes : List Hash) (f : Hash → Float) (w : W)
      → ((h : Hash)
          → member h hashes ≡ true
          → (get_block_confirmation_risk E Q h w).0 ≡ ok (some (f h)))
      → (d : Dict Float) × ((batch_get_block_confirmation_risk order Q F E hashes w).0 ≡ ok d)
        × Rates hashes f d
  batch_rate-total hashes f w single =
      let risks =
        λ (h : Hash) (m : member h hashes ≡ true). risk_of_rate h w (f h) _ _ refl (single h m) in
      let (table, got, entries) =
        (batch_risk_iff order Q F E N hashes (λ h. risk_of_single h w) w).0
          (λ h m. (risks h m).0) in
      let (d, done, finds) = batch_rate-risks hashes w table got in
      (
        d,
        done,
        λ h.
            finds h
            ∙ ap (λ (o : Option ℤ). rate_at order Q F E table o none) (entries h)
            ∙ rate_of_entry table (member h hashes) (risk_of_single h w) (f h) (λ m. (risks h m).1),
      )

  -- On a node whose answers do not change and are the same in a batch and alone, which answers no
  -- risk that is an empty text and answers the queries of the summaries, GetBlockConfirmationRisk
  -- returns given rates for the hashes that are asked for exactly if
  -- BatchGetBlockConfirmationRisk succeeds with these rates and no others.
  pub batch_rate_iff :
      (hashes : List Hash) (f : Hash → Float) (w : W)
      → ((h : Hash)
          → member h hashes ≡ true
          → (get_block_confirmation_risk E Q h w).0 ≡ ok (some (f h)))
        ↔ ((d : Dict Float) × ((batch_get_block_confirmation_risk order Q F E hashes w).0 ≡ ok d)
            × Rates hashes f d)
  batch_rate_iff hashes f w = (
    batch_rate-total hashes f w,
    λ (d, got, entries) h m.
        let (f', found, single) = batch_rate-single hashes w d got h m in
        ap (λ (o : Result (Option Float) × W). o.0) single
        ∙ ap (λ (o : Option Float). ok o) (sym found ∙ entries h ∙ rw m refl),
  )
