-- ===== src/Client/Batch/Risks.antt =====
-- BatchGetRawBlockConfirmationRisk of client.go against GetRawBlockConfirmationRisk.
use go_conflux_sdk.Base.{
  ℕ, ◌≡◌, refl, sym, ap, ◌∙◌, ◌↔◌, true, Option, none, some, List, [], ◌∷◌, Text, or_default,
  if◌then◌else◌,
}
use go_conflux_sdk.Base.Int.{ℤ}
use go_conflux_sdk.Base.Dict.{Dict, lookup}
use go_conflux_sdk.Client.Batch.Loop.{without_risk-member, risk_at, risks-member, risks-total}
use go_conflux_sdk.Result.{Result, ok, panic}
use go_conflux_sdk.Exec.{continue, lift}
use go_conflux_sdk.Ethereum.{Ethereum}
use go_conflux_sdk.Types.Address.{Hash}
use go_conflux_sdk.Types.Block.{BlockSummary, empty_summary}
use go_conflux_sdk.Client.Requester.{Requester, Answer}
use go_conflux_sdk.Client.Blocks.{epoch_of_summary, get_raw_block_confirmation_risk}
use go_conflux_sdk.Client.Batch.{
  Leftovers, member, distinct, text_results, result_of, risk_elem, batch_get_block_summarys,
  without_risk, summary_at, risk_of, risks, batch_get_raw_block_confirmation_risk, risks_from,
}
use go_conflux_sdk.Client.Batch.Answers.{filled, result_of-order}
use go_conflux_sdk.Client.Batch.Singles.{batch_answers, batch_get_block_summarys-single}
use go_conflux_sdk.Client.Batch.RiskNode.{
  RiskNode, risk_text, risk_answer_of, held-risk, single_none, single_some,
}

epoch_of_or_empty :
    (p : Option BlockSummary)
    → epoch_of_summary (some (or_default p empty_summary)) ≡ epoch_of_summary p
epoch_of_or_empty none = refl
epoch_of_or_empty (some s) = refl

continue-lift :
    {A B W : Type 0} (o : Result A × W) (a : A) (f : A → Result B)
    → o.0 ≡ ok a
    → (continue o (λ x. lift (f x))).0 ≡ f a
continue-lift o a f e = rw e refl

abbrev ok_or : Option ℤ → Result ℤ
ok_or none = panic
ok_or (some r) = ok r

module _ {W : Type 0} (order : List Text → List Text) (Q : Requester W) (F : Leftovers)
    (E : Ethereum) (N : RiskNode order Q E) where
  abbrev risk_answers : Hash → Answer
  risk_answers = risk_answer_of order Q F E N

  abbrev table_of : List Hash → Dict Text
  table_of hs = filled order N.node.covers (text_results order Q F E) risk_answers hs

  table_of-risk :
      (hs : List Hash) (h : Hash)
      → member h hs ≡ true
      → result_of [] (table_of hs) h ≡ risk_text (N.risk h)
  table_of-risk hs h m =
      result_of-order order N.node.covers (text_results order Q F E) risk_answers hs h m
      ∙ held-risk order Q F E N h

  -- The entry of a hash without a risk in the map of the summaries.
  abbrev Summarised : List Hash → Dict (Option BlockSummary) → Type 0
  Summarised hs s =
      (h : Hash)
      → lookup h s ≡ (
          if member h (without_risk order Q F E (table_of hs) hs)
          then some (some (or_default (N.summary h) empty_summary))
          else none)

  -- The loop makes of a hash what the single query makes of it.
  risk_at-single :
      (hs : List Hash) (s : Dict (Option BlockSummary)) (h : Hash) (w : W)
      → member h hs ≡ true
      → Summarised hs s
      → (p : Option (ℕ × Text)) → N.risk h ≡ p
      → get_raw_block_confirmation_risk E Q h w ≡ (risk_at order Q F E (table_of hs) s h, w)
  unfolding risk_of summary_at
  risk_at-single hs s h w m finds none e =
      let empty_text : result_of [] (table_of hs) h ≡ [] = table_of-risk hs h m ∙ ap risk_text e in
      let missing = without_risk-member order Q F E (table_of hs) h hs empty_text m in
      let entry : lookup h s ≡ some (some (or_default (N.summary h) empty_summary)) =
        finds h ∙ rw missing refl in
      single_none order Q F E N h w e ∙ rw (empty_text, entry, epoch_of_or_empty (N.summary h)) refl
  risk_at-single hs s h w m finds (some p) e =
      let full : result_of [] (table_of hs) h ≡ risk_text (some p) =
        table_of-risk hs h m ∙ ap risk_text e in
      single_some order Q F E N h w p e ∙ rw full refl

  batch_step :
      (x : Hash) (xs : List Hash) (w : W)
      → batch_get_raw_block_confirmation_risk order Q F E (x ∷ xs) w
        ≡ risks_from order Q F E (table_of (x ∷ xs)) (x ∷ xs) w
  unfolding batch_get_raw_block_confirmation_risk
  batch_step x xs w =
      rw (batch_answers order Q N.node (risk_elem order Q F E) (order (distinct (x ∷ xs))) w) refl

  summaries_found :
      (hs : List Hash) (w : W)
      → (s : Dict (Option BlockSummary)) × ((batch_get_block_summarys order Q F E
            (without_risk order Q F E (table_of hs) hs)
            w).0
          ≡ ok s)
        × Summarised hs s
  summaries_found hs w =
      batch_get_block_summarys-single order Q N.node F E (without_risk order Q F E (table_of hs) hs)
        N.summary w λ h m. ap (λ (o : Result (Option BlockSummary) × W). o.0) (N.single_summary h w)

  -- The summaries come, and the loop follows.
  risks_from-risks :
      (hs : List Hash) (w : W)
      → (s : Dict (Option BlockSummary)) × Summarised hs s
        × ((risks_from order Q F E (table_of hs) hs w).0 ≡ risks order Q F E (table_of hs) s hs [])
  unfolding risks_from
  risks_from-risks hs w =
      let (s, got, finds) = summaries_found hs w in
      (
        s,
        finds,
        continue-lift
            (batch_get_block_summarys order Q F E (without_risk order Q F E (table_of hs) hs) w) s
            (λ a. risks order Q F E (table_of hs) a hs []) got,
      )

  batch_risk-risks :
      (x : Hash) (xs : List Hash) (w : W)
      → (s : Dict (Option BlockSummary)) × Summarised (x ∷ xs) s
        × ((batch_get_raw_block_confirmation_risk order Q F E (x ∷ xs) w).0
            ≡ risks order Q F E (table_of (x ∷ xs)) s (x ∷ xs) [])
  batch_risk-risks x xs w =
      let (s, finds, e) = risks_from-risks (x ∷ xs) w in
      (s, finds, ap (λ (o : Result (Dict ℤ) × W). o.0) (batch_step x xs w) ∙ e)

  -- When the batch succeeds on a node whose answers do not change and are the same in a batch and
  -- alone, it has for every hash that was asked for the risk that the single query returns for it.
  pub batch_risk-single :
      (hashes : List Hash) (w : W) (d : Dict ℤ)
      → (batch_get_raw_block_confirmation_risk order Q F E hashes w).0 ≡ ok d
      → (h : Hash) → member h hashes ≡ true
      → (r : ℤ) × (lookup h d ≡ some r) × (get_raw_block_confirmation_risk E Q h w ≡ (ok r, w))
  batch_risk-single [] w d e h m = unfold member in absurd (cc m)
  batch_risk-single (x ∷ xs) w d e h m =
      let (s, finds, loop) = batch_risk-risks x xs w in
      let (r, at, found) =
        risks-member order Q F E (table_of (x ∷ xs)) s h (x ∷ xs) [] d (sym loop ∙ e) m in
      (
        r,
        found,
        risk_at-single (x ∷ xs) s h w m finds (N.risk h) refl ∙ ap (λ (o : Result ℤ). (o, w)) at,
      )

  -- The map of the batch has these risks of the hashes that were asked for, and nothing else.
  abbrev pub Risks : List Hash → (Hash → ℤ) → Dict ℤ → Type 0
  Risks hashes r d = (h : Hash) → lookup h d ≡ (if member h hashes then some (r h) else none)

  batch_risk-total :
      (hashes : List Hash) (r : Hash → ℤ) (w : W)
      → ((h : Hash)
          → member h hashes ≡ true
          → (get_raw_block_confirmation_risk E Q h w).0 ≡ ok (r h))
      → (d : Dict ℤ) × ((batch_get_raw_block_confirmation_risk order Q F E hashes w).0 ≡ ok d)
        × Risks hashes r d
  batch_risk-total [] r w single =
      unfold batch_get_raw_block_confirmation_risk lookup member in ([], refl, λ h. refl)
  batch_risk-total (x ∷ xs) r w single =
      let (s, finds, loop) = batch_risk-risks x xs w in
      let (d, done, entries) = risks-total order Q F E (table_of (x ∷ xs)) s r (x ∷ xs) [] λ h m.
        sym (ap (λ (o : Result ℤ × W). o.0) (risk_at-single (x ∷ xs) s h w m finds (N.risk h) refl))
        ∙ single h m in
      (d, loop ∙ done, unfold lookup in entries)

  -- On a node whose answers do not change and are the same in a batch and alone, which answers no
  -- risk that is an empty text and answers the queries of the summaries,
  -- GetRawBlockConfirmationRisk returns given risks for the hashes that are asked for exactly if
  -- BatchGetRawBlockConfirmationRisk succeeds with these risks and no others.
  pub batch_risk_iff :
      (hashes : List Hash) (r : Hash → ℤ) (w : W)
      → ((h : Hash)
          → member h hashes ≡ true
          → (get_raw_block_confirmation_risk E Q h w).0 ≡ ok (r h))
        ↔ ((d : Dict ℤ) × ((batch_get_raw_block_confirmation_risk order Q F E hashes w).0 ≡ ok d)
            × Risks hashes r d)
  batch_risk_iff hashes r w = (
    batch_risk-total hashes r w,
    λ (d, got, entries) h m.
        let (r', found, single) = batch_risk-single hashes w d got h m in
        let same : some r' ≡ some (r h) = sym found ∙ entries h ∙ rw m refl in
        ap (λ (o : Result ℤ × W). o.0) single ∙ ap (λ (o : Option ℤ). ok_or o) same,
  )
