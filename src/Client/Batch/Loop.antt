-- ===== src/Client/Batch/Loop.antt =====
-- The loop of BatchGetRawBlockConfirmationRisk of client.go over the hashes.
use go_conflux_sdk.Base.{
  ◌≡◌, refl, sym, ap, ◌∙◌, subst, true, false, Option, some, List, [], ◌∷◌, Text, text_eq,
  text_eq_iff, text_eq_refl, if◌then◌else◌, arith, Bool-cases, inl, inr,
}
use go_conflux_sdk.Base.Int.{ℤ}
use go_conflux_sdk.Base.Dict.{Dict, lookup, insert, lookup-insert}
use go_conflux_sdk.Result.{bind_ok, ok_injective, Result, ok}
use go_conflux_sdk.Ethereum.{Ethereum}
use go_conflux_sdk.Types.Address.{Hash}
use go_conflux_sdk.Types.Block.{BlockSummary}
use go_conflux_sdk.Client.Requester.{Requester}
use go_conflux_sdk.Client.Batch.{
  Leftovers, member, result_of, without_risk, summary_at, risk_of, risks,
}

module _ {W : Type 0} (order : List Text → List Text) (Q : Requester W) (F : Leftovers)
    (E : Ethereum) (table : Dict Text) where
  pub without_risk-member :
      (h : Hash) (hs : List Hash)
      → result_of [] table h ≡ []
      → member h hs ≡ true
      → member h (without_risk order Q F E table hs) ≡ true
  unfolding without_risk member
  without_risk-member h [] e m = absurd (cc m)
  without_risk-member h (x ∷ xs) e m =
      ground (arith, e, m, text_eq_iff x h, without_risk-member h xs e)

  module _ (summaries : Dict (Option BlockSummary)) where
    abbrev pub risk_at : Hash → Result ℤ
    risk_at h = risk_of order Q F E (result_of [] table h) (summary_at order Q F E summaries h)

    risks_step :
        (x : Hash) (xs : List Hash) (d d' : Dict ℤ)
        → risks order Q F E table summaries (x ∷ xs) d ≡ ok d'
        → (r : ℤ) × (risk_at x ≡ ok r)
          × (risks order Q F E table summaries xs (insert x r d) ≡ ok d')
    unfolding risks
    risks_step x xs d d' e =
        bind_ok (risk_at x) (λ r. risks order Q F E table summaries xs (insert x r d)) d' e

    risks_other :
        (h : Hash) (hs : List Hash) (d d' : Dict ℤ)
        → risks order Q F E table summaries hs d ≡ ok d'
        → member h hs ≡ false
        → lookup h d' ≡ lookup h d
    unfolding member
    risks_other h [] d d' e out = unfold risks in ap (lookup h) (sym (ok_injective e))
    risks_other h (x ∷ xs) d d' e out =
        let (r, at, rest) = risks_step x xs d d' e in
        let other = risks_other h xs (insert x r d) d' rest in
        ground (arith, out, other, lookup-insert x h r d)

    pub risks-member :
        (h : Hash) (hs : List Hash) (d d' : Dict ℤ)
        → risks order Q F E table summaries hs d ≡ ok d'
        → member h hs ≡ true
        → (r : ℤ) × (risk_at h ≡ ok r) × (lookup h d' ≡ some r)
    unfolding member
    risks-member h [] d d' e m = absurd (cc m)
    risks-member h (x ∷ xs) d d' e m =
        let (r, at, rest) = risks_step x xs d d' e in
        elim (Bool-cases (member h xs)) [
          | inl later ↦ risks-member h xs (insert x r d) d' rest later
          | inr last ↦
              let same : text_eq x h ≡ true = ground (arith, m, last) in
              let x_eq : x ≡ h = (text_eq_iff x h).0 same in
              (
                r,
                subst (λ (y : Hash). risk_at y ≡ ok r) x_eq at,
                risks_other h xs (insert x r d) d' rest last ∙ lookup-insert x h r d ∙ rw same refl,
              )
        ]

    -- When each hash has its risk, the loop ends with these.
    pub risks-total :
        (r : Hash → ℤ) (hs : List Hash) (d : Dict ℤ)
        → ((h : Hash) → member h hs ≡ true → risk_at h ≡ ok (r h))
        → (d' : Dict ℤ) × (risks order Q F E table summaries hs d ≡ ok d')
          × ((h : Hash) → lookup h d' ≡ (if member h hs then some (r h) else lookup h d))
    unfolding risks member
    risks-total r [] d at = (d, refl, λ h. refl)
    risks-total r (x ∷ xs) d at =
        let now : risk_at x ≡ ok (r x) = at x (ground (arith, text_eq_refl x)) in
        let (d', done, finds) =
          risks-total r xs (insert x (r x) d) (λ h m. at h (ground (arith, m))) in
        (d', rw now done, λ h. ground (arith, finds h, lookup-insert x h (r x) d, text_eq_iff x h))
