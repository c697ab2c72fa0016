-- ===== src/Classifier/Merge/Advice.antt =====
-- What advice changes in a verdict (eyenet/classifier/aggregate/_llm_merge.py).
use mathlib.Core.List.{append-nil}
use eyenet.Common.{
  ◌≡◌, refl, sym, ap, ◌∙◌, ltb, inl, inr, true, List, [], ◌∷◌, ◌++◌, map, arith, keep_if,
  keep_if-append, Bool-cases, not, ◌&&◌, if◌then◌else◌,
}
use eyenet.Tier.{SensitivityTier, normal, classified, max_tier, same_tier, tier_order}
use eyenet.Classifier.Verdict.{LlmAdvisory, ReviewFlag, ClassificationVerdict}
use eyenet.Classifier.Merge.{
  advised, exceeds, is_over, couple_over_classification, higher_flag, apply_llm_advisory,
}

-- The tripwire's test is that the advice lies strictly above the tier.
exceeds-ltb :
    (s t : SensitivityTier)
    → (not (same_tier t classified) && exceeds s t) ≡ ltb (tier_order t) (tier_order s)
unfolding exceeds max_tier
exceeds-ltb s t = ground arith

abbrev pub demotions : List ReviewFlag → List ReviewFlag
demotions = keep_if (λ f. is_over f.kind)

abbrev pub others : List ReviewFlag → List ReviewFlag
others = keep_if (λ f. not (is_over f.kind))

abbrev pub corroborate : ReviewFlag → ReviewFlag
corroborate f = record f { corroborated = true }

couple-demotions :
    (flags : List ReviewFlag) (s : SensitivityTier)
    → demotions (couple_over_classification flags s)
      ≡ (if same_tier s normal then map corroborate (demotions flags) else [])
unfolding couple_over_classification
couple-demotions [] s = ground arith
couple-demotions (f ∷ flags) s = ground (arith, couple-demotions flags s)

couple-others :
    (flags : List ReviewFlag) (s : SensitivityTier)
    → others (couple_over_classification flags s) ≡ others flags
unfolding couple_over_classification
couple-others [] s = refl
couple-others (f ∷ flags) s = ground (arith, couple-others flags s)

-- Advice keeps the tier of a verdict. The flags that suggest a demotion all stay, marked as
-- corroborated, if the advice judged the document `normal`, and are all dropped otherwise. The other
-- flags stay, in their order, and the flag for a higher tier follows them exactly when the advice lies
-- strictly above the tier.
pub advice_flags :
    (v : ClassificationVerdict) (a : LlmAdvisory)
    → let w = apply_llm_advisory v (advised a) in
      (w.tier ≡ v.tier)
      × (demotions w.review_flags ≡ (
          if same_tier a.suggested_tier normal
          then map corroborate (demotions v.review_flags)
          else []))
      × (others w.review_flags ≡ (
          others v.review_flags
          ++ (if ltb (tier_order v.tier) (tier_order a.suggested_tier)
              then higher_flag a v.tier ∷ []
              else [])))
unfolding apply_llm_advisory
advice_flags v a =
    let coupled = couple_over_classification v.review_flags a.suggested_tier in
    let dropped = couple-demotions v.review_flags a.suggested_tier in
    let kept = couple-others v.review_flags a.suggested_tier in
    elim (Bool-cases (not (same_tier v.tier classified) && exceeds a.suggested_tier v.tier)) [
      | inl e ↦
          let above = sym (exceeds-ltb a.suggested_tier v.tier) ∙ e in
          rw (e, above)
            (
              refl,
              keep_if-append _ coupled (higher_flag a v.tier ∷ []) ∙ append-nil _ ∙ dropped,
              keep_if-append _ coupled (higher_flag a v.tier ∷ [])
                  ∙ ap (λ r. r ++ higher_flag a v.tier ∷ []) kept,
            )
      | inr e ↦
          let level = sym (exceeds-ltb a.suggested_tier v.tier) ∙ e in
          rw (e, level) (refl, dropped, kept ∙ sym (append-nil _))
    ]
