-- ===== src/Classifier/Aggregate/Floors.antt =====
-- The tier of the aggregate and the floors of its stages
-- (eyenet/classifier/aggregate/_aggregate.py).
use eyenet.Common.{String, ◌&&◌, ◌≡◌, refl, ◌↔◌, Bool, true, false, none, some, [], ◌∷◌, arith}
use eyenet.Tier.{SensitivityTier, classified, max_tier, ◌⊑◌}
use eyenet.Tier.Laws.{max_tier_iff, classified_top, eq_of_bounds}
use eyenet.Classifier.Ruleset.{RegexVerdict}
use eyenet.Classifier.Presidio.{PresidioVerdict}
use eyenet.Classifier.Verdict.{Extraction, failed_closed, FailReason}
use eyenet.Classifier.Aggregate.{aggregate, extraction_provenance, counter_signal_flags}

-- With metadata, the tier lies below `b` exactly when every floor does: extraction, regex, PII, and the
-- floor of the metadata's own regex pass.
pub aggregate_tier :
    (e : Extraction) (regex : RegexVerdict) (pii : PresidioVerdict) (meta : RegexVerdict)
    (b : SensitivityTier)
    → ((aggregate e regex pii (some meta)).tier ⊑ b) ↔ (
        ((extraction_provenance e).tier_floor ⊑ b)
        × (regex.tier_floor ⊑ b)
        × (pii.tier_floor ⊑ b)
        × (meta.tier_floor ⊑ b))
unfolding aggregate
aggregate_tier e regex pii meta b = (
  (λ h. let r = (max_tier_iff _ b).0 h in (r.0, r.1.0, r.1.1.0, r.1.1.1.0)),
  (λ h. (max_tier_iff _ b).1 (h.0, (h.1, (h.2, (h.3, tt))))),
)

aggregate_tier_plain :
    (e : Extraction) (regex : RegexVerdict) (pii : PresidioVerdict) (b : SensitivityTier)
    → ((aggregate e regex pii none).tier ⊑ b)
      ↔ (((extraction_provenance e).tier_floor ⊑ b) × (regex.tier_floor ⊑ b) × (pii.tier_floor ⊑ b))
unfolding aggregate
aggregate_tier_plain e regex pii b = (
  (λ h. let r = (max_tier_iff _ b).0 h in (r.0, r.1.0, r.1.1.0)),
  (λ h. (max_tier_iff _ b).1 (h.0, (h.1, (h.2, tt)))),
)

-- Metadata only escalates: with it the tier is the join of the tier without it and its own floor.
pub aggregate_metadata :
    (e : Extraction) (regex : RegexVerdict) (pii : PresidioVerdict) (meta : RegexVerdict)
    → (aggregate e regex pii (some meta)).tier
      ≡ max_tier ((aggregate e regex pii none).tier ∷ meta.tier_floor ∷ [])
aggregate_metadata e regex pii meta = eq_of_bounds _ _ λ b. (
  (λ h.
      let w = (aggregate_tier e regex pii meta b).0 h in
      (max_tier_iff _ b).1 ((aggregate_tier_plain e regex pii b).1 (w.0, w.1, w.2), (w.3, tt))),
  (λ h.
      let w = (max_tier_iff _ b).0 h in
      let v = (aggregate_tier_plain e regex pii b).0 w.0 in
      (aggregate_tier e regex pii meta b).1 (v.0, v.1, v.2, w.1.0)),
)

and-false : (b : Bool) → (b && false) ≡ false
and-false b = ground arith

-- A document that could not be extracted is classified, whatever the other stages say; it raises no
-- flag that suggests a lower tier, and the language model is not asked.
pub aggregate_failed :
    (reason : FailReason) (detail : String) (regex : RegexVerdict) (pii : PresidioVerdict)
    (meta : RegexVerdict)
    → let v = aggregate (failed_closed reason detail) regex pii (some meta) in
      (v.tier ≡ classified)
      × (v.fail_closed ≡ true)
      × (v.review_flags ≡ [])
      × (v.consult_llm ≡ false)
unfolding aggregate counter_signal_flags
aggregate_failed reason detail regex pii meta = (
  classified_top _
      ((aggregate_tier (failed_closed reason detail) regex pii meta _).0 (omega arith)).0,
  refl,
  refl,
  and-false _,
)
