-- ===== src/Tests/Stages.antt =====
-- The classifier's stages, their aggregate and the merge of advice at concrete inputs.
use mathlib.Core.List.{Perm}
use eyenet.Common.{
  ℕ, ◌+◌, ◌≡◌, refl, ◌≢◌, ◌↔◌, String, false, none, some, List, [], ◌∷◌, ◌++◌, All, Any,
}
use eyenet.Tier.{SensitivityTier, normal, max_tier, max_from, restricted, classified, ◌⊑◌}
use eyenet.Classifier.Ruleset.{
  RuleMatch, RegexVerdict, CompiledRule, CompiledRuleset, matches_of, classify,
}
use eyenet.Classifier.Ruleset.Floor.{FiredBelow, classify_floor}
use eyenet.Classifier.Presidio.{
  PiiFinding, PiiMap, EntityRule, PresidioVerdict, is_noise, dedup_and_gate, dedup_from, keep_best,
  put, map_findings,
}
use eyenet.Classifier.Presidio.Entries.{HasDistinctKeys, StandsFor}
use eyenet.Classifier.Presidio.Survivors.{dedup_and_gate_best}
use eyenet.Classifier.Presidio.Floor.{RuledBelow, DenseBelow, identifiers, map_findings_floor}
use eyenet.Classifier.Verdict.{Extraction, extract_result, LlmAdvisory, high, ClassificationVerdict}
use eyenet.Classifier.Aggregate.{aggregate, extraction_provenance}
use eyenet.Classifier.Aggregate.Floors.{aggregate_tier}
use eyenet.Classifier.Aggregate.Flags.{IsDemotable, IsExtracted, aggregate_flags_iff}
use eyenet.Classifier.Merge.{advised, apply_llm_advisory}
use eyenet.Classifier.Merge.Advice.{demotions, others, advice_flags}

-- a rule that finds its one span in every text
abbrev rule_at : String → SensitivityTier → ℕ → CompiledRule
rule_at name tier at = record {
  name = name;
  finditer = λ text. record { start = at; end = at + 6; group = "SECRET" } ∷ [];
  tier_floor = tier;
  lang = none;
}

-- a rule that finds nothing
abbrev silent : CompiledRule
silent = record {
  name = "silent";
  finditer = λ text. [];
  tier_floor = classified;
  lang = some "en";
}

abbrev rules : CompiledRuleset
rules = record {
  version = "3";
  rules =
      rule_at "banner_en" classified 9 ∷ silent ∷ rule_at "fp_template_placeholder" normal 2 ∷ [];
}

-- normalization, where the text is already normal
abbrev nfc : String → String
nfc text = text

classify_floor_example :
    ((b : SensitivityTier)
      → ((classify nfc "a text" rules).tier_floor ⊑ b) ↔ FiredBelow rules.rules "a text" b)
    × Perm (classify nfc "a text" rules).matches (matches_of rules.rules "a text")
classify_floor_example = classify_floor nfc "a text" rules

abbrev finding : String → ℕ → ℕ → String → PiiFinding
finding entity_type start score language = record {
  entity_type = entity_type;
  start = start;
  end = start + 8;
  score = score;
  language = language;
  text = "redacted";
}

abbrev rule : SensitivityTier → ℕ → EntityRule
rule tier_floor min_score = record { tier_floor = tier_floor; min_score = min_score }

abbrev pii_map : PiiMap
pii_map = record {
  map_version = "1";
  entities =
      ("PERSON", rule normal 50)
      ∷ ("CREDIT_CARD", rule restricted 40)
      ∷ ("US_SSN", rule classified 60)
      ∷ [];
  restricted_at = 5;
  classified_at = 20;
}

abbrev findings : List PiiFinding
findings =
    finding "PERSON" 0 80 "en"
    ∷ finding "CREDIT_CARD" 20 60 "es"
    ∷ finding "CREDIT_CARD" 20 90 "en"
    ∷ finding "US_SSN" 40 10 "en"
    ∷ []

survivors_run :
    dedup_and_gate findings pii_map
    ≡ finding "PERSON" 0 80 "en" ∷ finding "CREDIT_CARD" 20 90 "en" ∷ []
unfolding dedup_and_gate dedup_from keep_best put
survivors_run = refl

dedup_and_gate_best_example :
    HasDistinctKeys (dedup_and_gate findings pii_map)
    × All
        (λ f. Any (λ g. g ≡ f) findings × (is_noise pii_map f ≡ false))
        (dedup_and_gate findings pii_map)
    × All
        (λ f. is_noise pii_map f ≡ false → Any (StandsFor f) (dedup_and_gate findings pii_map))
        findings
dedup_and_gate_best_example = dedup_and_gate_best findings pii_map

map_findings_floor_example : ((map_findings findings pii_map).tier_floor ⊑ restricted) ↔ (
    All (RuledBelow pii_map restricted) (dedup_and_gate findings pii_map)
    × DenseBelow pii_map (identifiers pii_map (dedup_and_gate findings pii_map)) restricted)
map_findings_floor_example = map_findings_floor findings pii_map restricted

abbrev names : List PiiFinding
names = finding "PERSON" 0 80 "en" ∷ finding "EMAIL" 9 70 "en" ∷ []

abbrev text_of : Extraction
text_of =
    extract_result "a text" (record { doc_kind = some "pdf"; empty = false; ocr_applied = false })

abbrev match_of : String → SensitivityTier → RuleMatch
match_of name tier = record {
  rule_name = name;
  tier_floor = tier;
  start = 0;
  end = 6;
  matched_text = "SECRET";
  lang = none;
}

abbrev regex : RegexVerdict
regex = record {
  tier_floor = classified;
  matches = match_of "banner_en" classified ∷ match_of "fp_creative_works" normal ∷ [];
  ruleset_version = "3";
  engine = "re2";
}

abbrev quiet : RegexVerdict
quiet = record { tier_floor = normal; matches = []; ruleset_version = "3"; engine = "re2" }

abbrev pii : PresidioVerdict
pii = record {
  tier_floor = normal;
  matches = [];
  map_version = "1";
  engine = "presidio";
  fail_closed = false;
}

aggregate_tier_example : ((aggregate text_of regex pii (some quiet)).tier ⊑ restricted) ↔ (
    ((extraction_provenance text_of).tier_floor ⊑ restricted)
    × (regex.tier_floor ⊑ restricted)
    × (pii.tier_floor ⊑ restricted)
    × (quiet.tier_floor ⊑ restricted))
aggregate_tier_example = aggregate_tier text_of regex pii quiet restricted

aggregate_flags_iff_example :
    let v = aggregate text_of regex pii none in
    (v.review_flags ≢ [])
    ↔ (IsExtracted text_of × (pii.fail_closed ≡ false) × IsDemotable v.tier regex pii)
aggregate_flags_iff_example = aggregate_flags_iff text_of regex pii none

abbrev verdict : ClassificationVerdict
verdict = aggregate text_of quiet pii none

abbrev advice : SensitivityTier → LlmAdvisory
advice tier = record {
  suggested_tier = tier;
  summary = "a memo";
  indicators = [];
  confidence = high;
  model = "local";
  truncated_input = false;
  attempts = 1;
}

advice_flags_example :
    let v = aggregate text_of regex pii none in
    let w = apply_llm_advisory v (advised (advice restricted)) in
    (w.tier ≡ v.tier)
    × (demotions w.review_flags ≡ [])
    × (others w.review_flags ≡ others v.review_flags ++ [])
unfolding aggregate max_tier max_from
advice_flags_example = advice_flags (aggregate text_of regex pii none) (advice restricted)
