-- ===== src/Classifier/Aggregate.antt =====
-- The aggregator (eyenet/classifier/aggregate/_aggregate.py): three or four floors into one tier, and
-- the review flag for a tier that false positives may have caused.
pub mod Floors
pub mod Flags
use eyenet.Common.{
  String, Bool, true, false, Option, none, some, List, [], ◌∷◌, ◌++◌, map, str_eq, any, all,
  keep_if, is_empty, not, ◌&&◌, ◌||◌, or_else, if◌then◌else◌,
}
use eyenet.Common.Sorting.{sorted_set}
use eyenet.Tier.{SensitivityTier, normal, classified, max_tier, same_tier}
use eyenet.Classifier.Ruleset.{RuleMatch, RegexVerdict}
use eyenet.Classifier.Presidio.{PresidioVerdict}
use eyenet.Classifier.Verdict.{
  Extraction, extract_result, failed_closed, plain, extraction_flags, counter_signals, named,
  of_reason, possible_over_classification, ReviewFlag, Stage, StageProvenance,
  ClassificationVerdict,
}

abbrev pub counter_signal_rules : List String
counter_signal_rules = "fp_template_placeholder" ∷ "fp_creative_works" ∷ []

abbrev pub fp_prone_rules : List String
fp_prone_rules =
    "banner_en" ∷ "banner_un" ∷ "corp_confidential_en" ∷ "corp_confidential_es"
    ∷ "corp_confidential_pt" ∷ "caveats_uk_en" ∷ "caveats_au_ca_en" ∷ []

pub is_counter_signal : String → Bool
is_counter_signal name = any (str_eq name) counter_signal_rules

pub is_fp_prone : String → Bool
is_fp_prone name = any (str_eq name) fp_prone_rules

abbrev pub extraction_provenance : Extraction → StageProvenance
extraction_provenance (failed_closed reason detail) = record {
  stage = Stage.extraction;
  tier_floor = classified;
  version = of_reason reason;
  fail_closed = true;
  detail = plain detail;
}
extraction_provenance (extract_result text meta) = record {
  stage = Stage.extraction;
  tier_floor = normal;
  version = named (or_else meta.doc_kind "unknown");
  fail_closed = false;
  detail = extraction_flags meta.empty meta.ocr_applied;
}

-- `counter`: the names of the counter-signal rules that matched
abbrev pub counter : RegexVerdict → List String
counter regex =
    sorted_set (map (λ m. m.rule_name) (keep_if (λ m. is_counter_signal m.rule_name) regex.matches))

abbrev pub tier_driving : SensitivityTier → RegexVerdict → List RuleMatch
tier_driving tier regex = keep_if (λ m. same_tier m.tier_floor tier) regex.matches

unfoldable pub counter_signal_flags :
    SensitivityTier → RegexVerdict → PresidioVerdict → Bool → List ReviewFlag
counter_signal_flags tier regex presidio fail_closed =
    if fail_closed || same_tier tier normal
    then []
    else if is_empty (counter regex)
    then []
    else if same_tier presidio.tier_floor tier
    then []
    else if is_empty (tier_driving tier regex)
        || not (all (λ m. is_fp_prone m.rule_name) (tier_driving tier regex))
    then []
    else record {
      kind = possible_over_classification;
      detail =
          counter_signals (counter regex)
            (sorted_set (map (λ m. m.rule_name) (tier_driving tier regex)));
      suggested_tier = some normal;
      corroborated = false;
    }
      ∷ []

abbrev pub regex_provenance : RegexVerdict → StageProvenance
regex_provenance regex = record {
  stage = Stage.regex;
  tier_floor = regex.tier_floor;
  version = named regex.ruleset_version;
  fail_closed = false;
  detail = plain "";
}

abbrev pub presidio_provenance : PresidioVerdict → StageProvenance
presidio_provenance presidio = record {
  stage = Stage.presidio;
  tier_floor = presidio.tier_floor;
  version = named presidio.map_version;
  fail_closed = presidio.fail_closed;
  detail = plain "";
}

abbrev pub metadata_provenance : RegexVerdict → StageProvenance
metadata_provenance meta_regex = record {
  stage = Stage.metadata;
  tier_floor = meta_regex.tier_floor;
  version = named meta_regex.ruleset_version;
  fail_closed = false;
  detail = plain "escalate-only: embedded metadata as a regex text source (slice 9)";
}

abbrev pub metadata_stage : Option RegexVerdict → List StageProvenance
metadata_stage none = []
metadata_stage (some meta_regex) = metadata_provenance meta_regex ∷ []

abbrev pub provenance_of :
    Extraction → RegexVerdict → PresidioVerdict → Option RegexVerdict → List StageProvenance
provenance_of extraction regex presidio meta_regex =
    extraction_provenance extraction
    ∷ regex_provenance regex
    ∷ presidio_provenance presidio
    ∷ metadata_stage meta_regex

unfoldable pub aggregate :
    Extraction → RegexVerdict → PresidioVerdict → Option RegexVerdict → ClassificationVerdict
aggregate extraction regex presidio meta_regex =
    let provenance = provenance_of extraction regex presidio meta_regex in
    let tier = max_tier (map (λ p. p.tier_floor) provenance) in
    let fail_closed = (extraction_provenance extraction).fail_closed || presidio.fail_closed in
    record {
      tier = tier;
      provenance = provenance;
      regex = regex;
      presidio = presidio;
      review_flags = counter_signal_flags tier regex presidio fail_closed;
      consult_llm = not (same_tier tier classified) && not fail_closed;
      fail_closed = fail_closed;
      llm = none;
    }
