-- ===== src/Classifier/Verdict.antt =====
-- The values of the aggregator (eyenet/classifier/aggregate/_types.py), the extraction's outcome
-- (eyenet/classifier/sandbox/_types.py) and the advice of the language model
-- (eyenet/classifier/llm/base.py). Where the source formats a text for a human, the model keeps what
-- the text is made from (`Detail`, `Version`). Of an extraction's `meta` dictionary it keeps the keys
-- that the aggregator reads.
use eyenet.Common.{ℕ, String, Bool, Option, none, some, List, []}
use eyenet.Tier.{SensitivityTier}
use eyenet.Classifier.Ruleset.{RegexVerdict, redacted_regex}
use eyenet.Classifier.Presidio.{PresidioVerdict, redacted_presidio}

pub data FailReason : Type 0 where
  sandbox_degraded launch_failed parser_crash parser_killed timeout output_overflow bad_output
        unsupported_type extractor_unavailable :
      FailReason

-- `doc_kind` is `none` where the key is missing.
pub record Meta : Type 0 where
  pub doc_kind : Option String
  pub empty : Bool
  pub ocr_applied : Bool

-- `ExtractResult | FailedClosed`
pub data Extraction : Type 0 where
  extract_result : String → Meta → Extraction
  failed_closed : FailReason → String → Extraction

pub data Confidence : Type 0 where
  low medium high : Confidence

pub record LlmAdvisory : Type 0 where
  pub suggested_tier : SensitivityTier
  pub summary : String
  pub indicators : List String
  pub confidence : Confidence
  pub model : String
  pub truncated_input : Bool
  pub attempts : ℕ

-- `LlmAdvisory.redacted`
abbrev pub redacted_advisory : LlmAdvisory → LlmAdvisory
redacted_advisory a = record a { summary = "[redacted]"; indicators = [] }

pub record LlmUnavailable : Type 0 where
  pub reason : String
  pub detail : String
  pub attempts : ℕ

pub data ReviewKind : Type 0 where
  possible_over_classification llm_higher_tier llm_unavailable : ReviewKind

pub data Detail : Type 0 where
  plain : String → Detail
  extraction_flags : (empty ocr : Bool) → Detail
  counter_signals : (counter drivers : List String) → Detail
  no_tripwire : (reason : String) → Detail
  judged : (suggested : SensitivityTier) → Confidence → (tier : SensitivityTier) → Detail

pub data Version : Type 0 where
  named : String → Version
  of_reason : FailReason → Version

pub record ReviewFlag : Type 0 where
  pub kind : ReviewKind
  pub detail : Detail
  pub suggested_tier : Option SensitivityTier
  pub corroborated : Bool

pub data Stage : Type 0 where
  extraction regex presidio metadata : Stage

pub record StageProvenance : Type 0 where
  pub stage : Stage
  pub tier_floor : SensitivityTier
  pub version : Version
  pub fail_closed : Bool
  pub detail : Detail

pub record ClassificationVerdict : Type 0 where
  pub tier : SensitivityTier
  pub provenance : List StageProvenance
  pub regex : RegexVerdict
  pub presidio : PresidioVerdict
  pub review_flags : List ReviewFlag
  pub consult_llm : Bool
  pub fail_closed : Bool
  pub llm : Option LlmAdvisory

-- `ClassificationVerdict.redacted`
unfoldable pub redacted : ClassificationVerdict → ClassificationVerdict
redacted v = record v {
  regex = redacted_regex v.regex;
  presidio = redacted_presidio v.presidio;
  llm = elim v.llm [ none ↦ none | some a ↦ some (redacted_advisory a) ];
}
