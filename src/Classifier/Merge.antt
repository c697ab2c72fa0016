-- ===== src/Classifier/Merge.antt =====
-- The merge of the language model's advice (eyenet/classifier/aggregate/_llm_merge.py).
pub mod Advice
use eyenet.Common.{
  Bool, true, false, Option, none, some, List, [], ◌∷◌, ◌++◌, not, ◌&&◌, if◌then◌else◌,
}
use eyenet.Tier.{SensitivityTier, normal, classified, max_tier, same_tier}
use eyenet.Classifier.Verdict.{
  LlmAdvisory, LlmUnavailable, ReviewKind, possible_over_classification, llm_higher_tier,
  llm_unavailable, no_tripwire, judged, ReviewFlag, ClassificationVerdict,
}

-- `LlmAdvisory | LlmUnavailable`
pub data Outcome : Type 0 where
  advised : LlmAdvisory → Outcome
  unavailable : LlmUnavailable → Outcome

unfoldable pub exceeds : SensitivityTier → SensitivityTier → Bool
exceeds suggested tier =
    not (same_tier suggested tier) && same_tier (max_tier (suggested ∷ tier ∷ [])) suggested

abbrev pub is_over : ReviewKind → Bool
is_over possible_over_classification = true
is_over llm_higher_tier = false
is_over llm_unavailable = false

pub couple_over_classification : List ReviewFlag → SensitivityTier → List ReviewFlag
couple_over_classification [] suggested = []
couple_over_classification (flag ∷ flags) suggested =
    let out = couple_over_classification flags suggested in
    if not (is_over flag.kind)
    then flag ∷ out
    else if same_tier suggested normal
    then record flag { corroborated = true } ∷ out
    else out

abbrev pub unavailable_flag : LlmUnavailable → ReviewFlag
unavailable_flag outcome = record {
  kind = llm_unavailable;
  detail = no_tripwire outcome.reason;
  suggested_tier = none;
  corroborated = false;
}

abbrev pub higher_flag : LlmAdvisory → SensitivityTier → ReviewFlag
higher_flag outcome tier = record {
  kind = llm_higher_tier;
  detail = judged outcome.suggested_tier outcome.confidence tier;
  suggested_tier = some outcome.suggested_tier;
  corroborated = false;
}

-- the flags after the tripwire
pub with_tripwire : ClassificationVerdict → LlmAdvisory → List ReviewFlag
with_tripwire verdict outcome =
    let flags = couple_over_classification verdict.review_flags outcome.suggested_tier in
    if not (same_tier verdict.tier classified) && exceeds outcome.suggested_tier verdict.tier
    then flags ++ higher_flag outcome verdict.tier ∷ []
    else flags

unfoldable pub apply_llm_advisory : ClassificationVerdict → Outcome → ClassificationVerdict
unfolding with_tripwire
apply_llm_advisory verdict (unavailable outcome) = record verdict {
  review_flags = verdict.review_flags ++ unavailable_flag outcome ∷ [];
}
apply_llm_advisory verdict (advised outcome) = record verdict {
  llm = some outcome;
  review_flags = with_tripwire verdict outcome;
}
