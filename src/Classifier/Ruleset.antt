-- ===== src/Classifier/Ruleset.antt =====
-- The regex stage (eyenet/classifier/ruleset/_types.py, _engine.py). A compiled pattern is re2's;
-- what the engine uses of it is `finditer`, so a rule holds that function. `nfc` stands for
-- Python's `unicodedata.normalize("NFC", …)`.
pub mod Floor
use eyenet.Common.{ℕ, String, Bool, Option, List, [], ◌∷◌, ◌++◌, map, ltb, ◌==◌, ◌||◌, ◌&&◌}
use eyenet.Common.Sorting.{str_le, sort}
use eyenet.Tier.{SensitivityTier, max_tier}
use eyenet.Classifier.Redact.{mask}

pub record RuleMatch : Type 0 where
  pub rule_name : String
  pub tier_floor : SensitivityTier
  pub start : ℕ
  pub end : ℕ
  pub matched_text : String
  pub lang : Option String

-- `RuleMatch.redacted`
abbrev pub redacted_match : RuleMatch → RuleMatch
redacted_match m = record m { matched_text = mask m.matched_text }

pub record RegexVerdict : Type 0 where
  pub tier_floor : SensitivityTier
  pub matches : List RuleMatch
  pub ruleset_version : String
  pub engine : String

-- `RegexVerdict.redacted`
abbrev pub redacted_regex : RegexVerdict → RegexVerdict
redacted_regex v = record v { matches = map redacted_match v.matches }

-- one match object: `m.start()`, `m.end()`, `m.group(0)`
pub record Span : Type 0 where
  pub start : ℕ
  pub end : ℕ
  pub group : String

pub record CompiledRule : Type 0 where
  pub name : String
  pub finditer : String → List Span
  pub tier_floor : SensitivityTier
  pub lang : Option String

pub record CompiledRuleset : Type 0 where
  pub version : String
  pub rules : List CompiledRule

abbrev pub rule_match : CompiledRule → Span → RuleMatch
rule_match rule m = record {
  rule_name = rule.name;
  tier_floor = rule.tier_floor;
  start = m.start;
  end = m.end;
  matched_text = m.group;
  lang = rule.lang;
}

-- the two nested loops over the rules and their matches
abbrev pub matches_of : List CompiledRule → String → List RuleMatch
matches_of [] text = []
matches_of (rule ∷ rules) text = map (rule_match rule) (rule.finditer text) ++ matches_of rules text

-- the sort key `(rm.start, rm.rule_name)`
abbrev pub match_le : RuleMatch → RuleMatch → Bool
match_le a b = ltb a.start b.start || (a.start == b.start && str_le a.rule_name b.rule_name)

unfoldable pub classify : (nfc : String → String) → String → CompiledRuleset → RegexVerdict
classify nfc text rule_set =
    let matches = sort match_le (matches_of rule_set.rules (nfc text)) in
    record {
      tier_floor = max_tier (map (λ m. m.tier_floor) matches);
      matches = matches;
      ruleset_version = rule_set.version;
      engine = "re2";
    }
