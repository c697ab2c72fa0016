-- ===== src/Classifier/Presidio.antt =====
-- The PII decision stage (eyenet/classifier/presidio/_types.py, _mapping.py). A score is a
-- non-negative float, of which the code uses the order only: it stands here by its bit pattern,
-- whose order is that of the floats. The dictionary `best` is the list of its values, each of which
-- holds its own key.
pub mod Entries
pub mod Survivors
pub mod Floor
use eyenet.Common.{
  ℕ, String, Bool, false, Option, none, some, List, [], ◌∷◌, ◌++◌, map, ltb, leb, ◌==◌, ◌||◌, ◌&&◌,
  str_eq, find, keep_if, length, not, if◌then◌else◌,
}
use eyenet.Common.Sorting.{str_lt, str_le, sort}
use eyenet.Tier.{SensitivityTier, normal, restricted, classified, max_tier, same_tier}
use eyenet.Classifier.Redact.{mask}

pub record PiiFinding : Type 0 where
  pub entity_type : String
  pub start : ℕ
  pub end : ℕ
  pub score : ℕ
  pub language : String
  pub text : String

pub record PresidioMatch : Type 0 where
  pub entity_type : String
  pub tier_floor : SensitivityTier
  pub start : ℕ
  pub end : ℕ
  pub score : ℕ
  pub language : String
  pub matched_text : String

-- `PresidioMatch.redacted`
abbrev pub redacted_pii : PresidioMatch → PresidioMatch
redacted_pii m = record m { matched_text = mask m.matched_text }

pub record PresidioVerdict : Type 0 where
  pub tier_floor : SensitivityTier
  pub matches : List PresidioMatch
  pub map_version : String
  pub engine : String
  pub fail_closed : Bool

-- `PresidioVerdict.redacted`
abbrev pub redacted_presidio : PresidioVerdict → PresidioVerdict
redacted_presidio v = record v { matches = map redacted_pii v.matches }

pub record EntityRule : Type 0 where
  pub tier_floor : SensitivityTier
  pub min_score : ℕ

pub record PiiMap : Type 0 where
  pub map_version : String
  pub entities : List (String × EntityRule)
  pub restricted_at : ℕ
  pub classified_at : ℕ

-- `pii_map.entities.get(…)`
abbrev pub rule_for : List (String × EntityRule) → String → Option EntityRule
rule_for [] t = none
rule_for ((k, r) ∷ m) t = if str_eq k t then some r else rule_for m t

-- a known type below its confidence floor
abbrev pub is_noise : PiiMap → PiiFinding → Bool
is_noise pii_map f = elim (rule_for pii_map.entities f.entity_type) [
  | none ↦ false
  | some rule ↦ ltb f.score rule.min_score
]

-- two findings with one key `(start, end, entity_type)`
abbrev pub same_key : PiiFinding → PiiFinding → Bool
same_key f g = f.start == g.start && (f.end == g.end && str_eq f.entity_type g.entity_type)

-- the test by which `f` takes the place of `current`
abbrev pub better : PiiFinding → PiiFinding → Bool
better f current =
    ltb current.score f.score || (f.score == current.score && str_lt f.language current.language)

-- `best[key] = f`
unfoldable pub put : PiiFinding → List PiiFinding → List PiiFinding
put f [] = f ∷ []
put f (g ∷ gs) = if same_key f g then f ∷ gs else g ∷ put f gs

-- the body of the loop, for a finding that is no noise, with `current`
abbrev pub place : PiiFinding → Option PiiFinding → List PiiFinding → List PiiFinding
place f none best = put f best
place f (some current) best = if better f current then put f best else best

unfoldable pub keep_best : PiiFinding → List PiiFinding → List PiiFinding
unfolding put
keep_best f best = place f (find (same_key f) best) best

unfoldable pub dedup_from : PiiMap → List PiiFinding → List PiiFinding → List PiiFinding
dedup_from pii_map best [] = best
dedup_from pii_map best (f ∷ findings) =
    dedup_from pii_map (if is_noise pii_map f then best else keep_best f best) findings

unfoldable pub dedup_and_gate : List PiiFinding → PiiMap → List PiiFinding
unfolding dedup_from
dedup_and_gate findings pii_map = dedup_from pii_map [] findings

abbrev pub type_floor : PiiMap → PiiFinding → SensitivityTier
type_floor pii_map f = elim (rule_for pii_map.entities f.entity_type) [
  | none ↦ normal
  | some rule ↦ rule.tier_floor
]

abbrev pub pii_match : PiiMap → PiiFinding → PresidioMatch
pii_match pii_map f = record {
  entity_type = f.entity_type;
  tier_floor = type_floor pii_map f;
  start = f.start;
  end = f.end;
  score = f.score;
  language = f.language;
  matched_text = f.text;
}

-- the sort key `(m.start, m.entity_type)`
abbrev pub pii_le : PresidioMatch → PresidioMatch → Bool
pii_le a b = ltb a.start b.start || (a.start == b.start && str_le a.entity_type b.entity_type)

-- how many findings map above `normal`
pub strong : List SensitivityTier → ℕ
strong type_floors = length (keep_if (λ t. not (same_tier t normal)) type_floors)

pub density_floor : PiiMap → ℕ → SensitivityTier
density_floor pii_map n =
    if leb pii_map.classified_at n
    then classified
    else if leb pii_map.restricted_at n
    then restricted
    else normal

unfoldable pub map_findings : List PiiFinding → PiiMap → PresidioVerdict
unfolding strong density_floor
map_findings findings pii_map =
    let survivors = dedup_and_gate findings pii_map in
    let type_floors = map (type_floor pii_map) survivors in
    record {
      tier_floor = max_tier (type_floors ++ density_floor pii_map (strong type_floors) ∷ []);
      matches = sort pii_le (map (pii_match pii_map) survivors);
      map_version = pii_map.map_version;
      engine = "presidio";
      fail_closed = false;
    }

-- `_fail_closed` of _detect.py: what the stage returns when the jailed pass did not complete
unfoldable pub fail_closed_verdict : String → PresidioVerdict
fail_closed_verdict map_version = record {
  tier_floor = classified;
  matches = [];
  map_version = map_version;
  engine = "presidio";
  fail_closed = Bool.true;
}
