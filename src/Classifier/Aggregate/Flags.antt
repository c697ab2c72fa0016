-- ===== src/Classifier/Aggregate/Flags.antt =====
-- The flag that suggests a demotion (`_counter_signal_flags` of
-- eyenet/classifier/aggregate/_aggregate.py).
use mathlib.Core.Path.{subst}
use eyenet.Common.{
  keep_if-Any, Any-keep_if, keep_if-All, All-keep_if, Any-map, is_empty-map, All-map, sym, ◌∙◌,
  is_empty, ◌≡◌, refl, ◌≢◌, ◌↔◌, Bool, true, false, Option, List, [], ◌∷◌, arith, All, Any, map,
  keep_if, String,
}
use eyenet.Common.Sorting.{sort, insert, dedup, str_le}
use eyenet.Tier.{SensitivityTier, normal, same_tier}
use eyenet.Tier.Laws.{same_tier_iff}
use eyenet.Classifier.Ruleset.{RuleMatch, RegexVerdict}
use eyenet.Classifier.Presidio.{PresidioVerdict}
use eyenet.Classifier.Verdict.{Extraction, extract_result, failed_closed}
use eyenet.Classifier.Aggregate.{
  aggregate, counter_signal_flags, is_counter_signal, is_fp_prone, counter,
}

is_empty-insert : (x : String) (xs : List String) → is_empty (insert str_le x xs) ≡ false
is_empty-insert x [] = refl
is_empty-insert x (y ∷ ys) = ground arith

is_empty-sort : (xs : List String) → is_empty (sort str_le xs) ≡ is_empty xs
is_empty-sort [] = refl
is_empty-sort (x ∷ xs) = is_empty-insert x (sort str_le xs)

is_empty-dedup : (xs : List String) → is_empty (dedup xs) ≡ is_empty xs
is_empty-dedup [] = refl
is_empty-dedup (x ∷ []) = refl
is_empty-dedup (x ∷ y ∷ xs) = ground (arith, is_empty-dedup (y ∷ xs))

is_empty-counter :
    (regex : RegexVerdict)
    → is_empty (counter regex)
      ≡ is_empty (keep_if (λ m. is_counter_signal m.rule_name) regex.matches)
is_empty-counter regex =
    let kept = keep_if (λ (m : RuleMatch). is_counter_signal m.rule_name) regex.matches in
    let names = map (λ (m : RuleMatch). m.rule_name) kept in
    is_empty-sort (dedup names) ∙ is_empty-dedup names ∙ is_empty-map _ kept

-- `tier` was driven by false-positive-prone markings alone, and a counter-signal matched.
pub record IsDemotable (tier : SensitivityTier) (regex : RegexVerdict) (pii : PresidioVerdict)
    : Type 0 where
  pub above : tier ≢ normal
  pub signalled : Any (λ (m : RuleMatch). is_counter_signal m.rule_name ≡ true) regex.matches
  pub not_pii : pii.tier_floor ≢ tier
  pub driven : Any (λ (m : RuleMatch). m.tier_floor ≡ tier) regex.matches
  pub all_prone :
      All (λ (m : RuleMatch). m.tier_floor ≡ tier → is_fp_prone m.rule_name ≡ true) regex.matches

module _ (tier : SensitivityTier) (regex : RegexVerdict) (pii : PresidioVerdict) where
  abbrev drives : RuleMatch → Bool
  drives m = same_tier m.tier_floor tier

  flags_sound :
      (failed : Bool)
      → counter_signal_flags tier regex pii failed ≢ []
      → (failed ≡ false) × IsDemotable tier regex pii
  unfolding counter_signal_flags
  flags_sound failed h = (
    ground arith,
    record {
      above = ground (arith, same_tier_iff tier normal);
      signalled = keep_if-Any _ regex.matches (sym (is_empty-counter regex) ∙ ground arith);
      not_pii = ground (arith, same_tier_iff pii.tier_floor tier);
      driven =
          Any-map (λ m. drives m ≡ true) _ regex.matches (λ m. (same_tier_iff m.tier_floor tier).0)
            (keep_if-Any drives regex.matches (ground arith));
      all_prone =
          All-map (λ m. drives m ≡ true → is_fp_prone m.rule_name ≡ true) _ regex.matches
            (λ m f e. f ((same_tier_iff m.tier_floor tier).1 e))
            (keep_if-All drives (λ m. is_fp_prone m.rule_name) regex.matches (ground arith));
    },
  )

  flags_complete : IsDemotable tier regex pii → counter_signal_flags tier regex pii false ≢ []
  unfolding counter_signal_flags
  flags_complete d = ground (
    arith,
    d.above,
    d.not_pii,
    same_tier_iff tier normal,
    same_tier_iff pii.tier_floor tier,
    is_empty-counter regex,
    Any-keep_if (λ (m : RuleMatch). is_counter_signal m.rule_name) regex.matches d.signalled,
    Any-keep_if drives regex.matches (
        Any-map _ (λ m. drives m ≡ true) regex.matches (λ m. (same_tier_iff m.tier_floor tier).1)
          d.driven),
    All-keep_if drives (λ m. is_fp_prone m.rule_name) regex.matches
        (All-map _ (λ m. drives m ≡ true → is_fp_prone m.rule_name ≡ true) regex.matches
          (λ m f e. f ((same_tier_iff m.tier_floor tier).0 e)) d.all_prone),
  )

-- the extraction gave a text
abbrev pub IsExtracted : Extraction → Type 0
IsExtracted (failed_closed reason detail) = ⊥
IsExtracted (extract_result text meta) = Unit

-- A flag is raised exactly when the extraction gave a text, the PII stage did not fail closed, the
-- tier is above `normal`, a counter-signal rule matched in the text, PII alone does not reach the tier,
-- and the matches in the text that reach it are there and all carry rules that are prone to false
-- positives. Matches in the metadata are not looked at, although they may reach the tier.
pub aggregate_flags_iff :
    (e : Extraction) (regex : RegexVerdict) (pii : PresidioVerdict) (meta : Option RegexVerdict)
    → let v = aggregate e regex pii meta in
      (v.review_flags ≢ [])
      ↔ (IsExtracted e × (pii.fail_closed ≡ false) × IsDemotable v.tier regex pii)
unfolding aggregate
aggregate_flags_iff (failed_closed reason detail) regex pii meta =
    ((λ h. absurd (ground (arith, (flags_sound _ regex pii _ h).0))), (λ h. absurd h.0))
aggregate_flags_iff (extract_result text about) regex pii meta = (
  (λ h. let both = flags_sound _ regex pii _ h in (tt, both.0, both.1)),
  (λ h.
      subst
        (λ failed.
          counter_signal_flags (aggregate (extract_result text about) regex pii meta).tier regex pii
            failed
          ≢ [])
        (sym h.1) (flags_complete _ regex pii h.2)),
)
