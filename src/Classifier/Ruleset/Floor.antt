-- ===== src/Classifier/Ruleset/Floor.antt =====
-- The floor and the matches of the regex stage (eyenet/classifier/ruleset/_engine.py).
use mathlib.Core.List.{Perm}
use eyenet.Common.{
  String, refl, ◌≢◌, ◌↔◌, List, [], ◌∷◌, ◌++◌, map, All, All-append, map-All, All-of_map,
}
use eyenet.Common.Sorting.Laws.{sort-perm, All-sort, sort-All}
use eyenet.Tier.{SensitivityTier, ◌⊑◌}
use eyenet.Tier.Laws.{max_tier_iff}
use eyenet.Classifier.Ruleset.{
  RuleMatch, Span, CompiledRule, CompiledRuleset, rule_match, matches_of, match_le, classify,
}

-- Every rule that finds something in the text has its floor below the bound.
abbrev pub FiredBelow : List CompiledRule → String → SensitivityTier → Type 0
FiredBelow rules text b = All (λ r. r.finditer text ≢ [] → r.tier_floor ⊑ b) rules

abbrev Below : SensitivityTier → RuleMatch → Type 0
Below b m = m.tier_floor ⊑ b

spans-Below :
    (b : SensitivityTier) (r : CompiledRule) (spans : List Span)
    → (spans ≢ [] → r.tier_floor ⊑ b)
    → All (Below b) (map (rule_match r) spans)
spans-Below b r [] h = tt
spans-Below b r (s ∷ spans) h = (h (λ e. cc), spans-Below b r spans (λ _. h (λ e. cc)))

Below-spans :
    (b : SensitivityTier) (r : CompiledRule) (spans : List Span) (rest : List RuleMatch)
    → All (Below b) (map (rule_match r) spans ++ rest)
    → (spans ≢ [] → r.tier_floor ⊑ b) × All (Below b) rest
Below-spans b r [] rest h = ((λ n. absurd (n refl)), h)
Below-spans b r (s ∷ spans) rest h = ((λ _. h.0), (Below-spans b r spans rest h.1).1)

matches-Below :
    (b : SensitivityTier) (rules : List CompiledRule) (text : String)
    → FiredBelow rules text b
    → All (Below b) (matches_of rules text)
matches-Below b [] text h = tt
matches-Below b (r ∷ rules) text h =
    All-append (Below b) (map (rule_match r) (r.finditer text)) (matches_of rules text)
      (spans-Below b r (r.finditer text) h.0) (matches-Below b rules text h.1)

Below-matches :
    (b : SensitivityTier) (rules : List CompiledRule) (text : String)
    → All (Below b) (matches_of rules text)
    → FiredBelow rules text b
Below-matches b [] text h = tt
Below-matches b (r ∷ rules) text h =
    let p = Below-spans b r (r.finditer text) (matches_of rules text) h in
    (p.0, Below-matches b rules text p.1)

module _ (nfc : String → String) (text : String) (rule_set : CompiledRuleset) where
  -- The floor lies below a tier exactly when the floor of every rule that fires on the normalized text
  -- does; and the recorded matches are all matches of all rules, each as often as it was found.
  pub classify_floor :
      ((b : SensitivityTier)
        → ((classify nfc text rule_set).tier_floor ⊑ b) ↔ FiredBelow rule_set.rules (nfc text) b)
      × Perm (classify nfc text rule_set).matches (matches_of rule_set.rules (nfc text))
  unfolding classify
  classify_floor = (λ b. (sound b, complete b), sort-perm match_le found)
    where
      found : List RuleMatch
      found = matches_of rule_set.rules (nfc text)

      sound :
          (b : SensitivityTier)
          → (classify nfc text rule_set).tier_floor ⊑ b
          → FiredBelow rule_set.rules (nfc text) b
      sound b h = Below-matches b rule_set.rules (nfc text) (
          sort-All match_le (Below b) found
            (All-of_map _ (λ m. m.tier_floor) _ ((max_tier_iff _ b).0 h)))

      complete :
          (b : SensitivityTier)
          → FiredBelow rule_set.rules (nfc text) b
          → (classify nfc text rule_set).tier_floor ⊑ b
      complete b h = (max_tier_iff _ b).1 (
          map-All _ (λ m. m.tier_floor) _
            (All-sort match_le (Below b) found (matches-Below b rule_set.rules (nfc text) h)))
