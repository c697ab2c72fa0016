-- ===== src/Tier.antt =====
-- Sensitivity tiers and their one order (`SensitivityTier` of eyenet/contracts/enums.py,
-- `_TIER_ORDER` and `max_tier` of eyenet/classifier/ruleset/_types.py).
pub mod Laws
use eyenet.Common.{ℕ, ◌≤◌, Bool, true, false, List, [], ◌∷◌, ltb, if◌then◌else◌}

pub data SensitivityTier : Type 0 where
  normal restricted classified : SensitivityTier

abbrev pub tier_order : SensitivityTier → ℕ
tier_order normal = 0
tier_order restricted = 1
tier_order classified = 2

-- `a is b`, and `a == b`, on tiers
abbrev pub same_tier : SensitivityTier → SensitivityTier → Bool
same_tier normal normal = true
same_tier restricted restricted = true
same_tier classified classified = true
same_tier _ _ = false

-- the loop of `max_tier` with its variable `highest`
unfoldable pub max_from : SensitivityTier → List SensitivityTier → SensitivityTier
max_from highest [] = highest
max_from highest (tier ∷ tiers) =
    max_from (if ltb (tier_order highest) (tier_order tier) then tier else highest) tiers

unfoldable pub max_tier : List SensitivityTier → SensitivityTier
unfolding max_from
max_tier tiers = max_from normal tiers

infix 50 ◌⊑◌
abbrev pub ◌⊑◌ : SensitivityTier → SensitivityTier → Type 0
a ⊑ b = tier_order a ≤ tier_order b
