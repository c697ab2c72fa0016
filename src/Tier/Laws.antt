-- ===== src/Tier/Laws.antt =====
-- The order of tiers and their maximum (eyenet/classifier/ruleset/_types.py).
use eyenet.Common.{◌≡◌, ◌↔◌, true, List, [], ◌∷◌, arith, All, if◌then◌else◌, ltb}
use eyenet.Tier.{
  SensitivityTier, normal, restricted, classified, tier_order, max_from, max_tier, same_tier, ◌⊑◌,
}

pub ⊑-antisym : (a b : SensitivityTier) → a ⊑ b → b ⊑ a → a ≡ b
⊑-antisym normal b h k = ground arith
⊑-antisym restricted b h k = ground arith
⊑-antisym classified b h k = ground arith

pub same_tier_iff : (a b : SensitivityTier) → (same_tier a b ≡ true) ↔ (a ≡ b)
same_tier_iff normal b = ground arith
same_tier_iff restricted b = ground arith
same_tier_iff classified b = ground arith

pub ⊑-classified : (a : SensitivityTier) → a ⊑ classified
⊑-classified normal = omega arith
⊑-classified restricted = omega arith
⊑-classified classified = omega arith

pub classified_top : (a : SensitivityTier) → classified ⊑ a → a ≡ classified
classified_top a h = ⊑-antisym a classified (⊑-classified a) h

max_from_sound :
    (h : SensitivityTier) (ts : List SensitivityTier) (b : SensitivityTier)
    → max_from h ts ⊑ b
    → (h ⊑ b) × All (λ t. t ⊑ b) ts
unfolding max_from
max_from_sound h [] b k = (k, tt)
max_from_sound h (t ∷ ts) b k =
    let p = max_from_sound (if ltb (tier_order h) (tier_order t) then t else h) ts b k in
    (ground (arith, p.0), (ground (arith, p.0), p.1))

max_from_complete :
    (h : SensitivityTier) (ts : List SensitivityTier) (b : SensitivityTier)
    → h ⊑ b
    → All (λ t. t ⊑ b) ts
    → max_from h ts ⊑ b
unfolding max_from
max_from_complete h [] b p q = p
max_from_complete h (t ∷ ts) b p q =
    max_from_complete (if ltb (tier_order h) (tier_order t) then t else h) ts b
      (ground (arith, q.0)) q.1

-- `max_tier tiers` lies below a tier exactly when every listed tier does: it is their least upper
-- bound, whatever their order and number.
pub max_tier_iff :
    (tiers : List SensitivityTier) (b : SensitivityTier)
    → (max_tier tiers ⊑ b) ↔ All (λ t. t ⊑ b) tiers
unfolding max_tier
max_tier_iff tiers b = (
  λ h. (max_from_sound normal tiers b h).1,
  λ h. max_from_complete normal tiers b (omega arith) h,
)

pub max_tier-upper : (tiers : List SensitivityTier) → All (λ t. t ⊑ max_tier tiers) tiers
max_tier-upper tiers = (max_tier_iff tiers (max_tier tiers)).0 (omega arith)

-- A tier that is bounded like `t` from above is `t`.
pub eq_of_bounds : (s t : SensitivityTier) → ((b : SensitivityTier) → (s ⊑ b) ↔ (t ⊑ b)) → s ≡ t
eq_of_bounds s t h = ⊑-antisym s t ((h t).1 (omega arith)) ((h s).0 (omega arith))
