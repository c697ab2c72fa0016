-- ===== src/Classifier/Presidio/Floor.antt =====
-- The floor of the PII stage (`map_findings` of eyenet/classifier/presidio/_mapping.py).
use mathlib.Core.Path.{subst}
use eyenet.Common.{
  ℕ, ◌≤◌, ◌<◌, ◌≡◌, refl, sym, ◌↔◌, inl, inr, Bool, false, not, none, some, Option-cases, length,
  keep_if, List, [], ◌∷◌, map, arith, All, All-map, All-append, append-All, map-All, All-of_map,
  Any-All,
}
use eyenet.Tier.{SensitivityTier, normal, restricted, classified, same_tier, ◌⊑◌}
use eyenet.Tier.Laws.{max_tier_iff, ⊑-antisym}
use eyenet.Classifier.Presidio.{
  PiiFinding, PiiMap, EntityRule, rule_for, type_floor, strong, density_floor, dedup_and_gate,
  map_findings,
}
use eyenet.Classifier.Presidio.Survivors.{dedup_and_gate_best}

module _ (findings : List PiiFinding) (pii_map : PiiMap) where
  abbrev survivors : List PiiFinding
  survivors = dedup_and_gate findings pii_map

  abbrev floors : List SensitivityTier
  floors = map (type_floor pii_map) survivors

  floor_parts :
      (b : SensitivityTier)
      → ((map_findings findings pii_map).tier_floor ⊑ b) ↔ (
          All (λ f. type_floor pii_map f ⊑ b) survivors
          × (density_floor pii_map (strong floors) ⊑ b))
  unfolding map_findings
  floor_parts b = (sound, complete)
    where
      sound :
          (map_findings findings pii_map).tier_floor ⊑ b
          → All (λ f. type_floor pii_map f ⊑ b) survivors
            × (density_floor pii_map (strong floors) ⊑ b)
      sound h =
          let parts = append-All _ floors _ ((max_tier_iff _ b).0 h) in
          (All-of_map _ (type_floor pii_map) survivors parts.0, parts.1.0)

      complete :
          All (λ f. type_floor pii_map f ⊑ b) survivors
            × (density_floor pii_map (strong floors) ⊑ b)
          → (map_findings findings pii_map).tier_floor ⊑ b
      complete h =
          (max_tier_iff _ b).1
            (All-append _ floors _ (map-All _ (type_floor pii_map) survivors h.0) (h.1, tt))

-- the map has a rule for the finding's type, and its floor is above `normal`
abbrev pub is_identifier : PiiMap → PiiFinding → Bool
is_identifier pii_map f = elim (rule_for pii_map.entities f.entity_type) [
  | none ↦ false
  | some rule ↦ not (same_tier rule.tier_floor normal)
]

abbrev pub identifiers : PiiMap → List PiiFinding → ℕ
identifiers pii_map fs = length (keep_if (is_identifier pii_map) fs)

strong-identifiers :
    (pii_map : PiiMap) (fs : List PiiFinding)
    → strong (map (type_floor pii_map) fs) ≡ identifiers pii_map fs
unfolding strong
strong-identifiers pii_map [] = refl
strong-identifiers pii_map (f ∷ fs) =
    elim (Option-cases (rule_for pii_map.entities f.entity_type)) [
      | inl e ↦ ground (arith, e, strong-identifiers pii_map fs)
      | inr (rule, e) ↦ ground (arith, e, strong-identifiers pii_map fs)
    ]

-- A tier is reached by a density of `n` identifiers.
abbrev pub DenseBelow : PiiMap → ℕ → SensitivityTier → Type 0
DenseBelow pii_map n b =
    (pii_map.classified_at ≤ n → classified ⊑ b) × (pii_map.restricted_at ≤ n → restricted ⊑ b)

density_floor_iff :
    (pii_map : PiiMap) (n : ℕ) (b : SensitivityTier)
    → (density_floor pii_map n ⊑ b) ↔ DenseBelow pii_map n b
unfolding density_floor
density_floor_iff pii_map n b = ground arith

-- the rule for the finding's type, if there is one, has a floor below the tier
abbrev pub RuledBelow : PiiMap → SensitivityTier → PiiFinding → Type 0
RuledBelow pii_map b f =
    (rule : EntityRule) → rule_for pii_map.entities f.entity_type ≡ some rule → rule.tier_floor ⊑ b

type_floor_iff :
    (pii_map : PiiMap) (b : SensitivityTier) (f : PiiFinding)
    → (type_floor pii_map f ⊑ b) ↔ RuledBelow pii_map b f
type_floor_iff pii_map b f = elim (Option-cases (rule_for pii_map.entities f.entity_type)) [
  | inl e ↦ ((λ h rule g. ground (arith, e, g)), (λ h. ground (arith, e)))
  | inr (rule, e) ↦ (
    (λ h other g.
        let same : rule ≡ other = ground (arith, e, g) in
        subst (λ r. r.tier_floor ⊑ b) same (rw (type_floor, e) at h)),
    (λ h. rw (type_floor, e) (h rule e)),
  )
]

-- The floor lies below a tier exactly when these do: the floor of the rule of each surviving finding
-- whose type has a rule, `classified` where at least `classified_at` survivors have a rule above
-- `normal`, and `restricted` where at least `restricted_at` do. Types without a rule do not count.
pub map_findings_floor :
    (findings : List PiiFinding) (pii_map : PiiMap) (b : SensitivityTier)
    → let survivors = dedup_and_gate findings pii_map in
      ((map_findings findings pii_map).tier_floor ⊑ b) ↔ (
        All (RuledBelow pii_map b) survivors × DenseBelow pii_map (identifiers pii_map survivors) b)
map_findings_floor findings pii_map b =
    let kept = dedup_and_gate findings pii_map in
    let parts = floor_parts findings pii_map b in
    let count = strong-identifiers pii_map kept in
    (
      (λ h.
          let (floors_below, dense) = parts.0 h in
          (
            All-map _ _ kept (λ f. (type_floor_iff pii_map b f).0) floors_below,
            (density_floor_iff pii_map _ b).0
                (subst (λ n. density_floor pii_map n ⊑ b) count dense),
          )),
      (λ h. parts.1 (
        All-map _ _ kept (λ f. (type_floor_iff pii_map b f).1) h.0,
        subst (λ n. density_floor pii_map n ⊑ b) (sym count)
            ((density_floor_iff pii_map _ b).1 h.1),
      )),
    )

strong-weak : (ts : List SensitivityTier) → All (λ t. t ≡ normal) ts → strong ts ≡ 0
unfolding strong
strong-weak [] h = refl
strong-weak (t ∷ ts) h = ground (arith, strong-weak ts h.1, h.0)

no_density :
    (pii_map : PiiMap)
    → 0 < pii_map.restricted_at
    → 0 < pii_map.classified_at
    → density_floor pii_map 0 ⊑ normal
unfolding density_floor
no_density pii_map r c = ground arith

-- Names, contact data and unknown types alone leave the floor at `normal`, however many there are,
-- if the density thresholds are positive.
pub map_findings_weak :
    (findings : List PiiFinding) (pii_map : PiiMap)
    → 0 < pii_map.restricted_at
    → 0 < pii_map.classified_at
    → All (λ f. type_floor pii_map f ≡ normal) findings
    → (map_findings findings pii_map).tier_floor ≡ normal
map_findings_weak findings pii_map r c weak =
    ⊑-antisym _ normal
      ((floor_parts findings pii_map normal).1 (
        All-map _ _ (dedup_and_gate findings pii_map) (λ f e. rw e (omega arith)) surviving,
        rw
            (strong-weak (map (type_floor pii_map) (dedup_and_gate findings pii_map))
              (map-All _ (type_floor pii_map) _ surviving))
            (no_density pii_map r c),
      ))
      (omega arith)
  where
    surviving : All (λ f. type_floor pii_map f ≡ normal) (dedup_and_gate findings pii_map)
    surviving =
        All-map _ _ (dedup_and_gate findings pii_map)
          (λ f m. Any-All (λ g. type_floor pii_map g ≡ normal) f findings weak m.0)
          (dedup_and_gate_best findings pii_map).1
