-- ===== src/Classifier/Presidio/Survivors.antt =====
-- What `_dedup_and_gate` (eyenet/classifier/presidio/_mapping.py) keeps.
use mathlib.Core.Path.{subst}
use eyenet.Common.{
  ◌≡◌, sym, ◌⊎◌, inl, inr, true, false, some, List, [], ◌∷◌, All, Any, All-members, Bool-cases,
  Option-cases, find, if◌then◌else◌,
}
use eyenet.Classifier.Presidio.{
  PiiFinding, PiiMap, is_noise, same_key, better, put, keep_best, dedup_from, dedup_and_gate,
}
use eyenet.Classifier.Presidio.Entries.{
  StandsFor, HasDistinctKeys, same_key_refl, better_irrefl, StandsFor-better, find-found, put-All,
  put-Any_self, put-Any, put-HasDistinctKeys,
}

found_stands :
    (f c : PiiFinding)
    → StandsFor f c
    → (xs : List PiiFinding) → Any (λ g. g ≡ c) xs
    → Any (StandsFor f) xs
found_stands f c s [] m = m
found_stands f c s (x ∷ xs) m = elim m [
  | inl e ↦ inl (subst (StandsFor f) (sym e) s)
  | inr r ↦ inr (found_stands f c s xs r)
]

module _ (f : PiiFinding) (gs : List PiiFinding) where
  -- Either `f` is written, and is better than the entry that it replaces, or an entry is kept that is as
  -- good.
  abbrev Written : Type 0
  Written =
      (keep_best f gs ≡ put f gs)
      × ((c : PiiFinding) → find (same_key f) gs ≡ some c → better f c ≡ true)

  abbrev Kept : Type 0
  Kept =
      (c : PiiFinding) × (keep_best f gs ≡ gs)
      × (find (same_key f) gs ≡ some c)
      × (better f c ≡ false)

  keep_best_cases : Written ⊎ Kept
  unfolding keep_best
  keep_best_cases = elim (Option-cases (find (same_key f) gs)) [
    | inl e ↦ inl (rw e, λ c found. cc)
    | inr (c, e) ↦ elim (Bool-cases (better f c)) [
      | inl b ↦ inl (
        rw (e, b),
        λ d found. let c≡d : c ≡ d = cc (e, found) in subst (λ x. better f x ≡ true) c≡d b,
      )
      | inr b ↦ inr (c, rw (e, b), e, b)
    ]
  ]

  keep_best-All : (P : PiiFinding → Type 0) → P f → All P gs → All P (keep_best f gs)
  keep_best-All P h k = elim keep_best_cases [
    | inl w ↦ rw (w.0) (put-All f P gs h k)
    | inr w ↦ rw (w.1) k
  ]

  keep_best-HasDistinctKeys : HasDistinctKeys gs → HasDistinctKeys (keep_best f gs)
  keep_best-HasDistinctKeys h = elim keep_best_cases [
    | inl w ↦ rw (w.0) (put-HasDistinctKeys f gs h)
    | inr w ↦ rw (w.1) h
  ]

  -- What stood for a finding is replaced only by what stands for it too.
  keep_best-StandsFor : (h : PiiFinding) → Any (StandsFor h) gs → Any (StandsFor h) (keep_best f gs)
  keep_best-StandsFor h k = elim keep_best_cases [
    | inl w ↦ rw (w.0) (
        put-Any f (StandsFor h) gs (λ c e. StandsFor-better h f c (find-found f gs c e).0 (w.1 c e))
          k)
    | inr w ↦ rw (w.1) k
  ]

  keep_best_self : Any (StandsFor f) (keep_best f gs)
  keep_best_self = elim keep_best_cases [
    | inl w ↦ rw (w.0) (put-Any_self f (StandsFor f) gs (same_key_refl f, better_irrefl f))
    | inr w ↦
        rw (w.1)
          (found_stands f w.0 ((find-found f gs w.0 w.2).0, w.3) gs (find-found f gs w.0 w.2).1)
  ]

module _ (pii_map : PiiMap) where
  abbrev Passes : PiiFinding → Type 0
  Passes f = is_noise pii_map f ≡ false

  dedup_from-All :
      (P : PiiFinding → Type 0) (best fs : List PiiFinding)
      → All P best
      → All (λ f. Passes f → P f) fs
      → All P (dedup_from pii_map best fs)
  unfolding dedup_from
  dedup_from-All P best [] h k = h
  dedup_from-All P best (f ∷ fs) h k = elim (Bool-cases (is_noise pii_map f)) [
    | inl n ↦ rw n (dedup_from-All P best fs h k.1)
    | inr y ↦ rw y (dedup_from-All P (keep_best f best) fs (keep_best-All f best P (k.0 y) h) k.1)
  ]

  dedup_from-HasDistinctKeys :
      (best fs : List PiiFinding)
      → HasDistinctKeys best
      → HasDistinctKeys (dedup_from pii_map best fs)
  unfolding dedup_from
  dedup_from-HasDistinctKeys best [] h = h
  dedup_from-HasDistinctKeys best (f ∷ fs) h = elim (Bool-cases (is_noise pii_map f)) [
    | inl n ↦ rw n (dedup_from-HasDistinctKeys best fs h)
    | inr y ↦
        rw y (dedup_from-HasDistinctKeys (keep_best f best) fs (keep_best-HasDistinctKeys f best h))
  ]

  dedup_from-StandsFor :
      (h : PiiFinding) (best fs : List PiiFinding)
      → Any (StandsFor h) best
      → Any (StandsFor h) (dedup_from pii_map best fs)
  unfolding dedup_from
  dedup_from-StandsFor h best [] k = k
  dedup_from-StandsFor h best (f ∷ fs) k = elim (Bool-cases (is_noise pii_map f)) [
    | inl n ↦ rw n (dedup_from-StandsFor h best fs k)
    | inr y ↦ rw y (dedup_from-StandsFor h (keep_best f best) fs (keep_best-StandsFor f best h k))
  ]

  dedup_from_stood :
      (best fs : List PiiFinding)
      → All (λ f. Passes f → Any (StandsFor f) (dedup_from pii_map best fs)) fs
  unfolding dedup_from
  dedup_from_stood best [] = tt
  dedup_from_stood best (f ∷ fs) = (
    (λ y. rw y (dedup_from-StandsFor f (keep_best f best) fs (keep_best_self f best))),
    dedup_from_stood (if is_noise pii_map f then best else keep_best f best) fs,
  )

-- The survivors have distinct keys; each is one of the findings and passes its confidence gate; and
-- every finding that passes the gate has a survivor of its key that it would not replace.
pub dedup_and_gate_best :
    (findings : List PiiFinding) (pii_map : PiiMap)
    → HasDistinctKeys (dedup_and_gate findings pii_map)
      × All
          (λ f. Any (λ g. g ≡ f) findings × (is_noise pii_map f ≡ false))
          (dedup_and_gate findings pii_map)
      × All
          (λ f. is_noise pii_map f ≡ false → Any (StandsFor f) (dedup_and_gate findings pii_map))
          findings
unfolding dedup_and_gate
dedup_and_gate_best findings pii_map = (
  dedup_from-HasDistinctKeys pii_map [] findings tt,
  dedup_from-All pii_map _ [] findings tt (All-members _ findings (λ f m y. (m, y))),
  dedup_from_stood pii_map [] findings,
)
