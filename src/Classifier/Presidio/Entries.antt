-- ===== src/Classifier/Presidio/Entries.antt =====
-- The dictionary `best` of `_dedup_and_gate`: keys, the order of findings, and its update.
use eyenet.Common.{
  ◌≡◌, inl, inr, true, false, some, List, [], ◌∷◌, arith, All, Any, All-map, Bool-cases, find,
  eq_iff,
}
use mathlib.Core.Path.{subst}
use eyenet.Common.Sorting.Laws.{str_lt_trans, str_lt_irrefl}
use eyenet.Classifier.Presidio.{PiiFinding, same_key, better, put}

-- `g` stands for `f`: it has the same key, and `f` would not take its place.
abbrev pub StandsFor : PiiFinding → PiiFinding → Type 0
StandsFor f g = (same_key f g ≡ true) × (better f g ≡ false)

-- No two entries have one key.
abbrev pub HasDistinctKeys : List PiiFinding → Type 0
HasDistinctKeys [] = Unit
HasDistinctKeys (f ∷ fs) = All (λ g. same_key f g ≡ false) fs × HasDistinctKeys fs

pub same_key_refl : (f : PiiFinding) → same_key f f ≡ true
same_key_refl f = ground (arith, eq_iff f.entity_type f.entity_type)

same_key_sym : (f g : PiiFinding) → same_key f g ≡ true → same_key g f ≡ true
same_key_sym f g h =
    ground (arith, eq_iff f.entity_type g.entity_type, eq_iff g.entity_type f.entity_type)

same_key_trans :
    (f g h : PiiFinding) → same_key f g ≡ true → same_key g h ≡ true → same_key f h ≡ true
same_key_trans f g h p q = ground (
  arith,
  eq_iff f.entity_type g.entity_type,
  eq_iff g.entity_type h.entity_type,
  eq_iff f.entity_type h.entity_type,
)

same_key_other :
    (f g h : PiiFinding) → same_key f g ≡ true → same_key g h ≡ false → same_key f h ≡ false
same_key_other f g h p q = elim (Bool-cases (same_key f h)) [
  | inl e ↦ cc (same_key_trans g f h (same_key_sym f g p) e)
  | inr e ↦ e
]

pub better_irrefl : (f : PiiFinding) → better f f ≡ false
better_irrefl f = ground (arith, str_lt_irrefl f.language)

better_trans : (h f c : PiiFinding) → better h c ≡ false → better f c ≡ true → better h f ≡ false
better_trans h f c p q = ground (arith, str_lt_trans h.language f.language c.language)

pub StandsFor-better :
    (h f c : PiiFinding) → same_key f c ≡ true → better f c ≡ true → StandsFor h c → StandsFor h f
StandsFor-better h f c k b s =
    (same_key_trans h c f s.0 (same_key_sym f c k), better_trans h f c s.1 b)

pub find-found :
    (f : PiiFinding) (best : List PiiFinding) (c : PiiFinding)
    → find (same_key f) best ≡ some c
    → (same_key f c ≡ true) × Any (λ g. g ≡ c) best
find-found f [] c h = absurd (ground arith)
find-found f (g ∷ gs) c h = elim (Bool-cases (same_key f g)) [
  | inl e ↦
      let g≡c : g ≡ c = ground (arith, h, e) in (subst (λ x. same_key f x ≡ true) g≡c e, inl g≡c)
  | inr e ↦ let rest = find-found f gs c (rw e at h) in (rest.0, inr rest.1)
]

module _ (f : PiiFinding) where
  pub put-All : (P : PiiFinding → Type 0) (gs : List PiiFinding) → P f → All P gs → All P (put f gs)
  unfolding put
  put-All P [] h k = (h, tt)
  put-All P (g ∷ gs) h k = elim (Bool-cases (same_key f g)) [
    | inl e ↦ rw e (h, k.1)
    | inr e ↦ rw e (k.0, put-All P gs h k.1)
  ]

  pub put-Any_self : (P : PiiFinding → Type 0) (gs : List PiiFinding) → P f → Any P (put f gs)
  unfolding put
  put-Any_self P [] h = inl h
  put-Any_self P (g ∷ gs) h = elim (Bool-cases (same_key f g)) [
    | inl e ↦ rw e (inl h)
    | inr e ↦ rw e (inr (put-Any_self P gs h))
  ]

  -- A member stays, unless it is the entry that `f` replaces.
  pub put-Any :
      (P : PiiFinding → Type 0) (gs : List PiiFinding)
      → ((c : PiiFinding) → find (same_key f) gs ≡ some c → P c → P f)
      → Any P gs
      → Any P (put f gs)
  unfolding put
  put-Any P [] h k = absurd k
  put-Any P (g ∷ gs) h k = elim (Bool-cases (same_key f g)) [
    | inl e ↦ rw e (elim k [ inl here ↦ inl (h g (rw e) here) | inr there ↦ inr there ])
    | inr e ↦ rw e (elim k [
      | inl here ↦ inl here
      | inr there ↦ inr (put-Any P gs (λ c found. h c (rw e found)) there)
    ])
  ]

  pub put-HasDistinctKeys : (gs : List PiiFinding) → HasDistinctKeys gs → HasDistinctKeys (put f gs)
  unfolding put
  put-HasDistinctKeys [] h = (tt, tt)
  put-HasDistinctKeys (g ∷ gs) h = elim (Bool-cases (same_key f g)) [
    | inl e ↦ rw e (
      All-map (λ x. same_key g x ≡ false) (λ x. same_key f x ≡ false) gs
          (λ x n. same_key_other f g x e n) h.0,
      h.1,
    )
    | inr e ↦
        rw e (put-All (λ x. same_key g x ≡ false) gs (not_sym g e) h.0, put-HasDistinctKeys gs h.1)
  ]
    where
      not_sym : (x : PiiFinding) → same_key f x ≡ false → same_key x f ≡ false
      not_sym x n = elim (Bool-cases (same_key x f)) [ inl y ↦ cc (same_key_sym x f y) | inr y ↦ y ]
