-- ===== src/Common/Filters.antt =====
-- What a filtered list says of the list.
use mathlib.Core.Path.{◌≡◌, refl}
use mathlib.Core.Logic.{inl, inr}
use mathlib.Core.Bool.{Bool, true, false}
use mathlib.Core.List.{List, [], ◌∷◌, ◌++◌, map}
use native.Mathlib.Omega.{arith}
use eyenet.Common.Tests.{Bool-cases}
use eyenet.Common.Lists.{is_empty, keep_if, all, All, Any}

pub is_empty-map {ℓ} : {A B : Type ℓ} (f : A → B) (xs : List A) → is_empty (map f xs) ≡ is_empty xs
is_empty-map f [] = refl
is_empty-map f (x ∷ xs) = refl

module _ {A : Type 0} (p : A → Bool) where
  pub keep_if-Any : (xs : List A) → is_empty (keep_if p xs) ≡ false → Any (λ x. p x ≡ true) xs
  keep_if-Any [] h = absurd (ground arith)
  keep_if-Any (x ∷ xs) h = elim (Bool-cases (p x)) [
    | inl t ↦ inl t
    | inr f ↦ inr (keep_if-Any xs (rw f at h))
  ]

  pub Any-keep_if : (xs : List A) → Any (λ x. p x ≡ true) xs → is_empty (keep_if p xs) ≡ false
  Any-keep_if [] h = absurd h
  Any-keep_if (x ∷ xs) h = elim (Bool-cases (p x)) [
    | inl t ↦ rw t
    | inr f ↦ elim h [ inl t ↦ absurd (ground (arith, t, f)) | inr r ↦ rw f (Any-keep_if xs r) ]
  ]

  pub keep_if-All :
      (q : A → Bool) (xs : List A)
      → all q (keep_if p xs) ≡ true
      → All (λ x. p x ≡ true → q x ≡ true) xs
  keep_if-All q [] h = tt
  keep_if-All q (x ∷ xs) h = elim (Bool-cases (p x)) [
    | inl t ↦
        let both : (q x ≡ true) × (all q (keep_if p xs) ≡ true) = ground (arith, h, t) in
        ((λ _. both.0), keep_if-All q xs both.1)
    | inr f ↦ ((λ t. absurd (ground (arith, t, f))), keep_if-All q xs (rw f at h))
  ]

  pub All-keep_if :
      (q : A → Bool) (xs : List A)
      → All (λ x. p x ≡ true → q x ≡ true) xs
      → all q (keep_if p xs) ≡ true
  All-keep_if q [] h = refl
  All-keep_if q (x ∷ xs) h = elim (Bool-cases (p x)) [
    | inl t ↦ rw (t, h.0 t) (All-keep_if q xs h.1)
    | inr f ↦ rw f (All-keep_if q xs h.1)
  ]

pub Any-map :
    {A : Type 0} (P Q : A → Type 0) (xs : List A) → ((x : A) → P x → Q x) → Any P xs → Any Q xs
Any-map P Q [] f h = h
Any-map P Q (x ∷ xs) f h = elim h [ inl e ↦ inl (f x e) | inr r ↦ inr (Any-map P Q xs f r) ]

pub keep_if-append :
    {A : Type 0} (p : A → Bool) (xs ys : List A)
    → keep_if p (xs ++ ys) ≡ keep_if p xs ++ keep_if p ys
keep_if-append p [] ys = refl
keep_if-append p (x ∷ xs) ys = ground (arith, keep_if-append p xs ys)

-- A second filter that asks for less keeps everything; one that excludes the first keeps nothing.
pub keep_if-keep_if :
    {A : Type 0} (p q : A → Bool) (xs : List A)
    → ((x : A) → p x ≡ true → q x ≡ true)
    → keep_if q (keep_if p xs) ≡ keep_if p xs
keep_if-keep_if p q [] h = refl
keep_if-keep_if p q (x ∷ xs) h = elim (Bool-cases (p x)) [
  | inl t ↦ rw (t, h x t, keep_if-keep_if p q xs h)
  | inr f ↦ rw f (keep_if-keep_if p q xs h)
]

pub keep_if_apart :
    {A : Type 0} (p q : A → Bool) (xs : List A)
    → ((x : A) → p x ≡ true → q x ≡ false)
    → keep_if q (keep_if p xs) ≡ []
keep_if_apart p q [] h = refl
keep_if_apart p q (x ∷ xs) h = elim (Bool-cases (p x)) [
  | inl t ↦ rw (t, h x t) (keep_if_apart p q xs h)
  | inr f ↦ rw f (keep_if_apart p q xs h)
]

module _ {A : Type 0} (p : A → Bool) where
  pub keep_if_pass : (xs : List A) → All (λ x. p x ≡ true) (keep_if p xs)
  keep_if_pass [] = tt
  keep_if_pass (x ∷ xs) = elim (Bool-cases (p x)) [
    | inl t ↦ rw t (t, keep_if_pass xs)
    | inr f ↦ rw f (keep_if_pass xs)
  ]

  pub All-of_keep_if :
      (Q : A → Type 0) (xs : List A) → All Q (keep_if p xs) → All (λ x. p x ≡ true → Q x) xs
  All-of_keep_if Q [] h = tt
  All-of_keep_if Q (x ∷ xs) h = elim (Bool-cases (p x)) [
    | inl t ↦
        let both : Q x × All Q (keep_if p xs) = rw t at h in
        ((λ _. both.0), All-of_keep_if Q xs both.1)
    | inr f ↦ ((λ t. absurd (ground (arith, t, f))), All-of_keep_if Q xs (rw f at h))
  ]

  pub keep_if-All_of : (Q : A → Type 0) (xs : List A) → All Q xs → All Q (keep_if p xs)
  keep_if-All_of Q [] h = tt
  keep_if-All_of Q (x ∷ xs) h = elim (Bool-cases (p x)) [
    | inl t ↦ rw t (h.0, keep_if-All_of Q xs h.1)
    | inr f ↦ rw f (keep_if-All_of Q xs h.1)
  ]
