-- ===== src/Bus/Subjects/Matching.antt =====
-- `subject_matches` (eyenet/bus/subjects.py) and the matching relation of NATS subjects.
use eyenet.Common.{
  ℕ, zero, suc, ◌≤◌, ◌<◌, String, ◌≡◌, refl, sym, ◌∙◌, ◌↔◌, ◌⊎◌, inl, inr, Bool, true, false, List,
  [], ◌∷◌, some, str_eq, eq_iff, arith, length, get_elem?, Bool-cases, drop, ◌||◌, if◌then◌else◌,
}
use eyenet.Bus.Subjects.{split, match_from, subject_matches}

-- `*` stands for one token, `>` for one or more trailing tokens, and any other token for itself.
pub data Matches : List String → List String → Type 0 where
  done : Matches [] []
  tail : {tok t : String} {p ts : List String} → tok ≡ ">" → Matches (tok ∷ p) (t ∷ ts)
  star :
      {tok t : String} {p ts : List String} → tok ≡ "*" → Matches p ts → Matches (tok ∷ p) (t ∷ ts)
  same : {tok t : String} {p ts : List String} → tok ≡ t → Matches p ts → Matches (tok ∷ p) (t ∷ ts)

-- the same walk on the tokens that are left
walk : List String → List String → Bool
walk [] [] = true
walk [] (t ∷ ts) = false
walk (tok ∷ p) [] = false
walk (tok ∷ p) (t ∷ ts) =
    let rest = walk p ts in
    if str_eq tok ">" then true else if str_eq tok "*" || str_eq tok t then rest else false

drop-next :
    (s : List String) (i : ℕ)
    → ((drop i s ≡ []) × (length s ≤ i))
      ⊎ ((t : String) × (ts : List String) × (drop i s ≡ t ∷ ts)
          × (get_elem? s i ≡ some t)
          × (drop (suc i) s ≡ ts)
          × (i < length s))
drop-next [] zero = inl (refl, omega arith)
drop-next [] (suc i) = inl (refl, omega arith)
drop-next (t ∷ ts) zero = inr (t, ts, refl, refl, refl, omega arith)
drop-next (t ∷ ts) (suc i) = elim (drop-next ts i) [
  | inl h ↦ inl (h.0, omega (arith, h.1))
  | inr (u, us, e, g, d, l) ↦ inr (u, us, e, g, d, omega (arith, l))
]

match_from-walk : (p s : List String) (i : ℕ) → i ≤ length s → match_from p s i ≡ walk p (drop i s)
unfolding match_from walk
match_from-walk [] s i h = elim (drop-next s i) [
  | inl (e, l) ↦ rw e (ground (arith, l, h))
  | inr (t, ts, e, g, d, l) ↦ rw e (ground (arith, l))
]
match_from-walk (tok ∷ p) s i h = elim (drop-next s i) [
  | inl (e, l) ↦ rw e (ground (arith, l))
  | inr (t, ts, e, g, d, l) ↦
      ground (arith, e, g, d, l, match_from-walk p s (suc i) l, eq_iff tok t, eq_iff tok "*")
]

walk_sound : (p s : List String) → walk p s ≡ true → Matches p s
unfolding walk
walk_sound [] [] h = done
walk_sound [] (t ∷ ts) h = cc
walk_sound (tok ∷ p) [] h = cc
walk_sound (tok ∷ p) (t ∷ ts) h = elim (Bool-cases (str_eq tok ">")) [
  | inl e ↦ tail ((eq_iff tok ">").0 e)
  | inr n ↦ elim (Bool-cases (str_eq tok "*")) [
    | inl e ↦ star ((eq_iff tok "*").0 e) (walk_sound p ts (ground (arith, h, n, e)))
    | inr m ↦ elim (Bool-cases (str_eq tok t)) [
      | inl e ↦ same ((eq_iff tok t).0 e) (walk_sound p ts (ground (arith, h, n, m, e)))
      | inr k ↦ absurd (ground (arith, h, n, m, k))
    ]
  ]
]

walk_complete : {p s : List String} → Matches p s → walk p s ≡ true
unfolding walk
walk_complete done = refl
walk_complete (tail {tok = tok} e) = ground (arith, eq_iff tok ">")
walk_complete (star {tok = tok} {t = t} e m) = ground (arith, eq_iff tok "*", walk_complete m)
walk_complete (same {tok = tok} {t = t} e m) = ground (arith, eq_iff tok t, walk_complete m)

-- A subject is matched exactly when its tokens and the pattern's tokens are related by `Matches`.
pub subject_matches_iff :
    (pattern subject : String)
    → (subject_matches pattern subject ≡ true) ↔ Matches (split pattern) (split subject)
unfolding subject_matches
subject_matches_iff pattern subject =
    let e = match_from-walk (split pattern) (split subject) 0 (omega arith) in
    (λ h. walk_sound _ _ (sym e ∙ h), λ m. e ∙ walk_complete m)
