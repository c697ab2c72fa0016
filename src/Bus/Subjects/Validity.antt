-- ===== src/Bus/Subjects/Validity.antt =====
-- `is_valid_pattern` (eyenet/bus/subjects.py) and well-formed patterns.
use eyenet.Common.{ℕ, ◌+◌, String, ◌≡◌, refl, ◌≢◌, ◌↔◌, true, List, [], ◌∷◌, eq_iff, arith, length}
use eyenet.Bus.Subjects.{split_on_dot, valid_from, is_valid_pattern}

-- No token is empty, and `>` stands only at the end.
abbrev pub IsWellFormed : List String → Type 0
IsWellFormed [] = Unit
IsWellFormed (t ∷ []) = t ≢ ""
IsWellFormed (t ∷ u ∷ ts) = (t ≢ "") × (t ≢ ">") × IsWellFormed (u ∷ ts)

valid_from_sound :
    (ts : List String) (idx total : ℕ)
    → idx + length ts ≡ total
    → valid_from ts idx total ≡ true
    → IsWellFormed ts
unfolding valid_from
valid_from_sound [] idx total e h = tt
valid_from_sound (t ∷ []) idx total e h = ground (arith, eq_iff t "")
valid_from_sound (t ∷ u ∷ ts) idx total e h = (
  ground (arith, eq_iff t ""),
  ground (arith, eq_iff t ">"),
  valid_from_sound (u ∷ ts) (idx + 1) total (omega arith) (ground arith),
)

valid_from_complete :
    (ts : List String) (idx total : ℕ)
    → idx + length ts ≡ total
    → IsWellFormed ts
    → valid_from ts idx total ≡ true
unfolding valid_from
valid_from_complete [] idx total e h = refl
valid_from_complete (t ∷ []) idx total e h = ground (arith, eq_iff t "")
valid_from_complete (t ∷ u ∷ ts) idx total e h = ground (
  arith,
  eq_iff t "",
  eq_iff t ">",
  h.0,
  h.1,
  valid_from_complete (u ∷ ts) (idx + 1) total (omega arith) h.2,
)

-- A pattern is accepted exactly when it is not empty, no token of it is empty, and `>` stands at
-- most as its last token.
pub is_valid_pattern_iff :
    (pattern : String)
    → (is_valid_pattern pattern ≡ true) ↔ ((pattern ≢ "") × IsWellFormed (split_on_dot pattern))
unfolding is_valid_pattern
is_valid_pattern_iff pattern = (sound, complete)
  where
    sound : is_valid_pattern pattern ≡ true → (pattern ≢ "") × IsWellFormed (split_on_dot pattern)
    sound h = (
      ground (arith, eq_iff pattern ""),
      valid_from_sound (split_on_dot pattern) 0 (length (split_on_dot pattern)) (omega arith)
          (ground (arith, eq_iff pattern "")),
    )

    complete :
        (pattern ≢ "") × IsWellFormed (split_on_dot pattern) → is_valid_pattern pattern ≡ true
    complete w = ground (
      arith,
      eq_iff pattern "",
      w.0,
      valid_from_complete (split_on_dot pattern) 0 (length (split_on_dot pattern)) (omega arith)
          w.1,
    )
