-- ===== src/Classifier/Redact.antt =====
-- `_mask` of eyenet/classifier/ruleset/_types.py: what a log line may show of a captured span.
use Prim.Native.Char.{Char}
use eyenet.Common.{
  ℕ, zero, suc, ◌-◌, ◌<◌, min, String, ◌≡◌, refl, ap, List, [], ◌∷◌, ◌++◌, arith, leb, length, drop,
  length-append, if◌then◌else◌, Bool-cases, inl, inr,
}
use eyenet.Common.Text.{chars, of_chars, chars-of_chars}

abbrev redact_tail : ℕ
redact_tail = 4

abbrev redact_star_cap : ℕ
redact_star_cap = 12

-- `"*" * n`
abbrev pub stars : ℕ → List Char
stars zero = []
stars (suc n) = "*" ∷ stars n

-- `span[-n:]`, for `0 < n`
abbrev pub last : ℕ → List Char → List Char
last n cs = drop (length cs - n) cs

unfoldable pub mask : String → String
mask span =
    let n = length (chars span) in
    if leb n redact_tail
    then of_chars (stars n)
    else of_chars (stars (min (n - redact_tail) redact_star_cap) ++ last redact_tail (chars span))

abbrev pub shown : String → List Char
shown span = chars (mask span)

length-stars : (n : ℕ) → length (stars n) ≡ n
length-stars zero = refl
length-stars (suc n) = ap suc (length-stars n)

length-drop : {A : Type 0} (n : ℕ) (xs : List A) → length (drop n xs) ≡ length xs - n
length-drop zero xs = omega arith
length-drop (suc n) [] = omega arith
length-drop (suc n) (x ∷ xs) = omega (arith, length-drop n xs)

-- The mask never shows more than sixteen characters, nor more than the span has.
pub length-mask : (span : String) → length (shown span) ≡ min (length (chars span)) 16
unfolding mask
length-mask span = elim (Bool-cases (leb (length (chars span)) redact_tail)) [
  | inl short ↦ rw (short, chars-of_chars, length-stars) (ground arith)
  | inr long ↦
      rw (long, chars-of_chars, length-append)
        (ground (
          arith,
          length-stars (min (length (chars span) - 4) 12),
          length-drop (length (chars span) - 4) (chars span),
        ))
]

-- What the mask shows depends on the span's length and, only where the span is longer than four
-- characters, on its last four: two spans that agree there have the same mask.
pub mask_hides :
    (a b : String)
    → length (chars a) ≡ length (chars b)
    → (4 < length (chars a) → last 4 (chars a) ≡ last 4 (chars b))
    → mask a ≡ mask b
unfolding mask
mask_hides a b e h = elim (Bool-cases (leb (length (chars a)) redact_tail)) [
  | inl short ↦ rw (short, ← e, short)
  | inr long ↦
      let same = h (ground (arith, long)) in
      rw (long, ← e, long)
        (ap (λ r. of_chars (stars (min (length (chars a) - redact_tail) redact_star_cap) ++ r))
          (rw (← e) at same))
]
