-- ===== src/Bus/Subjects.antt =====
-- NATS-style subject patterns (eyenet/bus/subjects.py). The loops over `p` and `s` keep the source's
-- index into `s`.
pub mod Matching
pub mod Validity
use Prim.Native.Char.{code, Char}
use Prim.Native.String
use eyenet.Common.{
  ℕ, suc, ◌+◌, String, Bool, true, false, Option, none, some, List, [], ◌∷◌, str_eq, ltb, leb, ◌==◌,
  length, get_elem?, if◌then◌else◌, not, ◌&&◌,
}

-- The first token of a split grows by one character.
abbrev onto_first : Char → List String → List String
onto_first c [] = String.◌∷◌ c "" ∷ []
onto_first c (t ∷ ts) = String.◌∷◌ c t ∷ ts

-- `s.split(".")`
unfoldable pub split_on_dot : String → List String
split_on_dot String.[] = "" ∷ []
split_on_dot (String.◌∷◌ c s) =
    let rest = split_on_dot s in if code c == b'.' then "" ∷ rest else onto_first c rest

-- `_split`: the empty text has no tokens.
unfoldable pub split : String → List String
unfolding split_on_dot
split s = if str_eq s "" then [] else split_on_dot s

-- `tok != s[i]`, at an index that the caller has checked
abbrev pub same_token : String → Option String → Bool
same_token tok none = false
same_token tok (some t) = str_eq tok t

-- the loop of `subject_matches` from index `i`
unfoldable pub match_from : List String → List String → ℕ → Bool
match_from [] s i = i == length s
match_from (tok ∷ p) s i =
    let rest = match_from p s (i + 1) in
    if str_eq tok ">"
    then ltb i (length s)
    else if leb (length s) i
    then false
    else if str_eq tok "*"
    then rest
    else if not (same_token tok (get_elem? s i))
    then false
    else rest

unfoldable pub subject_matches : String → String → Bool
unfolding split match_from
subject_matches pattern subject = match_from (split pattern) (split subject) 0

-- the loop of `is_valid_pattern`: `idx` of `total` tokens
unfoldable pub valid_from : List String → ℕ → ℕ → Bool
valid_from [] idx total = true
valid_from (t ∷ ts) idx total =
    let rest = valid_from ts (idx + 1) total in
    if str_eq t "" then false else if str_eq t ">" && not (idx + 1 == total) then false else rest

unfoldable pub is_valid_pattern : String → Bool
unfolding split_on_dot valid_from
is_valid_pattern pattern =
    if str_eq pattern ""
    then false
    else let tokens = split_on_dot pattern in valid_from tokens 0 (length tokens)
