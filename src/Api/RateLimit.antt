-- ===== src/Api/RateLimit.antt =====
-- The sliding-window limiter (`_admit` of eyenet/api/middleware/rate_limit.py). The monotonic clock's
-- readings and the window are whole ticks, so `x <= now - window` is `x + window ≤ now`. The lock makes
-- each call one step.
pub mod Window
pub mod Refinement
use eyenet.Common.{
  ℕ, ◌+◌, ◌-◌, String, Option, none, some, List, [], ◌∷◌, ◌++◌, leb, length, or_else, if◌then◌else◌,
}
use eyenet.Common.Dict.{find_key, put_key}

abbrev pub Buckets : Type 0
Buckets = List (String × List ℕ)

pub record Limiter : Type 0 where
  pub limit : ℕ
  pub window : ℕ

-- `self._buckets[key]`, a default dictionary
abbrev pub bucket_of : String → Buckets → List ℕ
bucket_of key buckets = or_else (find_key key buckets) []

-- the loop that pops what has left the window
unfoldable pub trim : (window now : ℕ) → List ℕ → List ℕ
trim window now [] = []
trim window now (t ∷ ts) =
    let rest = trim window now ts in if leb (t + window) now then rest else t ∷ ts

unfoldable pub admit : Limiter → String → (now : ℕ) → Buckets → Option ℕ × Buckets
unfolding trim
admit self key now buckets =
    let bucket = trim self.window now (bucket_of key buckets) in
    if leb self.limit (length bucket)
    then (none, put_key key bucket buckets)
    else (some (self.limit - (length bucket + 1)), put_key key (bucket ++ now ∷ []) buckets)
