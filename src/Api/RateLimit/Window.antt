-- ===== src/Api/RateLimit/Window.antt =====
-- The window of the limiter (eyenet/api/middleware/rate_limit.py), and the limiter that keeps a log.
use eyenet.Common.{
  ℕ, ◌+◌, ◌-◌, ◌≤◌, ◌≡◌, refl, sym, ap, ◌∙◌, String, Bool, true, Option, none, some, List, [], ◌∷◌,
  ◌++◌, arith, leb, ltb, str_eq, length, All, All-append, All-map, keep_if, keep_if-append,
  keep_if-All_of, if◌then◌else◌, inl, inr, Bool-cases,
}
use eyenet.Common.Dict.{put_key, find_key-put_key}
use eyenet.Api.RateLimit.{Buckets, Limiter, bucket_of, trim, admit}

-- `t` is in the window that ends now
abbrev pub is_recent : (window now : ℕ) → ℕ → Bool
is_recent window now t = ltb now (t + window)

-- the times at which a key was admitted
unfoldable pub admissions : String → List (String × ℕ) → List ℕ
admissions key [] = []
admissions key ((k, t) ∷ log) =
    let rest = admissions key log in if str_eq k key then t ∷ rest else rest

-- The limiter that keeps the whole log: a call is admitted while fewer than `limit` admissions of its
-- key are in the window.
unfoldable pub admit_by_log :
    Limiter → String → (now : ℕ) → List (String × ℕ) → Option ℕ × List (String × ℕ)
unfolding admissions
admit_by_log self key now log =
    let recent = length (keep_if (is_recent self.window now) (admissions key log)) in
    if leb self.limit recent
    then (none, log)
    else (some (self.limit - (recent + 1)), log ++ (key, now) ∷ [])

-- the answers to a sequence of calls, each with its key and its clock reading
unfoldable pub answers : Limiter → List (String × ℕ) → Buckets → List (Option ℕ)
answers self [] buckets = []
answers self ((key, now) ∷ calls) buckets =
    let (answer, buckets') = admit self key now buckets in answer ∷ answers self calls buckets'

unfoldable pub answers_by_log : Limiter → List (String × ℕ) → List (String × ℕ) → List (Option ℕ)
answers_by_log self [] log = []
answers_by_log self ((key, now) ∷ calls) log =
    let (answer, log') = admit_by_log self key now log in answer ∷ answers_by_log self calls log'

-- The clock does not run backwards.
abbrev pub IsMonotonic : ℕ → List (String × ℕ) → Type 0
IsMonotonic from [] = Unit
IsMonotonic from ((key, now) ∷ calls) = (from ≤ now) × IsMonotonic now calls

abbrev Ascending : List ℕ → Type 0
Ascending [] = Unit
Ascending (t ∷ ts) = All (λ u. t ≤ u) ts × Ascending ts

keep_if_whole : (p : ℕ → Bool) (ts : List ℕ) → All (λ t. p t ≡ true) ts → keep_if p ts ≡ ts
keep_if_whole p [] h = refl
keep_if_whole p (t ∷ ts) h = rw h.0 (ap (λ r. t ∷ r) (keep_if_whole p ts h.1))

pub trim-keep :
    (window now : ℕ) (ts : List ℕ)
    → Ascending ts
    → trim window now ts ≡ keep_if (is_recent window now) ts
unfolding trim
trim-keep window now [] h = refl
trim-keep window now (t ∷ ts) h = elim (Bool-cases (leb (t + window) now)) [
  | inl gone ↦ ground (arith, gone, trim-keep window now ts h.1)
  | inr stays ↦
      let rest =
        keep_if_whole (is_recent window now) ts
          (All-map _ _ ts (λ u l. ground (arith, l, stays)) h.0) in
      ground (arith, stays, rest)
]

Ascending-append :
    (ts : List ℕ) (now : ℕ) → Ascending ts → All (λ t. t ≤ now) ts → Ascending (ts ++ now ∷ [])
Ascending-append [] now a h = (tt, tt)
Ascending-append (t ∷ ts) now a h =
    (All-append _ ts (now ∷ []) a.0 (h.0, tt), Ascending-append ts now a.1 h.1)

keep_if-Ascending : (p : ℕ → Bool) (ts : List ℕ) → Ascending ts → Ascending (keep_if p ts)
keep_if-Ascending p [] a = tt
keep_if-Ascending p (t ∷ ts) a = elim (Bool-cases (p t)) [
  | inl y ↦ rw y (keep_if-All_of p _ ts a.0, keep_if-Ascending p ts a.1)
  | inr n ↦ rw n (keep_if-Ascending p ts a.1)
]

-- Narrowing the window further forgets nothing that is still in it.
recent-recent :
    (window now later : ℕ) (ts : List ℕ)
    → now ≤ later
    → keep_if (is_recent window later) (keep_if (is_recent window now) ts)
      ≡ keep_if (is_recent window later) ts
recent-recent window now later [] h = refl
recent-recent window now later (t ∷ ts) h = ground (arith, recent-recent window now later ts h)

pub admissions-append :
    (k key : String) (now : ℕ) (log : List (String × ℕ))
    → admissions k (log ++ (key, now) ∷ [])
      ≡ admissions k log ++ (if str_eq key k then now ∷ [] else [])
unfolding admissions
admissions-append k key now [] = ground arith
admissions-append k key now ((j, t) ∷ log) = ground (arith, admissions-append k key now log)

-- A bucket is ascending, up to the last reading, and in each later window it holds what the log does.
pub record IsTracked (window from : ℕ) (bucket log : List ℕ) : Type 0 where
  pub ascending : Ascending bucket
  pub past : All (λ t. t ≤ from) bucket
  pub agrees :
      (later : ℕ)
      → from ≤ later
      → keep_if (is_recent window later) bucket ≡ keep_if (is_recent window later) log

module _ (window from now : ℕ) (bucket log : List ℕ) (ahead : from ≤ now)
    (w : IsTracked window from bucket log) where
  abbrev pub kept : List ℕ
  kept = keep_if (is_recent window now) bucket

  kept-past : All (λ t. t ≤ now) kept
  kept-past =
      keep_if-All_of (is_recent window now) _ bucket
        (All-map _ _ bucket (λ t l. ground (arith, l, ahead)) w.past)

  kept-agrees :
      (later : ℕ)
      → now ≤ later
      → keep_if (is_recent window later) kept ≡ keep_if (is_recent window later) log
  kept-agrees later h =
      recent-recent window now later bucket h ∙ w.agrees later (omega (arith, ahead, h))

  pub later-IsTracked : IsTracked window now bucket log
  later-IsTracked = record {
    ascending = w.ascending;
    past = All-map _ _ bucket (λ t l. ground (arith, l, ahead)) w.past;
    agrees = λ later h. w.agrees later (omega (arith, ahead, h));
  }

  pub refused-IsTracked : IsTracked window now kept log
  refused-IsTracked = record {
    ascending = keep_if-Ascending _ bucket w.ascending;
    past = kept-past;
    agrees = kept-agrees;
  }

  pub admitted-IsTracked : IsTracked window now (kept ++ now ∷ []) (log ++ now ∷ [])
  admitted-IsTracked = record {
    ascending = Ascending-append kept now (keep_if-Ascending _ bucket w.ascending) kept-past;
    past = All-append _ kept (now ∷ []) kept-past (omega arith, tt);
    agrees = λ later h.
        keep_if-append (is_recent window later) kept (now ∷ [])
        ∙ ap (λ r. r ++ keep_if (is_recent window later) (now ∷ [])) (kept-agrees later h)
        ∙ sym (keep_if-append (is_recent window later) log (now ∷ []));
  }

abbrev pub Tracks : ℕ → ℕ → Buckets → List (String × ℕ) → Type 0
Tracks window from buckets log =
    (k : String) → IsTracked window from (bucket_of k buckets) (admissions k log)

pub bucket_of-put :
    (key k : String) (bucket : List ℕ) (buckets : Buckets)
    → bucket_of k (put_key key bucket buckets)
      ≡ (if str_eq key k then bucket else bucket_of k buckets)
bucket_of-put key k bucket buckets = ground (arith, find_key-put_key key k bucket buckets)
