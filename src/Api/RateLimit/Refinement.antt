-- ===== src/Api/RateLimit/Refinement.antt =====
-- The limiter of eyenet/api/middleware/rate_limit.py beside one that keeps every admission.
use mathlib.Core.Path.{subst}
use mathlib.Core.List.{append-nil}
use eyenet.Common.{
  ℕ, ◌+◌, ◌-◌, ◌≤◌, ◌≡◌, refl, sym, ap, ◌∙◌, String, true, false, some, List, [], ◌∷◌, ◌++◌, arith,
  leb, str_eq, eq_iff, length, keep_if, inl, inr, Bool-cases,
}
use eyenet.Common.Dict.{find_key, put_key}
use eyenet.Api.RateLimit.{Buckets, Limiter, bucket_of, trim, admit}
use eyenet.Api.RateLimit.Window.{
  is_recent, admissions, admissions-append, admit_by_log, answers, answers_by_log, IsMonotonic,
  IsTracked, Tracks, trim-keep, kept, later-IsTracked, refused-IsTracked, admitted-IsTracked,
  bucket_of-put,
}

module _ (self : Limiter) (key : String) (from now : ℕ) (buckets : Buckets)
    (log : List (String × ℕ)) (ahead : from ≤ now) (t : Tracks self.window from buckets log) where
  trimmed :
      trim self.window now (bucket_of key buckets)
      ≡ kept self.window from now (bucket_of key buckets) (admissions key log) ahead (t key)
  trimmed = trim-keep self.window now (bucket_of key buckets) (t key).ascending

  sizes :
      length (trim self.window now (bucket_of key buckets))
      ≡ length (keep_if (is_recent self.window now) (admissions key log))
  sizes = ap length (trimmed ∙ (t key).agrees now ahead)

  -- the buckets after a write, tracked by the log after its admissions
  put-Tracks :
      (bucket : List ℕ) (log' : List (String × ℕ))
      → IsTracked self.window now bucket (admissions key log')
      → ((k : String) → str_eq key k ≡ false → admissions k log' ≡ admissions k log)
      → Tracks self.window now (put_key key bucket buckets) log'
  put-Tracks bucket log' own others k = elim (Bool-cases (str_eq key k)) [
    | inl same ↦
        let e : key ≡ k = (eq_iff key k).0 same in
        subst (λ b. IsTracked self.window now b (admissions k log'))
          (sym (bucket_of-put key k bucket buckets ∙ ground (arith, same)))
          (subst (λ j. IsTracked self.window now bucket (admissions j log')) e own)
    | inr other ↦
        subst (λ b. IsTracked self.window now b (admissions k log'))
          (sym (bucket_of-put key k bucket buckets ∙ ground (arith, other)))
          (subst (λ l. IsTracked self.window now (bucket_of k buckets) l) (sym (others k other))
            (later-IsTracked self.window from now _ _ ahead (t k)))
  ]

  step :
      ((admit self key now buckets).0 ≡ (admit_by_log self key now log).0)
      × Tracks self.window now (admit self key now buckets).1 (admit_by_log self key now log).1
  unfolding admit admit_by_log
  step =
      elim (Bool-cases (leb self.limit (length (trim self.window now (bucket_of key buckets))))) [
        | inl full ↦
            let spec : leb self.limit recent ≡ true = ap (leb self.limit) (sym sizes) ∙ full in
            rw (full, spec)
              (
                refl,
                put-Tracks _ log
                    (subst (λ b. IsTracked self.window now b (admissions key log)) (sym trimmed)
                      (refused-IsTracked self.window from now _ _ ahead (t key)))
                    (λ k other. refl),
              )
        | inr room ↦
            let spec : leb self.limit recent ≡ false = ap (leb self.limit) (sym sizes) ∙ room in
            rw (room, spec)
              (
                ap (λ n. some (self.limit - (n + 1))) sizes,
                put-Tracks _ (log ++ (key, now) ∷ []) admitted (λ k other.
                    admissions-append k key now log
                    ∙ ap (λ r. admissions k log ++ r) (ground (arith, other))
                    ∙ append-nil _),
              )
      ]
    where
      recent : ℕ
      recent = length (keep_if (is_recent self.window now) (admissions key log))

      admitted :
          IsTracked self.window now
            (trim self.window now (bucket_of key buckets) ++ now ∷ [])
            (admissions key (log ++ (key, now) ∷ []))
      admitted =
          subst
            (λ b.
              IsTracked self.window now (b ++ now ∷ []) (admissions key (log ++ (key, now) ∷ [])))
            (sym trimmed)
            (subst
              (λ l.
                IsTracked self.window now
                  (kept self.window from now (bucket_of key buckets) (admissions key log) ahead
                      (t key)
                    ++ now ∷ [])
                  l)
              (sym (
                admissions-append key key now log
                ∙ ap (λ r. admissions key log ++ r) (ground (arith, eq_iff key key))))
              (admitted-IsTracked self.window from now _ _ ahead (t key)))

answers-tracked :
    (self : Limiter) (calls : List (String × ℕ)) (from : ℕ) (buckets : Buckets)
    (log : List (String × ℕ))
    → IsMonotonic from calls
    → Tracks self.window from buckets log
    → answers self calls buckets ≡ answers_by_log self calls log
unfolding answers answers_by_log
answers-tracked self [] from buckets log m t = refl
answers-tracked self ((key, now) ∷ calls) from buckets log m t =
    let (same, tracked) = step self key from now buckets log m.0 t in
    ap (λ a. a ∷ answers self calls (admit self key now buckets).1) same
    ∙ ap (λ r. (admit_by_log self key now log).0 ∷ r)
        (answers-tracked self calls now (admit self key now buckets).1
          (admit_by_log self key now log).1 m.1 tracked)

-- Over any sequence of calls whose clock does not run backwards, started empty, the limiter that
-- forgets gives the same answers, remaining quotas included, as one that keeps the log of all
-- admissions and admits a call while fewer than `limit` admissions of its key are in the window.
pub limiter_refines_log :
    (self : Limiter) (calls : List (String × ℕ))
    → IsMonotonic 0 calls
    → answers self calls [] ≡ answers_by_log self calls []
unfolding admissions find_key
limiter_refines_log self calls m =
    answers-tracked self calls 0 [] [] m
      (λ k. record { ascending = tt; past = tt; agrees = λ later h. refl })
