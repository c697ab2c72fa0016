-- ===== src/Tests/Limits.antt =====
-- The rate limit and the idempotency keys at concrete runs.
use eyenet.Common.{Option, ℕ, ◌+◌, ◌≡◌, refl, String, none, some, List, [], ◌∷◌, arith}
use eyenet.Common.Dict.{find_key, put_key}
use eyenet.Api.Idempotency.{
  Request, Handled, responded, passed, replayed, conflict, reused, handle,
  reserve_idempotency_record, reserve_attempts, finalize_idempotency_record,
}
use eyenet.Api.Idempotency.Replay.{handle_all, completed_replays}
use eyenet.Api.RateLimit.{Limiter, trim, admit}
use eyenet.Api.RateLimit.Window.{answers, answers_by_log}
use eyenet.Api.RateLimit.Refinement.{limiter_refines_log}

abbrev two_per_ten : Limiter
two_per_ten = record { limit = 2; window = 10 }

abbrev calls : List (String × ℕ)
calls = ("t:1", 1) ∷ ("t:1", 2) ∷ ("ip:a", 3) ∷ ("t:1", 4) ∷ ("t:1", 11) ∷ []

limited : answers two_per_ten calls [] ≡ some 1 ∷ some 0 ∷ some 1 ∷ none ∷ some 0 ∷ []
unfolding answers admit trim find_key put_key
limited = refl

limiter_refines_log_example : answers two_per_ten calls [] ≡ answers_by_log two_per_ten calls []
limiter_refines_log_example =
    limiter_refines_log two_per_ten calls
      (omega arith, (omega arith, (omega arith, (omega arith, (omega arith, tt)))))

-- an application that counts its runs
abbrev count_runs : Request → ℕ → Handled × ℕ
count_runs req runs = (responded 202 "{}", runs + 1)

abbrev digest : String → String → String → String
digest method path body = body

abbrev loads : String → Option String
loads text = some text

abbrev post : String → Request
post body = record {
  kind = "http";
  method = "POST";
  path = "/v1/cases";
  idempotency_key = some "k1";
  body = body;
}

ran_once :
    handle digest loads count_runs 100 20
      (post "a")
      (handle digest loads count_runs 100 10 (post "a") ([], 0)).1
    ≡ (replayed 202 "{}", (handle digest loads count_runs 100 10 (post "a") ([], 0)).1)
unfolding handle reserve_idempotency_record reserve_attempts finalize_idempotency_record find_key
    put_key
ran_once = refl

first_ran :
    (handle digest loads count_runs 100 10 (post "a") ([], 0)).0 ≡ passed (responded 202 "{}")
unfolding handle reserve_idempotency_record reserve_attempts find_key
first_ran = refl

-- an unguarded request, and one under another key
abbrev between : List (ℕ × Request)
between =
    (12, record (post "a") { method = "GET" })
    ∷ (15, record (post "c") { idempotency_key = some "k2" })
    ∷ []

completed_replays_example :
    let after =
      handle_all digest loads count_runs 100 between
        (handle digest loads count_runs 100 10 (post "a") ([], 0)).1 in
    handle digest loads count_runs 100 20 (post "b") after ≡ (conflict reused, after)
completed_replays_example =
    completed_replays digest loads count_runs 100 10 20 (post "a") (post "b") between ([], 0) "k1"
      202 "{}" refl refl first_ran refl (omega arith, (omega arith, tt)) (omega arith)
