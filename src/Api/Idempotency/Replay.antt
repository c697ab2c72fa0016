-- ===== src/Api/Idempotency/Replay.antt =====
-- Later requests under the key of a completed one (eyenet/api/middleware/idempotency.py).
use eyenet.Common.{
  ℕ, ◌+◌, ◌<◌, ◌≡◌, refl, sym, ap, ◌⊎◌, ◌∙◌, String, true, false, Option, some, List, [], ◌∷◌, All,
  arith, leb, ltb, ◌&&◌, str_eq, eq_iff, inl, inr, Bool-cases, Option-cases, if◌then◌else◌,
}
use eyenet.Common.Dict.{find_key, find_key-put_key}
use eyenet.Api.Idempotency.{
  Record, Records, ReserveResult, won, lost, pending, is_expired, reserve_idempotency_record,
  finalize_idempotency_record, Request, guarded_key, Handled, responded, passed, conflict, reused,
  replayed, decode_json, settle, serve, route, handle, contended_reply,
}
use eyenet.Api.Idempotency.Entries.{reserve_won, reserve_live, reserve_apart, settle_apart}

result_cases : (r : ReserveResult) → (r ≡ won) ⊎ ((e : Option Record) × (r ≡ lost e))
result_cases won = inl refl
result_cases (lost e) = inr (e, refl)

module _ {S : Type 0} (digest : String → String → String → String) (loads : String → Option String)
    (app : Request → S → Handled × S) (ttl : ℕ) where
  abbrev hash_of : Request → String
  hash_of req = digest req.method req.path req.body

  -- the record of a completed request
  abbrev completed : ℕ → Request → ℕ → String → Record
  completed now req status body = record {
    request_hash = hash_of req;
    response_status = some status;
    response_body = some (decode_json loads body);
    bus_state = "delivered";
    created_at = now;
    expires_at = now + ttl;
  }

  handle-route :
      (now : ℕ) (req : Request) (state : Records × S) (key : String)
      → guarded_key req ≡ some key
      → handle digest loads app ttl now req state
        ≡ route digest loads app ttl (some key) now req state
  unfolding handle
  handle-route now req state key guarded =
      ap (λ k. route digest loads app ttl k now req state) guarded

  settled_stored :
      (now : ℕ) (req : Request) (t : Records) (key : String) (status : ℕ) (body : String)
      → find_key key t ≡ some (pending (hash_of req) now ttl)
      → (leb 200 status && ltb status 300) ≡ true
      → find_key key (settle loads key (responded status body) t)
        ≡ some (completed now req status body)
  unfolding finalize_idempotency_record
  settled_stored now req t key status body e fine =
      rw (fine, finalize_idempotency_record, e)
        (find_key-put_key key key (completed now req status body) t
          ∙ ground (arith, eq_iff key key))

  completed_stored :
      (now : ℕ) (req : Request) (state : Records × S) (key : String) (status : ℕ) (body : String)
      → (route digest loads app ttl (some key) now req state).0 ≡ passed (responded status body)
      → (leb 200 status && ltb status 300) ≡ true
      → find_key key (route digest loads app ttl (some key) now req state).1.0
        ≡ some (completed now req status body)
  unfolding reserve_idempotency_record
  completed_stored now req state key status body done fine =
      let r = reserve_idempotency_record key (hash_of req) now ttl state.0 in
      elim (result_cases r.0) [
        | inr (existing, e) ↦ absurd (not_passed existing (rw e at done))
        | inl e ↦
            let answered : (app req state.1).0 ≡ responded status body =
              ground (arith, rw e at done) in
            rw (e, answered)
              (settled_stored now req r.1 key status body
                (reserve_won 2 key (hash_of req) now ttl state.0 e) fine)
      ]
    where
      not_passed :
          (existing : Option Record)
          → contended_reply existing (hash_of req) ≡ passed (responded status body)
          → ⊥
      not_passed existing h = absurd (ground (arith, h))

  serve_apart :
      (r : ReserveResult) (other key hash : String) (req : Request) (state : Records × S)
      → str_eq other key ≡ false
      → find_key key (serve digest loads app ttl r other hash req state).1.0 ≡ find_key key state.0
  serve_apart won other key hash req state apart =
      settle_apart loads other key (app req state.1).0 state.0 apart
  serve_apart (lost e) other key hash req state apart = refl

  -- A request keeps a live record, whatever its own key.
  handle_keeps :
      (now : ℕ) (req : Request) (state : Records × S) (key : String) (r : Record)
      → find_key key state.0 ≡ some r
      → is_expired now r ≡ false
      → find_key key (handle digest loads app ttl now req state).1.0 ≡ some r
  unfolding handle reserve_idempotency_record
  handle_keeps now req state key r e live = elim (Option-cases (guarded_key req)) [
    | inl n ↦ ap (λ k. find_key key (route digest loads app ttl k now req state).1.0) n ∙ e
    | inr (other, g) ↦
        ap (λ k. find_key key (route digest loads app ttl k now req state).1.0) g
        ∙ elim (Bool-cases (str_eq other key)) [
          | inl same ↦
              let it : other ≡ key = (eq_iff other key).0 same in
              ap (λ k. find_key key (route digest loads app ttl (some k) now req state).1.0) it
              ∙ ap
                  (λ p.
                    find_key key
                      (serve digest loads app ttl p.0 key (hash_of req) req (p.1, state.1)).1.0)
                  (reserve_live key (hash_of req) now ttl state.0 r e live)
              ∙ e
          | inr apart ↦
              let p = reserve_idempotency_record other (hash_of req) now ttl state.0 in
              serve_apart p.0 other key (hash_of req) req (p.1, state.1) apart
              ∙ reserve_apart 2 other key (hash_of req) now ttl state.0 apart
              ∙ e
        ]
  ]

  -- the requests of a list handled one after the other, each at its time
  abbrev pub handle_all : List (ℕ × Request) → Records × S → Records × S
  handle_all [] state = state
  handle_all ((now, req) ∷ reqs) state =
      handle_all reqs (handle digest loads app ttl now req state).1

  handle_all_keeps :
      (reqs : List (ℕ × Request)) (state : Records × S) (key : String) (r : Record)
      → find_key key state.0 ≡ some r
      → All (λ call. call.0 < r.expires_at) reqs
      → find_key key (handle_all reqs state).0 ≡ some r
  handle_all_keeps [] state key r e h = e
  handle_all_keeps ((now, req) ∷ reqs) state key r e h =
      handle_all_keeps reqs (handle digest loads app ttl now req state).1 key r
        (handle_keeps now req state key r e (ground (arith, h.0))) h.1

  -- When a guarded request has been answered with a 2xx status, then after any other requests before
  -- its record expires, under whatever keys and with whatever answers, a request under its key before
  -- the record expires leaves the application and the records as they are: the same request gets the
  -- stored answer, and one with another digest is refused.
  pub completed_replays :
      (now later : ℕ) (req other : Request) (between : List (ℕ × Request)) (state : Records × S)
      (key : String) (status : ℕ) (body : String)
      → guarded_key req ≡ some key
      → guarded_key other ≡ some key
      → (handle digest loads app ttl now req state).0 ≡ passed (responded status body)
      → (leb 200 status && ltb status 300) ≡ true
      → All (λ call. call.0 < now + ttl) between
      → later < now + ttl
      → let after = handle_all between (handle digest loads app ttl now req state).1 in
        handle digest loads app ttl later other after ≡ (
          (if str_eq
                (digest req.method req.path req.body)
                (digest other.method other.path other.body)
              then replayed status (decode_json loads body)
              else conflict reused),
          after,
        )
  completed_replays now later req other between state key status body guarded guarded' done fine
        timely soon =
      let first = handle-route now req state key guarded in
      let done_first = ap (λ r. r.0) (sym first) ∙ done in
      let after = handle_all between (handle digest loads app ttl now req state).1 in
      let stored : find_key key after.0 ≡ some (completed now req status body) =
        handle_all_keeps between (handle digest loads app ttl now req state).1 key
          (completed now req status body)
          (ap (λ r. find_key key r.1.0) first
            ∙ completed_stored now req state key status body done_first fine)
          timely in
      handle-route later other after key guarded'
      ∙ ap (λ r. serve digest loads app ttl r.0 key (hash_of other) other (r.1, after.1))
          (reserve_live key (hash_of other) later ttl after.0 (completed now req status body) stored
            (ground (arith, soon)))
      ∙ ap (λ x. (x, after)) (ground arith)
