-- ===== src/Api/Idempotency.antt =====
-- Idempotency keys (eyenet/api/middleware/idempotency.py and
-- eyenet/storage/sqlmodel_repo/idempotency.py). Parameters are the digest of a request, the JSON library
-- (`loads` gives the text of a decoded object, where the body is one) and the guarded application. JSON
-- objects are kept as their text; the problem texts are constructors. A request is handled in one step.
pub mod Entries
pub mod Replay
use eyenet.Common.{
  ℕ, zero, suc, ◌+◌, String, Bool, true, false, Option, none, some, List, [], ◌∷◌, leb, ltb, ◌&&◌,
  not, str_eq, take, or_else, is_some, if◌then◌else◌,
}
use eyenet.Common.Dict.{find_key, put_key, drop_key}
use eyenet.Common.Text.{chars, of_chars}

pub record Record : Type 0 where
  pub request_hash : String
  pub response_status : Option ℕ
  pub response_body : Option String
  pub bus_state : String
  pub created_at : ℕ
  pub expires_at : ℕ

abbrev pub Records : Type 0
Records = List (String × Record)

abbrev pub is_expired : ℕ → Record → Bool
is_expired now r = leb r.expires_at now

pub data ReserveResult : Type 0 where
  won : ReserveResult
  lost : Option Record → ReserveResult

abbrev pub pending : (request_hash : String) → (now ttl : ℕ) → Record
pending request_hash now ttl = record {
  request_hash = request_hash;
  response_status = none;
  response_body = none;
  bus_state = "pending";
  created_at = now;
  expires_at = now + ttl;
}

-- the attempts that are left of `reserve_idempotency_record`
unfoldable pub reserve_attempts :
    ℕ → (key request_hash : String) → (now ttl : ℕ) → Records → ReserveResult × Records
reserve_attempts zero key request_hash now ttl t = (lost none, t)
reserve_attempts (suc n) key request_hash now ttl t =
    let again = reserve_attempts n key request_hash now ttl (drop_key key t) in
    elim (find_key key t) [
      | none ↦ (won, put_key key (pending request_hash now ttl) t)
      | some r ↦ if is_expired now r then again else (lost (some r), t)
    ]

unfoldable pub reserve_idempotency_record :
    (key request_hash : String) → (now ttl : ℕ) → Records → ReserveResult × Records
unfolding reserve_attempts
reserve_idempotency_record key request_hash now ttl t =
    reserve_attempts 2 key request_hash now ttl t

unfoldable pub finalize_idempotency_record :
    (key : String) → (status : ℕ) → (body bus_state : String) → Records → Records
finalize_idempotency_record key status body bus_state t = elim (find_key key t) [
  | none ↦ t
  | some r ↦
      put_key key
        (record r {
          response_status = some status;
          response_body = some body;
          bus_state = bus_state;
        })
        t
]

-- a key that is not there stays so
abbrev pub delete_idempotency_record : String → Records → Records
delete_idempotency_record key t = drop_key key t

pub record Request : Type 0 where
  pub kind : String
  pub method : String
  pub path : String
  pub idempotency_key : Option String
  pub body : String

-- what the guarded application does
pub data Handled : Type 0 where
  responded : (status : ℕ) (body : String) → Handled
  raised : Handled

pub data Conflict : Type 0 where
  contended reused in_progress : Conflict

-- what the client sees
pub data Sent : Type 0 where
  passed : Handled → Sent
  conflict : Conflict → Sent
  replayed : (status : ℕ) (body : String) → Sent

-- the key of a request that the middleware guards
abbrev pub guarded_key : Request → Option String
guarded_key req =
    if str_eq req.kind "http"
      && str_eq req.method "POST"
      && str_eq (of_chars (take 4 (chars req.path))) "/v1/"
      && not (str_eq (or_else req.idempotency_key "") "")
    then req.idempotency_key
    else none

-- `_decode_json`
abbrev pub decode_json : (loads : String → Option String) → String → String
decode_json loads body = if str_eq body "" then "{}" else or_else (loads body) "{}"

-- `_handle_contended`
abbrev pub contended_reply : Option Record → String → Sent
contended_reply none request_hash = conflict contended
contended_reply (some r) request_hash =
    if not (str_eq r.request_hash request_hash)
    then conflict reused
    else if not (is_some r.response_status)
    then conflict in_progress
    else replayed (or_else r.response_status 202) (or_else r.response_body "{}")

-- the record after the application has run
abbrev pub settle : (loads : String → Option String) → String → Handled → Records → Records
settle loads key raised t = delete_idempotency_record key t
settle loads key (responded status body) t =
    if leb 200 status && ltb status 300
    then finalize_idempotency_record key status (decode_json loads body) "delivered" t
    else delete_idempotency_record key t

module _ {S : Type 0} (digest : String → String → String → String) (loads : String → Option String)
    (app : Request → S → Handled × S) (ttl : ℕ) where
  -- the request after its reservation
  abbrev pub serve :
      ReserveResult → (key request_hash : String) → Request → Records × S → Sent × (Records × S)
  serve (lost existing) key request_hash req state = (contended_reply existing request_hash, state)
  serve won key request_hash req state =
      let (handled, s') = app req state.1 in
      (passed handled, (settle loads key handled state.0, s'))

  abbrev pub route : Option String → ℕ → Request → Records × S → Sent × (Records × S)
  route none now req state = let (handled, s') = app req state.1 in (passed handled, (state.0, s'))
  route (some key) now req state =
      let request_hash = digest req.method req.path req.body in
      let (reserve, reserved) = reserve_idempotency_record key request_hash now ttl state.0 in
      serve reserve key request_hash req (reserved, state.1)

  -- `IdempotencyMiddleware.__call__`
  unfoldable pub handle : ℕ → Request → Records × S → Sent × (Records × S)
  handle now req state = route (guarded_key req) now req state
