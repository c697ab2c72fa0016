-- ===== src/Api/Idempotency/Entries.antt =====
-- The record under a key through reservations and settlements
-- (eyenet/storage/sqlmodel_repo/idempotency.py, eyenet/api/middleware/idempotency.py).
use eyenet.Common.{
  ℕ, zero, suc, ◌≡◌, refl, ◌∙◌, String, false, Option, some, arith, leb, ltb, ◌&&◌, str_eq, eq_iff,
  inl, inr, Bool-cases, Option-cases,
}
use eyenet.Common.Dict.{find_key, drop_key, find_key-put_key, find_key-drop_key}
use eyenet.Api.Idempotency.{
  Record, Records, won, lost, pending, is_expired, reserve_attempts, reserve_idempotency_record,
  finalize_idempotency_record, Handled, responded, raised, decode_json, settle,
}

-- A reservation that wins leaves its pending record under the key.
pub reserve_won :
    (n : ℕ) (key hash : String) (now ttl : ℕ) (t : Records)
    → (reserve_attempts n key hash now ttl t).0 ≡ won
    → find_key key (reserve_attempts n key hash now ttl t).1 ≡ some (pending hash now ttl)
unfolding reserve_attempts
reserve_won zero key hash now ttl t h = absurd (ground (arith, h))
reserve_won (suc n) key hash now ttl t h = elim (Option-cases (find_key key t)) [
  | inl e ↦ ground (arith, e, find_key-put_key key key (pending hash now ttl) t, eq_iff key key)
  | inr (r, e) ↦ elim (Bool-cases (is_expired now r)) [
    | inl old ↦ ground (arith, e, old, h, reserve_won n key hash now ttl (drop_key key t))
    | inr live ↦ absurd (ground (arith, e, live, h))
  ]
]

-- A live record is found and kept.
pub reserve_live :
    (key hash : String) (now ttl : ℕ) (t : Records) (r : Record)
    → find_key key t ≡ some r
    → is_expired now r ≡ false
    → reserve_idempotency_record key hash now ttl t ≡ (lost (some r), t)
unfolding reserve_idempotency_record reserve_attempts
reserve_live key hash now ttl t r e live = ground (arith, e, live)

-- A reservation of another key leaves the record.
pub reserve_apart :
    (n : ℕ) (other key hash : String) (now ttl : ℕ) (t : Records)
    → str_eq other key ≡ false
    → find_key key (reserve_attempts n other hash now ttl t).1 ≡ find_key key t
unfolding reserve_attempts
reserve_apart zero other key hash now ttl t apart = refl
reserve_apart (suc n) other key hash now ttl t apart = elim (Option-cases (find_key other t)) [
  | inl e ↦ ground (arith, e, apart, find_key-put_key other key (pending hash now ttl) t)
  | inr (r, e) ↦ elim (Bool-cases (is_expired now r)) [
    | inl old ↦ ground (
      arith,
      e,
      old,
      apart,
      reserve_apart n other key hash now ttl (drop_key other t) apart,
      find_key-drop_key other key t,
    )
    | inr live ↦ ground (arith, e, live)
  ]
]

finalize_apart :
    (other key : String) (status : ℕ) (body bus_state : String) (t : Records)
    → str_eq other key ≡ false
    → find_key key (finalize_idempotency_record other status body bus_state t) ≡ find_key key t
unfolding finalize_idempotency_record
finalize_apart other key status body bus_state t apart = elim (Option-cases (find_key other t)) [
  | inl e ↦ rw (finalize_idempotency_record, e) refl
  | inr (r, e) ↦
      rw (finalize_idempotency_record, e) (find_key-put_key other key _ t ∙ rw apart refl)
]

pub settle_apart :
    (loads : String → Option String) (other key : String) (h : Handled) (t : Records)
    → str_eq other key ≡ false
    → find_key key (settle loads other h t) ≡ find_key key t
settle_apart loads other key raised t apart = find_key-drop_key other key t ∙ rw apart refl
settle_apart loads other key (responded status body) t apart =
    elim (Bool-cases (leb 200 status && ltb status 300)) [
      | inl y ↦ rw y (finalize_apart other key status (decode_json loads body) "delivered" t apart)
      | inr n ↦ rw n (find_key-drop_key other key t ∙ rw apart refl)
    ]
