-- ===== src/Fleet/Sightings.antt =====
-- Which collector saw a message first (`record_observation` of
-- eyenet/storage/sqlmodel_repo/memberships.py and the constraints of eyenet/models/membership.py). A
-- call is its lookup, an insert that claims the first sighting, and, where that is refused, an insert
-- that does not; calls interleave between these transactions.
pub mod Claims
use eyenet.Common.{
  ℕ, Bool, true, false, not, ◌&&◌, ◌||◌, Option, none, some, List, [], ◌∷◌, ◌++◌, ◌==◌, any, find,
  if◌then◌else◌,
}

pub record MessageObservation : Type 0 where
  pub message_id : ℕ
  pub collector_id : ℕ
  pub observed_at_ingest : ℕ
  pub was_first_sighting : Bool

abbrev pub is_pair : (message collector : ℕ) → MessageObservation → Bool
is_pair message collector o = o.message_id == message && o.collector_id == collector

-- `first_sighting_claim` of a row is this message
abbrev pub claims_first : ℕ → MessageObservation → Bool
claims_first message o = o.message_id == message && o.was_first_sighting

-- The insert, where it breaks neither the primary key nor the uniqueness of the claim.
unfoldable pub insert_observation :
    MessageObservation → List MessageObservation → Option (List MessageObservation)
insert_observation o t =
    if any (is_pair o.message_id o.collector_id) t
    then none
    else if o.was_first_sighting && any (claims_first o.message_id) t
    then none
    else some (t ++ o ∷ [])

abbrev pub observation : (message collector at : ℕ) (first : Bool) → MessageObservation
observation message collector at first = record {
  message_id = message;
  collector_id = collector;
  observed_at_ingest = at;
  was_first_sighting = first;
}

-- `record_observation` when no other call comes between; no row is an IntegrityError
unfoldable pub record_observation :
    (message collector at : ℕ)
    → List MessageObservation
    → Option MessageObservation × List MessageObservation
record_observation message collector at t =
    let first = observation message collector at true in
    let later = observation message collector at false in
    elim (find (is_pair message collector) t) [
      | some extant ↦ (some extant, t)
      | none ↦ elim (insert_observation first t) [
        | some t' ↦ (some first, t')
        | none ↦ elim (insert_observation later t) [ some t' ↦ (some later, t') | none ↦ (none, t) ]
      ]
    ]
