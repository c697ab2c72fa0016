-- ===== src/Tests/Clusters.antt =====
-- The clustering of actors, first sightings and the supervisor at concrete inputs.
use eyenet.Common.{none, refl, true, false, if◌then◌else◌, ℕ, ◌≡◌, ◌↔◌, some, List, [], ◌∷◌, arith}
use eyenet.Storage.Table.{Table}
use eyenet.Linker.Crews.{find_root, union_all}
use eyenet.Linker.Crews.Union.{Linked, deepest}
use eyenet.Linker.Crews.Classes.{crews_connected}
use eyenet.Fleet.Sightings.{observation, insert_observation, record_observation}
use eyenet.Fleet.Sightings.Claims.{
  Calls, claimed, none_yet, next, firsts, is_observed, first_sighting_once,
}
use eyenet.Fleet.Supervisor.{
  Watched, running, is_running, exited, keep_running, reconcile, reconcile_collectors,
}
use eyenet.Fleet.Supervisor.Rounds.{Settles, reconcile_collectors-Settles}

abbrev edges : List (ℕ × ℕ)
edges = (1, 2) ∷ (3, 2) ∷ (4, 5) ∷ []

crews_connected_example :
    (after : Table ℕ) × (root : ℕ → ℕ) × (union_all 8 edges [] ≡ some after)
    × ((x : ℕ) → (later : Table ℕ) × (find_root 8 x after ≡ some (root x, later)))
    × ((x y : ℕ) → (root x ≡ root y) ↔ Linked edges x y)
unfolding deepest
crews_connected_example = crews_connected edges 8 (ground arith)

-- two collectors see one message: the second one's claim is refused
abbrev one_seen : Calls
one_seen = record { rows = observation 7 1 50 true ∷ []; refused = [] }

first_sighting_once_example :
    let after = (record_observation 7 2 60 one_seen.rows).1 in
    (firsts 7 one_seen.rows ≡ (if is_observed 7 one_seen.rows then 1 else 0))
    × (firsts 7 after ≡ (if is_observed 7 after then 1 else 0))
unfolding insert_observation
first_sighting_once_example = first_sighting_once one_seen 7 7 2 60 (
    next none_yet
      (claimed 7 1 50 (record { rows = []; refused = [] }) (observation 7 1 50 true ∷ []) refl))

-- a child that has exited although it is wanted
abbrev fallen : Watched
fallen = record {
  row = record {
    desired_state = running;
    observed_state = is_running;
    restart_count = 3;
    last_heartbeat_at = some 90;
    last_error = none;
  };
  proc = some (exited 1);
  cooling_until = none;
  reconciled = [];
}

-- one that has crashed too often for its next crash to be counted
abbrev worn : Watched
worn = record fallen { row = record fallen.row { restart_count = 1023 } }

lost_crash :
    reconcile_collectors 100 95 ((true, worn) ∷ (true, fallen) ∷ [])
    ≡ (record worn { proc = none } ∷ fallen ∷ [], true)
unfolding reconcile_collectors reconcile keep_running
lost_crash = refl

reconcile_collectors-Settles_example :
    let (after, failed) =
      reconcile_collectors 100 95 ((true, fallen) ∷ (true, worn) ∷ (false, fallen) ∷ []) in
    Settles 100 ((true, fallen) ∷ (true, worn) ∷ (false, fallen) ∷ []) after failed
reconcile_collectors-Settles_example =
    reconcile_collectors-Settles 100 95 ((true, fallen) ∷ (true, worn) ∷ (false, fallen) ∷ [])
