-- ===== src/Fleet/Supervisor.antt =====
-- One round of the supervisor over its collectors (`reconcile_collectors`, `_set_observed` and
-- `_heartbeat` of eyenet/services/collector_supervisor.py, `record_collector_observed_state` of
-- eyenet/storage/sqlmodel_repo/collectors.py). Times are whole seconds. Whether a child that is to be
-- spawned comes up is an argument.
pub mod Outcomes
pub mod Rounds
use eyenet.Common.{
  ℕ, suc, ◌+◌, ◌^◌, min, Bool, true, false, not, ◌&&◌, ◌||◌, Option, none, some, List, [], ◌∷◌, map,
  ◌++◌, leb, ltb, ◌==◌, if◌then◌else◌,
}

pub data DesiredState : Type 0 where
  running stopped disabled : DesiredState

pub data ObservedState : Type 0 where
  is_stopped is_starting is_running is_cooling is_crashed : ObservedState

-- the pairs of error type and message that the supervisor writes
pub data CrashCause : Type 0 where
  process_exit : (code : ℕ) → CrashCause
  spawn_failed : CrashCause

-- the columns of a collector that the supervisor reads or writes
pub record CollectorRow : Type 0 where
  pub desired_state : DesiredState
  pub observed_state : ObservedState
  pub restart_count : ℕ
  pub last_heartbeat_at : Option ℕ
  pub last_error : Option CrashCause

-- The child is alive, or has exited with a code.
pub data Child : Type 0 where
  alive : Child
  exited : (code : ℕ) → Child

-- the collector's row, its entries in `_procs` and `_cooling_until`, and the audited transitions
pub record Watched : Type 0 where
  pub row : CollectorRow
  pub proc : Option Child
  pub cooling_until : Option ℕ
  pub reconciled : List (ObservedState × ObservedState)

-- `a is b`, on observed states
abbrev pub same_observed : ObservedState → ObservedState → Bool
same_observed is_stopped is_stopped = true
same_observed is_starting is_starting = true
same_observed is_running is_running = true
same_observed is_cooling is_cooling = true
same_observed is_crashed is_crashed = true
same_observed _ _ = false

abbrev pub max_cooling : ℕ
max_cooling = 600

-- `record_collector_observed_state`: what is not given stays, but an error, which is cleared
abbrev pub recorded :
    ObservedState
    → (restart_count : Option ℕ) → Option CrashCause
    → (heartbeat : Option ℕ) → CollectorRow
    → CollectorRow
recorded new count cause heartbeat r = record r {
  observed_state = new;
  restart_count = elim count [ none ↦ r.restart_count | some n ↦ n ];
  last_heartbeat_at = elim heartbeat [ none ↦ r.last_heartbeat_at | some t ↦ some t ];
  last_error = cause;
}

abbrev pub unchanged_count : Option ℕ → ℕ → Bool
unchanged_count none old = true
unchanged_count (some n) old = n == old

unfoldable pub set_observed :
    ObservedState
    → (restart_count : Option ℕ) → Option CrashCause
    → (heartbeat : Option ℕ) → Watched
    → Watched
set_observed new count cause heartbeat w =
    if same_observed w.row.observed_state new && unchanged_count count w.row.restart_count
    then w
    else record w {
      row = recorded new count cause heartbeat w.row;
      reconciled = w.reconciled ++ (w.row.observed_state, new) ∷ [];
    }

-- An audited transition, or the stamp alone.
unfoldable pub heartbeat : (wall : ℕ) → Watched → Watched
heartbeat wall w =
    if same_observed w.row.observed_state is_running
    then record w { row = recorded is_running none none (some wall) w.row }
    else set_observed is_running none none (some wall) w

-- The round ends for the collector, or `2.0**rc` raises an OverflowError, which nothing catches.
pub data Round : Type 0 where
  completed : Watched → Round
  overflowed : Watched → Round

-- the first power of two that is no float
abbrev pub overflow_at : ℕ
overflow_at = 1024

-- a crash, after which the collector cools down
abbrev pub crash : (now : ℕ) → CrashCause → Watched → Round
crash now cause w =
    let rc = suc w.row.restart_count in
    if leb overflow_at rc
    then overflowed w
    else completed (
        set_observed is_crashed (some rc) (some cause) none
          (record w { cooling_until = some (now + min (2 ^ rc) max_cooling) }))

abbrev pub settle_stopped : Watched → Watched
settle_stopped w =
    set_observed is_stopped none none none (record w { proc = none; cooling_until = none })

abbrev pub is_cooling_at : (now : ℕ) → Option ℕ → Bool
is_cooling_at now none = false
is_cooling_at now (some until) = ltb now until

-- no child, and one is wanted
unfoldable pub start_child : (now wall : ℕ) (comes_up : Bool) → Watched → Round
start_child now wall comes_up w =
    if is_cooling_at now w.cooling_until
    then completed (set_observed is_cooling none none none w)
    else if comes_up
    then completed (
        set_observed is_running none none (some wall)
          (record w { proc = some alive; cooling_until = none }))
    else crash now spawn_failed (record w { cooling_until = none })

unfoldable pub keep_running : (now wall : ℕ) (comes_up : Bool) → Option Child → Watched → Round
keep_running now wall comes_up (some (exited code)) w =
    crash now (process_exit code) (record w { proc = none })
keep_running now wall comes_up (some alive) w = completed (heartbeat wall w)
keep_running now wall comes_up none w = start_child now wall comes_up w

unfoldable pub reconcile : (now wall : ℕ) (comes_up : Bool) → Watched → Round
reconcile now wall comes_up w = elim w.row.desired_state [
  | running ↦ keep_running now wall comes_up w.proc w
  | stopped ↦ completed (settle_stopped w)
  | disabled ↦ completed (settle_stopped w)
]

-- The loop over the collectors, each with whether its child comes up. An error ends it, and leaves the
-- collectors behind as they were.
unfoldable pub reconcile_collectors : (now wall : ℕ) → List (Bool × Watched) → List Watched × Bool
reconcile_collectors now wall [] = ([], false)
reconcile_collectors now wall ((comes_up, w) ∷ rows) =
    let (rest, failed) = reconcile_collectors now wall rows in
    elim (reconcile now wall comes_up w) [
      | completed w' ↦ (w' ∷ rest, failed)
      | overflowed w' ↦ (w' ∷ map (λ row. row.1) rows, true)
    ]
