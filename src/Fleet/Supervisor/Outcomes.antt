-- ===== src/Fleet/Supervisor/Outcomes.antt =====
-- How a round may end for one collector (eyenet/services/collector_supervisor.py).
use eyenet.Common.{
  ℕ, suc, ◌+◌, ◌^◌, min, ◌≤◌, ◌<◌, ◌≡◌, refl, sym, ap, ◌∙◌, ◌⊎◌, Bool, true, false, leb, ◌&&◌,
  Option, none, some, arith, Bool-cases, inl, inr,
}
use mathlib.Core.Path.{subst}
use eyenet.Fleet.Supervisor.{
  DesiredState, running, stopped, disabled, ObservedState, is_stopped, is_running, is_cooling,
  is_crashed, CrashCause, process_exit, spawn_failed, Child, alive, exited, Watched, same_observed,
  max_cooling, set_observed, unchanged_count, heartbeat, crash, settle_stopped, is_cooling_at,
  start_child, keep_running, reconcile, Round, completed, overflowed, overflow_at,
}

-- no child, no cooling, and seen as stopped
abbrev pub IsOff : Watched → Type 0
IsOff w = (w.proc ≡ none) × (w.cooling_until ≡ none) × (w.row.observed_state ≡ is_stopped)

-- no child lives, and the one that is wanted does not come up
abbrev pub Fails : Bool → Watched → Type 0
Fails comes_up w =
    ((code : ℕ) × (w.proc ≡ some (exited code))) ⊎ ((w.proc ≡ none) × (comes_up ≡ false))

-- a child that lives or was spawned, seen as running, no crash counted
abbrev pub IsUp : Bool → Watched → Watched → Type 0
IsUp comes_up w w' =
    ((w.proc ≡ some alive) ⊎ ((w.proc ≡ none) × (comes_up ≡ true)))
    × (w'.proc ≡ some alive)
    × (w'.row.observed_state ≡ is_running)
    × (w'.row.restart_count ≡ w.row.restart_count)

-- one more crash, fewer than 1024 so far, and a time to wait of at most ten minutes
abbrev pub IsDown : ℕ → Bool → Watched → Watched → Type 0
IsDown now comes_up w w' =
    Fails comes_up w
    × (suc w.row.restart_count < 1024)
    × (w'.proc ≡ none)
    × (w'.row.observed_state ≡ is_crashed)
    × (w'.row.restart_count ≡ suc w.row.restart_count)
    × (until : ℕ) × (w'.cooling_until ≡ some until)
    × (until ≡ now + min (2 ^ suc w.row.restart_count) 600)
    × (until ≤ now + 600)

-- still waiting
abbrev pub IsWaiting : ℕ → Watched → Watched → Type 0
IsWaiting now w w' =
    (w.proc ≡ none)
    × (w'.proc ≡ none)
    × (w'.row.observed_state ≡ is_cooling)
    × (until : ℕ) × (w'.cooling_until ≡ some until)
    × (now < until)

-- the 1024th crash, or a later one: it is written nowhere
abbrev pub IsLost : Bool → Watched → Watched → Type 0
IsLost comes_up w w' =
    Fails comes_up w
    × (1024 ≤ suc w.row.restart_count)
    × (w'.proc ≡ none)
    × (w'.row ≡ w.row)
    × (w'.reconciled ≡ w.reconciled)

-- how a round may end for a collector that is wanted in a state
abbrev pub Settled : ℕ → Bool → Watched → Round → DesiredState → Type 0
Settled now comes_up w (completed w') running =
    IsUp comes_up w w' ⊎ IsDown now comes_up w w' ⊎ IsWaiting now w w'
Settled now comes_up w (completed w') stopped = IsOff w'
Settled now comes_up w (completed w') disabled = IsOff w'
Settled now comes_up w (overflowed w') running = IsLost comes_up w w'
Settled now comes_up w (overflowed w') stopped = ⊥
Settled now comes_up w (overflowed w') disabled = ⊥

same_observed_only : (a b : ObservedState) → same_observed a b ≡ true → a ≡ b
same_observed_only a b e = ground (arith, e)

count_kept :
    (count : Option ℕ) (old : ℕ)
    → unchanged_count count old ≡ true
    → elim count as (λ _. ℕ) [ none ↦ old | some n ↦ n ] ≡ old
count_kept none old e = refl
count_kept (some n) old e = ground (arith, e)

-- what a write of the observed state keeps and sets
set_observed_state :
    (new : ObservedState) (count : Option ℕ) (cause : Option CrashCause) (beat : Option ℕ)
    (w : Watched)
    → ((set_observed new count cause beat w).row.observed_state ≡ new)
      × ((set_observed new count cause beat w).proc ≡ w.proc)
      × ((set_observed new count cause beat w).cooling_until ≡ w.cooling_until)
      × ((set_observed new count cause beat w).row.restart_count
          ≡ elim count [ none ↦ w.row.restart_count | some n ↦ n ])
unfolding set_observed
set_observed_state new count cause beat w =
    elim (Bool-cases
      (same_observed w.row.observed_state new && unchanged_count count w.row.restart_count)) [
        | inl y ↦
            let same : same_observed w.row.observed_state new ≡ true = ground (arith, y) in
            let kept : unchanged_count count w.row.restart_count ≡ true = ground (arith, y) in
            rw (set_observed, y)
              (
                same_observed_only w.row.observed_state new same,
                refl,
                refl,
                sym (count_kept count w.row.restart_count kept),
              )
        | inr n ↦ rw (set_observed, n) (refl, refl, refl, refl)
      ]

-- `v` is what the branch made of `w` before the crash.
crash-Settled :
    (now : ℕ) (comes_up : Bool) (cause : CrashCause) (w v : Watched)
    → Fails comes_up w
    → v.proc ≡ none
    → v.row ≡ w.row
    → v.reconciled ≡ w.reconciled
    → Settled now comes_up w (crash now cause v) running
crash-Settled now comes_up cause w v fails proc row kept =
    let rc = suc v.row.restart_count in
    elim (Bool-cases (leb overflow_at rc)) [
      | inl y ↦
          rw y (
            fails,
            subst (λ r. 1024 ≤ suc r.restart_count) row (ground (arith, y)),
            proc,
            row,
            kept,
          )
      | inr n ↦
          let until = now + min (2 ^ rc) max_cooling in
          let (state, same, cooling, count) =
            set_observed_state is_crashed (some rc) (some cause) none
              (record v { cooling_until = some until }) in
          rw n (
            inr (
              inl (
                fails,
                subst (λ r. suc r.restart_count < 1024) row (ground (arith, n)),
                same ∙ proc,
                state,
                count ∙ ap (λ r. suc r.restart_count) row,
                until,
                cooling,
                ap (λ r. now + min (2 ^ suc r.restart_count) 600) row,
                ground arith,
              )))
    ]

settle_stopped-IsOff : (w : Watched) → IsOff (settle_stopped w)
settle_stopped-IsOff w =
    let (state, proc, cooling, count) =
      set_observed_state is_stopped none none none
        (record w { proc = none; cooling_until = none }) in
    (proc, cooling, state)

heartbeat-IsUp :
    (wall : ℕ) (comes_up : Bool) (w : Watched)
    → w.proc ≡ some alive
    → IsUp comes_up w (heartbeat wall w)
unfolding heartbeat
heartbeat-IsUp wall comes_up w e =
    elim (Bool-cases (same_observed w.row.observed_state is_running)) [
      | inl y ↦ rw (heartbeat, y) (inl e, e, refl, refl)
      | inr n ↦
          let (state, proc, cooling, count) =
            set_observed_state is_running none none (some wall) w in
          rw (heartbeat, n) (inl e, proc ∙ e, state, count)
    ]

start_child-Settled :
    (now wall : ℕ) (comes_up : Bool) (w : Watched)
    → w.proc ≡ none
    → Settled now comes_up w (start_child now wall comes_up w) running
unfolding start_child
start_child-Settled now wall comes_up w e = elim (Bool-cases (is_cooling_at now w.cooling_until)) [
  | inl y ↦
      let (state, proc, cooling, count) = set_observed_state is_cooling none none none w in
      let (until, c, lt) = waiting w.cooling_until y in
      rw (start_child, y) (inr (inr (e, proc ∙ e, state, until, cooling ∙ c, lt)))
  | inr n ↦ elim (Bool-cases comes_up) [
    | inl y ↦
        let (state, proc, cooling, count) =
          set_observed_state is_running none none (some wall)
            (record w { proc = some alive; cooling_until = none }) in
        rw (start_child, n, y) (inl (inr (e, refl), proc, state, count))
    | inr m ↦
        rw (start_child, n, m)
          (crash-Settled now false spawn_failed w (record w { cooling_until = none })
            (inr (e, refl)) e refl refl)
  ]
]
  where
    waiting :
        (o : Option ℕ) → is_cooling_at now o ≡ true → (until : ℕ) × (o ≡ some until) × (now < until)
    waiting none y = absurd (ground (arith, y))
    waiting (some until) y = (until, refl, ground (arith, y))

pub reconcile-Settled :
    (now wall : ℕ) (comes_up : Bool) (w : Watched)
    → Settled now comes_up w (reconcile now wall comes_up w) w.row.desired_state
unfolding reconcile keep_running
reconcile-Settled now wall comes_up w =
    elim w.row.desired_state as (λ d. Settled now comes_up w (step d) d) [
      | running ↦ child w.proc refl
      | stopped ↦ settle_stopped-IsOff w
      | disabled ↦ settle_stopped-IsOff w
    ]
  where
    step : DesiredState → Round
    step running = keep_running now wall comes_up w.proc w
    step stopped = completed (settle_stopped w)
    step disabled = completed (settle_stopped w)

    child :
        (o : Option Child)
        → w.proc ≡ o
        → Settled now comes_up w (keep_running now wall comes_up o w) running
    child none e = start_child-Settled now wall comes_up w e
    child (some alive) e = inl (heartbeat-IsUp wall comes_up w e)
    child (some (exited code)) e =
        crash-Settled now comes_up (process_exit code) w (record w { proc = none }) (inl (code, e))
          refl refl refl
