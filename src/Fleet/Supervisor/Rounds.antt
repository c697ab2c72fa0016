-- ===== src/Fleet/Supervisor/Rounds.antt =====
-- What a round leaves of the collectors (`reconcile_collectors` of
-- eyenet/services/collector_supervisor.py).
use eyenet.Common.{ℕ, ◌≡◌, refl, ◌⊎◌, Bool, true, false, List, [], ◌∷◌, map, inl, inr}
use eyenet.Fleet.Supervisor.{Watched, reconcile, Round, completed, overflowed, reconcile_collectors}
use eyenet.Fleet.Supervisor.Outcomes.{Settled, reconcile-Settled}

-- The collectors settle one after the other, up to one whose crash is lost, where there is one.
abbrev pub Settles : ℕ → List (Bool × Watched) → List Watched → Bool → Type 0
Settles now [] [] failed = failed ≡ false
Settles now [] (w' ∷ rest) failed = ⊥
Settles now (row ∷ rows) [] failed = ⊥
Settles now ((comes_up, w) ∷ rows) (w' ∷ rest) failed =
    (Settled now comes_up w (completed w') w.row.desired_state × Settles now rows rest failed)
    ⊎ (Settled now comes_up w (overflowed w') w.row.desired_state
        × (rest ≡ map (λ row. row.1) rows)
        × (failed ≡ true))

round_cases :
    (r : Round) → ((w : Watched) × (r ≡ completed w)) ⊎ ((w : Watched) × (r ≡ overflowed w))
round_cases (completed w) = inl (w, refl)
round_cases (overflowed w) = inr (w, refl)

-- A round leaves each collector that is wanted stopped or disabled without a child and without a time
-- to wait. One that is wanted running has a live child, kept or spawned, or still waits without one;
-- or its child has exited or did not come up: then it has crashed once more and waits min(2^n, 600)
-- seconds for its n-th restart. The crash number 1024, or a later one, is written nowhere: the round
-- ends there with an error and leaves all collectors behind as they were.
pub reconcile_collectors-Settles :
    (now wall : ℕ) (rows : List (Bool × Watched))
    → let (after, failed) = reconcile_collectors now wall rows in Settles now rows after failed
unfolding reconcile_collectors
reconcile_collectors-Settles now wall [] = refl
reconcile_collectors-Settles now wall ((comes_up, w) ∷ rows) =
    let it = reconcile-Settled now wall comes_up w in
    elim (round_cases (reconcile now wall comes_up w)) [
      | inl (w', e) ↦
          rw (reconcile_collectors, e)
            (inl (rw e at it, reconcile_collectors-Settles now wall rows))
      | inr (w', e) ↦ rw (reconcile_collectors, e) (inr (rw e at it, refl, refl))
    ]
