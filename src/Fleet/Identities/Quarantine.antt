-- ===== src/Fleet/Identities/Quarantine.antt =====
-- Identities in quarantine under the steps of the fleet
-- (eyenet/storage/sqlmodel_repo/identities.py, eyenet/services/discovery/scout_graduation.py).
use eyenet.Common.{
  ℕ, String, str_eq, ◌≡◌, refl, ◌≢◌, Bool, Option, none, some, List, [], ◌∷◌, arith, All,
  All-append, map-All, keep_if, any, length, is_empty, not, ltb, ◌==◌, inl, inr, Bool-cases,
  Option-cases,
}
use eyenet.Storage.Table.{get, get-All, update-All, update-only, HasDistinctIds}
use eyenet.Discovery.Candidates.{Store}
use eyenet.Fleet.Identities.{
  Identity, monitor, quarantine, Identities, Bindings, Membership, is_freezable, write_found,
  burned, freeze_rows, is_graduating, set_identity_state, burn_identity, freeze_all_identities,
  lease_scout, find_available_scout, list_graduating_scouts, create_identity, delete_identity,
  delete_found, set_identity_role, graduate_identity,
}
use eyenet.Fleet.Identities.Graduation.{graduate_due, graduate_next, next_due, quarantine_scout}
use eyenet.Fleet.Identities.Leases.{found-All}
use eyenet.Fleet.Identities.Steps.{
  Roster, Step, create, delete, set_state, set_role, burn, freeze, lease, retire, list_due,
  graduate, perform, run,
}

-- Every row under `k` has the role `quarantine`.
abbrev pub IsQuarantined : ℕ → Identities → Type 0
IsQuarantined k t = All (λ row. row.0 ≡ k → row.1.role ≡ quarantine) t

module _ (k : ℕ) where
  abbrev Quarantined : ℕ × Identity → Type 0
  Quarantined row = row.0 ≡ k → row.1.role ≡ quarantine

  -- A write that keeps the role, or that is to another row.
  write-IsQuarantined :
      (id : ℕ) (f : Identity → Identity) (t : Identities)
      → ((r : Identity)
          → get id t ≡ some r
          → id ≡ k
          → r.role ≡ quarantine
          → (f r).role ≡ quarantine)
      → IsQuarantined k t
      → IsQuarantined k (write_found id f (get id t) t).1
  write-IsQuarantined id f t keeps h = elim (Option-cases (get id t)) [
    | inl e ↦ rw e h
    | inr (r, e) ↦ rw e (
        update-All Quarantined id (f r) t h
          (λ same. keeps r e same (get-All Quarantined id t r h e same)))
  ]

  freeze-IsQuarantined :
      (source_id : Option ℕ) (t : Identities)
      → IsQuarantined k t
      → IsQuarantined k (freeze_rows source_id t)
  unfolding freeze_rows
  freeze-IsQuarantined source_id [] h = tt
  freeze-IsQuarantined source_id ((j, r) ∷ t) h = (
    (λ e. elim (Bool-cases (is_freezable source_id r)) [
      | inl y ↦ rw y (h.0 e)
      | inr n ↦ rw n (h.0 e)
    ]),
    freeze-IsQuarantined source_id t h.1,
  )

  listed-apart :
      (collectors : Bindings) (memberships : List Membership) (before : ℕ) (t : Identities)
      → IsQuarantined k t
      → All (λ id. id ≢ k) (list_graduating_scouts collectors memberships before t)
  unfolding list_graduating_scouts
  listed-apart collectors memberships before t h =
      let test = is_graduating collectors memberships before in
      map-All (λ id. id ≢ k) (λ row. row.0) (keep_if test t) (both t h)
    where
      both :
          (t : Identities)
          → IsQuarantined k t
          → All (λ row. row.0 ≢ k) (keep_if (is_graduating collectors memberships before) t)
      both [] h = tt
      both (row ∷ t) h = elim (Bool-cases (is_graduating collectors memberships before row)) [
        | inl y ↦ rw y ((λ e. absurd (ground (arith, y, h.0 e))), both t h.1)
        | inr n ↦ rw n (both t h.1)
      ]

  keep_if-IsQuarantined :
      (p : ℕ × Identity → Bool) (t : Identities) → IsQuarantined k t → IsQuarantined k (keep_if p t)
  keep_if-IsQuarantined p [] h = tt
  keep_if-IsQuarantined p (row ∷ t) h = elim (Bool-cases (p row)) [
    | inl y ↦ rw y (h.0, keep_if-IsQuarantined p t h.1)
    | inr n ↦ rw n (keep_if-IsQuarantined p t h.1)
  ]

  delete-IsQuarantined :
      (id : ℕ) (collectors : Bindings) (o : Option Identity) (t : Identities)
      → IsQuarantined k t
      → IsQuarantined k (delete_found id collectors o t).1
  delete-IsQuarantined id collectors none t h = h
  delete-IsQuarantined id collectors (some r) t h =
      elim (Bool-cases (ltb 0 (length (keep_if (λ (c : ℕ × ℕ). c.1 == id) collectors)))) [
        | inl y ↦ rw y h
        | inr n ↦ rw n (keep_if-IsQuarantined (λ row. not (row.0 == id)) t h)
      ]

  -- No creation and no change of role to another one than `quarantine` is of `k`.
  abbrev pub Spares : Step → Type 0
  Spares (create id name source_id role state) = id ≢ k
  Spares (set_role id role) = id ≡ k → role ≡ quarantine
  Spares _ = Unit

  -- `k` is in quarantine, and the run of `graduate_due` under way has not listed it.
  abbrev pub IsRetired : Roster → Type 0
  IsRetired s = IsQuarantined k s.identities × All (λ id. id ≢ k) s.graduation.due

  graduate-IsRetired :
      (ids : List ℕ) (now : ℕ) (t : Identities)
      → IsQuarantined k t
      → All (λ id. id ≢ k) ids
      → let (left, after) = next_due ids now t in
        IsQuarantined k after × All (λ id. id ≢ k) left.due
  unfolding graduate_identity
  graduate-IsRetired [] now t h apart = (h, tt)
  graduate-IsRetired (id ∷ ids) now t h apart = (
    write-IsQuarantined id (λ r. record r { role = monitor; graduated_at = some now }) t
        (λ r e same q. absurd (apart.0 same)) h,
    elim (Option-cases (get id t)) [
      | inl e ↦ rw (graduate_identity, e) tt
      | inr (r, e) ↦ rw (graduate_identity, e) apart.1
    ],
  )

  perform-IsRetired :
      (step : Step) (s : Roster) → Spares step → IsRetired s → IsRetired (perform step s)
  unfolding perform create_identity delete_identity set_identity_state set_identity_role
      burn_identity freeze_all_identities lease_scout quarantine_scout graduate_due graduate_next
  perform-IsRetired (create id name source_id role state) s spare h =
      elim (Bool-cases (any (λ (other : ℕ × Identity). str_eq other.1.name name) s.identities)) [
        | inl y ↦ rw (perform, create_identity, y) h
        | inr n ↦
            rw (perform, create_identity, n)
              (All-append Quarantined s.identities _ h.0 ((λ e. absurd (spare e)), tt), h.1)
      ]
  perform-IsRetired (delete id collectors) s spare h =
      (delete-IsQuarantined id collectors (get id s.identities) s.identities h.0, h.1)
  perform-IsRetired (set_state id state used) s spare h =
      (write-IsQuarantined id _ s.identities (λ r e same q. q) h.0, h.1)
  perform-IsRetired (set_role id role) s spare h =
      (write-IsQuarantined id _ s.identities (λ r e same q. spare same) h.0, h.1)
  perform-IsRetired (burn id) s spare h =
      (write-IsQuarantined id _ s.identities (λ r e same q. refl) h.0, h.1)
  perform-IsRetired (freeze source_id) s spare h =
      (freeze-IsQuarantined source_id s.identities h.0, h.1)
  perform-IsRetired (lease source_id) s spare h =
      elim (Option-cases (find_available_scout source_id s.identities)) [
        | inl e ↦ rw (perform, lease_scout, e) h
        | inr ((id, x), e) ↦
            rw (perform, lease_scout, e)
              (
                update-All Quarantined id _ s.identities h.0
                    (found-All Quarantined source_id s.identities (id, x) e h.0).0,
                h.1,
              )
      ]
  perform-IsRetired (retire id reason candidate store) s spare h =
      let kept =
        write-IsQuarantined id (λ r. record r { role = quarantine; state = burned }) s.identities
          (λ r e same q. refl) h.0 in
      elim (Option-cases (get id s.identities)) [
        | inl e ↦ rw (perform, quarantine_scout, burn_identity, e) (kept, h.1)
        | inr (r, e) ↦ rw (perform, quarantine_scout, burn_identity, e) (kept, h.1)
      ]
  perform-IsRetired (list_due window now collectors memberships) s spare h =
      elim (Bool-cases (is_empty s.graduation.due)) [
        | inl y ↦ rw (perform, y) (h.0, listed-apart collectors memberships _ s.identities h.0)
        | inr n ↦ rw (perform, n) h
      ]
  perform-IsRetired graduate s spare h =
      graduate-IsRetired s.graduation.due s.graduation.now s.identities h.0 h.1

-- What is retired stays so over steps that spare it, and no lease hands it out.
quarantine_is_final :
    (k : ℕ) (steps : List Step) (s : Roster)
    → IsRetired k s
    → All (Spares k) steps
    → IsQuarantined k (run steps s).identities
      × ((source_id : ℕ) (r : Identity)
          → (lease_scout source_id (run steps s).identities).0 ≢ some (k, r))
unfolding run lease_scout
quarantine_is_final k [] s h spare = (
  h.0,
  λ source_id r e. elim (Option-cases (find_available_scout source_id s.identities)) [
    | inl n ↦ absurd (ground (arith, e, n))
    | inr ((id, x), f) ↦
        let both = found-All (Quarantined k) source_id s.identities (id, x) f h.0 in
        let same : id ≡ k = ground (arith, e, f) in absurd (ground (arith, both.1, both.0 same))
  ],
)
quarantine_is_final k (step ∷ steps) s h spare =
    quarantine_is_final k steps (perform step s) (perform-IsRetired k step s spare.0 h) spare.1

burn-IsQuarantined :
    (k : ℕ) (t : Identities) (r : Identity)
    → HasDistinctIds t
    → get k t ≡ some r
    → IsQuarantined k (burn_identity k t).1
unfolding burn_identity
burn-IsQuarantined k t r distinct e =
    rw (burn_identity, e)
      (update-only (λ x. x.role ≡ quarantine) k (record r { role = quarantine; state = burned }) t
        distinct refl)

-- Once `quarantine_scout` has been called for an identity that is there, and that the run of
-- `graduate_due` under way, if there is one, has not listed, the identity's row has the role
-- `quarantine`, as long as it is not deleted, over any sequence of creations, deletions, changes of
-- state and of role, burns, freezes, leases, quarantines, listings and writes of `graduate_due`, if no
-- creation is of it and no change of role gives it another one; and no later lease hands it out.
pub quarantine_scout_final :
    (k : ℕ) (reason : String) (candidate_id : Option ℕ) (store : Store) (steps : List Step)
    (s : Roster) (r : Identity)
    → HasDistinctIds s.identities
    → get k s.identities ≡ some r
    → All (λ id. id ≢ k) s.graduation.due
    → All (Spares k) steps
    → let s' = run steps (perform (retire k reason candidate_id store) s) in
      IsQuarantined k s'.identities
      × ((source_id : ℕ) (x : Identity) → (lease_scout source_id s'.identities).0 ≢ some (k, x))
unfolding perform burn_identity quarantine_scout
quarantine_scout_final k reason candidate_id store steps s r distinct e apart spare =
    quarantine_is_final k steps (perform (retire k reason candidate_id store) s)
      (
        rw (perform, quarantine_scout, burn_identity, e)
            (burn-IsQuarantined k s.identities r distinct e),
        apart,
      )
      spare
