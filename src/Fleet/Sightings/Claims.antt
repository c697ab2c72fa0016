-- ===== src/Fleet/Sightings/Claims.antt =====
-- Interleaved calls of `record_observation` (eyenet/storage/sqlmodel_repo/memberships.py).
use eyenet.Common.{
  ℕ, suc, ◌≡◌, refl, sym, ◌⊎◌, Bool, true, false, ◌&&◌, ◌||◌, none, some, find, List, [], ◌∷◌, ◌++◌,
  ◌==◌, any, All, All-map, Any-All, arith, if◌then◌else◌, Bool-cases, Option-cases, inl, inr, Any,
}
use mathlib.Core.Path.{subst}
use eyenet.Fleet.Sightings.{
  MessageObservation, is_pair, claims_first, insert_observation, observation, record_observation,
}

-- the rows, and the calls whose first insert was refused
pub record Calls : Type 0 where
  pub rows : List MessageObservation
  pub refused : List MessageObservation

abbrev insert_or_keep : MessageObservation → List MessageObservation → List MessageObservation
insert_or_keep o t = elim (insert_observation o t) [ none ↦ t | some t' ↦ t' ]

-- the transactions that write
pub data CallStep : Calls → Calls → Type 0 where
  claimed :
      (message collector at : ℕ) (s : Calls) (t : List MessageObservation)
      → insert_observation (observation message collector at true) s.rows ≡ some t
      → CallStep s (record s { rows = t })
  refuses :
      (message collector at : ℕ) (s : Calls)
      → insert_observation (observation message collector at true) s.rows ≡ none
      → CallStep s (record s { refused = observation message collector at false ∷ s.refused })
  seconds :
      (o : MessageObservation) (s : Calls) (t : List MessageObservation)
      → Any (λ x. x ≡ o) s.refused
      → insert_observation o s.rows ≡ some t
      → CallStep s (record s { rows = t })

pub data IsReached : Calls → Type 0 where
  none_yet : IsReached (record { rows = []; refused = [] })
  next : {s s' : Calls} → IsReached s → CallStep s s' → IsReached s'

-- how many rows of a message claim its first sighting
unfoldable pub firsts : ℕ → List MessageObservation → ℕ
firsts m [] = 0
firsts m (o ∷ t) = let rest = firsts m t in if claims_first m o then suc rest else rest

abbrev pub is_observed : ℕ → List MessageObservation → Bool
is_observed m t = any (λ o. o.message_id == m) t

firsts-append :
    (m : ℕ) (t : List MessageObservation) (o : MessageObservation)
    → firsts m (t ++ o ∷ []) ≡ (if claims_first m o then suc (firsts m t) else firsts m t)
unfolding firsts
firsts-append m [] o = refl
firsts-append m (x ∷ t) o = ground (arith, firsts-append m t o)

any-append :
    (p : MessageObservation → Bool) (t : List MessageObservation) (o : MessageObservation)
    → any p (t ++ o ∷ []) ≡ (any p t || p o)
any-append p [] o = ground arith
any-append p (x ∷ t) o = ground (arith, any-append p t o)

pair_observed :
    (m c : ℕ) (t : List MessageObservation) → any (is_pair m c) t ≡ true → is_observed m t ≡ true
pair_observed m c [] h = absurd (ground (arith, h))
pair_observed m c (x ∷ t) h = elim (Bool-cases (is_pair m c x)) [
  | inl y ↦ ground (arith, y)
  | inr n ↦ ground (arith, pair_observed m c t (ground (arith, h, n)))
]

claim_observed :
    (m : ℕ) (t : List MessageObservation) → any (claims_first m) t ≡ true → is_observed m t ≡ true
claim_observed m [] h = absurd (ground (arith, h))
claim_observed m (x ∷ t) h = elim (Bool-cases (claims_first m x)) [
  | inl y ↦ ground (arith, y)
  | inr n ↦ ground (arith, claim_observed m t (ground (arith, h, n)))
]

unclaimed : (m : ℕ) (t : List MessageObservation) → any (claims_first m) t ≡ false → firsts m t ≡ 0
unfolding firsts
unclaimed m [] h = refl
unclaimed m (x ∷ t) h = elim (Bool-cases (claims_first m x)) [
  | inl y ↦ absurd (ground (arith, h, y))
  | inr n ↦ ground (arith, n, unclaimed m t (ground (arith, h, n)))
]

-- Each observed message has one first sighting, and each refused call is of an observed message.
abbrev IsSettled : Calls → Type 0
IsSettled s =
    ((m : ℕ) → firsts m s.rows ≡ (if is_observed m s.rows then 1 else 0))
    × All (λ o. (is_observed o.message_id s.rows ≡ true) × (o.was_first_sighting ≡ false)) s.refused

inserted :
    (o : MessageObservation) (t t' : List MessageObservation)
    → insert_observation o t ≡ some t'
    → (t' ≡ t ++ o ∷ []) × ((o.was_first_sighting && any (claims_first o.message_id) t) ≡ false)
unfolding insert_observation
inserted o t t' e = elim (Bool-cases (any (is_pair o.message_id o.collector_id) t)) [
  | inl y ↦ absurd (ground (arith, e, y))
  | inr n ↦ elim (Bool-cases (o.was_first_sighting && any (claims_first o.message_id) t)) [
    | inl y ↦ absurd (ground (arith, e, n, y))
    | inr m ↦ (ground (arith, e, n, m), m)
  ]
]

-- A claim is refused where the message is observed.
refused_observed :
    (m c at : ℕ) (t : List MessageObservation)
    → insert_observation (observation m c at true) t ≡ none
    → is_observed m t ≡ true
unfolding insert_observation
refused_observed m c at t e = elim (Bool-cases (any (is_pair m c) t)) [
  | inl y ↦ pair_observed m c t y
  | inr n ↦ elim (Bool-cases (any (claims_first m) t)) [
    | inl y ↦ claim_observed m t y
    | inr k ↦ absurd (ground (arith, e, n, k))
  ]
]

still_observed :
    (o : MessageObservation) (t : List MessageObservation) (refused : List MessageObservation)
    → All (λ r. (is_observed r.message_id t ≡ true) × (r.was_first_sighting ≡ false)) refused
    → All
        (λ r. (is_observed r.message_id (t ++ o ∷ []) ≡ true) × (r.was_first_sighting ≡ false))
        refused
still_observed o t refused h =
    All-map _ _ refused
      (λ r k. (ground (arith, k.0, any-append (λ x. x.message_id == r.message_id) t o), k.1)) h

-- An insert that claims an unclaimed message, or that does not claim and is of an observed one.
insert-IsSettled :
    (o : MessageObservation) (s : Calls)
    → IsSettled s
    → (any (claims_first o.message_id) s.rows ≡ false) × (o.was_first_sighting ≡ true)
      ⊎ (is_observed o.message_id s.rows ≡ true) × (o.was_first_sighting ≡ false)
    → IsSettled (record s { rows = s.rows ++ o ∷ [] })
insert-IsSettled o s (counts, behind) how = (
  (λ m.
      let seen = any-append (λ x. x.message_id == m) s.rows o in
      elim how [
        | inl (free, first) ↦ elim (Bool-cases (o.message_id == m)) [
          | inl y ↦
              let it : o.message_id ≡ m = ground (arith, y) in
              let zero_before : firsts m s.rows ≡ 0 =
                unclaimed m s.rows (subst (λ k. any (claims_first k) s.rows ≡ false) it free) in
              ground (arith, y, first, zero_before, seen, firsts-append m s.rows o)
          | inr n ↦ ground (arith, n, counts m, seen, firsts-append m s.rows o)
        ]
        | inr (old, later) ↦ elim (Bool-cases (o.message_id == m)) [
          | inl y ↦
              let it : o.message_id ≡ m = ground (arith, y) in
              let there : is_observed m s.rows ≡ true =
                subst (λ k. is_observed k s.rows ≡ true) it old in
              ground (arith, later, there, counts m, seen, firsts-append m s.rows o)
          | inr n ↦ ground (arith, n, counts m, seen, firsts-append m s.rows o)
        ]
      ]),
  still_observed o s.rows s.refused behind,
)

reached-IsSettled : (s : Calls) → IsReached s → IsSettled s
unfolding firsts
reached-IsSettled s none_yet = ((λ m. refl), tt)
reached-IsSettled s (next r (claimed m c at b t e)) =
    let (same, free) = inserted (observation m c at true) b.rows t e in
    subst (λ u. IsSettled (record b { rows = u })) (sym same)
      (insert-IsSettled (observation m c at true) b (reached-IsSettled b r) (inl (free, refl)))
reached-IsSettled s (next r (refuses m c at b e)) =
    let (counts, behind) = reached-IsSettled b r in
    (counts, ((refused_observed m c at b.rows e, refl), behind))
reached-IsSettled s (next r (seconds o b t among e)) =
    let (same, free) = inserted o b.rows t e in
    let before = reached-IsSettled b r in
    let known =
      Any-All (λ x. (is_observed x.message_id b.rows ≡ true) × (x.was_first_sighting ≡ false)) o
        b.refused before.1 among in
    subst (λ u. IsSettled (record b { rows = u })) (sym same)
      (insert-IsSettled o b before (inr known))

-- A call that nothing comes between is a run of its transactions.
record_observation-IsReached :
    (m c at : ℕ) (s : Calls)
    → IsReached s
    → (refused : List MessageObservation) × IsReached
        (record { rows = (record_observation m c at s.rows).1; refused = refused })
unfolding record_observation
record_observation-IsReached m c at s r = elim (Option-cases (find (is_pair m c) s.rows)) [
  | inr (extant, e) ↦ (s.refused, rw (record_observation, e) r)
  | inl e ↦ elim (Option-cases (insert_observation (observation m c at true) s.rows)) [
    | inr (t, f) ↦ (s.refused, rw (record_observation, e, f) (next r (claimed m c at s t f)))
    | inl f ↦
        let later = observation m c at false in
        let tried : IsReached (record s { refused = later ∷ s.refused }) =
          next r (refuses m c at s f) in
        elim (Option-cases (insert_observation later s.rows)) [
          | inl g ↦ (later ∷ s.refused, rw (record_observation, e, f, g) tried)
          | inr (t, g) ↦ (
            later ∷ s.refused,
            rw (record_observation, e, f, g)
                (next tried
                  (seconds later (record s { refused = later ∷ s.refused }) t (inl refl) g)),
          )
        ]
  ]
]

-- However the transactions of concurrent calls interleave, each message that any collector observed
-- has exactly one row that is its first sighting, and other messages have none; and so it is after one
-- more call.
pub first_sighting_once :
    (s : Calls) (m message collector at : ℕ)
    → IsReached s
    → let after = (record_observation message collector at s.rows).1 in
      (firsts m s.rows ≡ (if is_observed m s.rows then 1 else 0))
      × (firsts m after ≡ (if is_observed m after then 1 else 0))
first_sighting_once s m message collector at r =
    let (refused, run) = record_observation-IsReached message collector at s r in
    ((reached-IsSettled s r).0 m, (reached-IsSettled _ run).0 m)
