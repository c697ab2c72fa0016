-- ===== src/Bus/Memory/Groups.antt =====
-- How the first loop of `_fanout` (eyenet/bus/memory.py) groups the matching subscriptions.
use mathlib.Core.List.{append-nil, append_assoc}
use eyenet.Common.{
  sym, ap, ◌∙◌, ℕ, suc, ◌≡◌, ◌≢◌, String, Bool, true, false, Option, none, some, List, [], ◌∷◌,
  ◌++◌, arith, str_eq, eq_iff, All, All-append, any, ◌==◌, ◌&&◌, ◌||◌, not, if◌then◌else◌,
  Bool-cases, Option-cases, inl, inr, keep_if,
}
use eyenet.Bus.Memory.{Sub, Groups, add_member, is_skipped, place, gather}

-- `sub` belongs to the queue group
abbrev pub in_group : String → Sub → Bool
in_group name sub = elim sub.queue_group [ none ↦ false | some n ↦ str_eq n name ]

abbrev pub bit : Bool → ℕ
bit b = if b then 1 else 0

unfoldable pub count_name : String → Groups → ℕ
count_name name [] = 0
count_name name ((n, members) ∷ groups) =
    let rest = count_name name groups in if str_eq n name then suc rest else rest

-- Every group has members, all of them its own.
abbrev pub IsOwn : String → List Sub → Type 0
IsOwn n members = (members ≢ []) × All (λ (m : Sub). m.queue_group ≡ some n) members

abbrev pub AllOwn : Groups → Type 0
AllOwn [] = Unit
AllOwn ((n, members) ∷ groups) = IsOwn n members × AllOwn groups

append-ne-nil : (xs : List Sub) (x : Sub) → (xs ++ x ∷ []) ≢ []
append-ne-nil [] x = λ e. absurd (ground (arith, e))
append-ne-nil (y ∷ ys) x = λ e. absurd (ground (arith, e))

add_member-AllOwn :
    (name : String) (sub : Sub) (groups : Groups)
    → sub.queue_group ≡ some name
    → AllOwn groups
    → AllOwn (add_member name sub groups)
unfolding add_member
add_member-AllOwn name sub [] e h = (((λ p. absurd (ground (arith, p))), (e, tt)), tt)
add_member-AllOwn name sub ((n, members) ∷ groups) e h = elim (Bool-cases (str_eq n name)) [
  | inl same ↦ rw same (
    (
      append-ne-nil members sub,
      All-append _ members _ h.0.1 (ground (arith, same, e, eq_iff n name), tt),
    ),
    h.1,
  )
  | inr other ↦ rw other (h.0, add_member-AllOwn name sub groups e h.1)
]

count_name-add_member :
    (g name : String) (sub : Sub) (groups : Groups)
    → count_name g (add_member name sub groups)
      ≡ (if str_eq name g && (count_name g groups == 0) then 1 else count_name g groups)
unfolding count_name add_member
count_name-add_member g name sub [] = ground arith
count_name-add_member g name sub ((n, members) ∷ groups) =
    ground
      (arith, count_name-add_member g name sub groups, eq_iff n name, eq_iff n g, eq_iff name g)

or_assoc : (a b c : Bool) → ((a || b) || c) ≡ (a || (b || c))
or_assoc a b c = ground arith

-- a live subscription whose pattern matches
abbrev pub matches : String → Sub → Bool
matches subject sub = not (is_skipped subject sub)

abbrev pub is_broadcast : Sub → Bool
is_broadcast sub = elim sub.queue_group [ none ↦ true | some n ↦ false ]

module _ (subject : String) where
  pub gather_skip :
      (sub : Sub) (subs : List Sub) (acc : List Sub × Groups)
      → is_skipped subject sub ≡ true
      → gather subject (sub ∷ subs) acc ≡ gather subject subs acc
  unfolding gather
  gather_skip sub subs acc e =
      ap (λ c. gather subject subs (if c then acc else place sub sub.queue_group acc)) e

  pub gather-place :
      (sub : Sub) (subs : List Sub) (acc : List Sub × Groups) (group : Option String)
      → is_skipped subject sub ≡ false
      → sub.queue_group ≡ group
      → gather subject (sub ∷ subs) acc ≡ gather subject subs (place sub group acc)
  unfolding gather
  gather-place sub subs acc group e q =
      ap (λ c. gather subject subs (if c then acc else place sub sub.queue_group acc)) e
      ∙ ap (λ o. gather subject subs (place sub o acc)) q

  pub gather-AllOwn :
      (subs broadcast : List Sub) (groups : Groups)
      → AllOwn groups
      → AllOwn (gather subject subs (broadcast, groups)).1
  gather-AllOwn [] b groups h = unfold gather in h
  gather-AllOwn (sub ∷ subs) b groups h = elim (Bool-cases (is_skipped subject sub)) [
    | inl skip ↦ rw (gather_skip sub subs (b, groups) skip) (gather-AllOwn subs b groups h)
    | inr go ↦ elim (Option-cases sub.queue_group) [
      | inl e ↦
          rw (gather-place sub subs (b, groups) none go e)
            (gather-AllOwn subs (b ++ sub ∷ []) groups h)
      | inr (name, e) ↦ rw (gather-place sub subs (b, groups) (some name) go e) (
          gather-AllOwn subs b (add_member name sub groups) (add_member-AllOwn name sub groups e h))
    ]
  ]

  abbrev pub named : String → List Sub → Bool
  named g subs = any (λ sub. matches subject sub && in_group g sub) subs

  -- A group is formed once, and exactly for a name that some matching subscription has.
  pub count_name-gather :
      (g : String) (subs broadcast : List Sub) (groups : Groups) (seen : Bool)
      → count_name g groups ≡ bit seen
      → count_name g (gather subject subs (broadcast, groups)).1 ≡ bit (seen || named g subs)
  count_name-gather g [] b groups seen h = unfold gather in ground (arith, h)
  count_name-gather g (sub ∷ subs) b groups seen h = elim (Bool-cases (is_skipped subject sub)) [
    | inl skip ↦
        ap (λ r. count_name g r.1) (gather_skip sub subs (b, groups) skip)
        ∙ count_name-gather g subs b groups seen h
        ∙ ground (arith, skip)
    | inr go ↦ elim (Option-cases sub.queue_group) [
      | inl e ↦
          ap (λ r. count_name g r.1) (gather-place sub subs (b, groups) none go e)
          ∙ count_name-gather g subs (b ++ sub ∷ []) groups seen h
          ∙ ground (arith, go, e)
      | inr (name, e) ↦
          ap (λ r. count_name g r.1) (gather-place sub subs (b, groups) (some name) go e)
          ∙ count_name-gather g subs b (add_member name sub groups) (seen || str_eq name g)
              (ground (arith, h, count_name-add_member g name sub groups))
          ∙ ground (arith, go, e)
    ]
  ]

  -- The broadcast list holds the matching subscriptions without a group, in order.
  pub gather-broadcast :
      (subs broadcast : List Sub) (groups : Groups)
      → (gather subject subs (broadcast, groups)).0
        ≡ broadcast ++ keep_if (λ sub. matches subject sub && is_broadcast sub) subs
  gather-broadcast [] b groups = unfold gather in sym (append-nil b)
  gather-broadcast (sub ∷ subs) b groups = elim (Bool-cases (is_skipped subject sub)) [
    | inl skip ↦
        ap (λ r. r.0) (gather_skip sub subs (b, groups) skip)
        ∙ gather-broadcast subs b groups
        ∙ ground (arith, skip)
    | inr go ↦ elim (Option-cases sub.queue_group) [
      | inl e ↦
          ap (λ r. r.0) (gather-place sub subs (b, groups) none go e)
          ∙ gather-broadcast subs (b ++ sub ∷ []) groups
          ∙ append_assoc b (sub ∷ []) _
          ∙ ap (λ r. b ++ r) (ground (arith, go, e))
      | inr (name, e) ↦
          ap (λ r. r.0) (gather-place sub subs (b, groups) (some name) go e)
          ∙ gather-broadcast subs b (add_member name sub groups)
          ∙ ground (arith, go, e)
    ]
  ]
