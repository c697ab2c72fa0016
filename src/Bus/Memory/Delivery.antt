-- ===== src/Bus/Memory/Delivery.antt =====
-- The targets of a publish (`_fanout` of eyenet/bus/memory.py).
use mathlib.Core.List.{append-nil}
use eyenet.Common.{
  ℕ, ◌%◌, ◌≡◌, refl, ap, ◌∙◌, String, Bool, false, some, List, [], ◌∷◌, ◌++◌, arith, length,
  keep_if, keep_if-append, keep_if-keep_if, keep_if_apart, or_else, get_elem?-All, All, All-append,
  ◌&&◌,
}
use eyenet.Common.Dict.{find_key}
use eyenet.Common.Sorting.{sort}
use eyenet.Common.Sorting.Laws.{All-sort, length-sort}
use eyenet.Bus.Memory.{
  Sub, MemoryBus, ok, Groups, gather, sid_le, pick_round_robin, choose, publish,
}
use eyenet.Bus.Memory.Groups.{
  in_group, bit, count_name, IsOwn, AllOwn, matches, is_broadcast, named, gather-AllOwn,
  count_name-gather, gather-broadcast,
}
use eyenet.Bus.Memory.Targets.{
  AllMembers, gather-All, choose-All, IsSubscribed, matching-IsSubscribed,
}

-- A group with members has a member chosen.
pick-chosen :
    (rr : List (String × ℕ)) (name : String) (members : List Sub)
    → IsOwn name members
    → (c : Sub) × ((pick_round_robin rr name members).0 ≡ some c) × (c.queue_group ≡ some name)
unfolding pick_round_robin
pick-chosen rr name [] h = absurd (h.0 refl)
pick-chosen rr name (m ∷ members) h =
    let ordered = sort sid_le (m ∷ members) in
    get_elem?-All (λ (s : Sub). s.queue_group ≡ some name) ordered
      (or_else (find_key name rr) 0 % length ordered)
      (All-sort sid_le (λ (s : Sub). s.queue_group ≡ some name) (m ∷ members) h.1)
      (omega (arith, length-sort sid_le (m ∷ members)))

-- how many of the targets belong to a group
abbrev pub count_in : String → List Sub → ℕ
count_in g targets = length (keep_if (in_group g) targets)

choose-count_in :
    (g : String) (groups : Groups) (rr : List (String × ℕ))
    → AllOwn groups
    → count_in g (choose groups rr).0 ≡ count_name g groups
unfolding choose count_name
choose-count_in g [] rr h = refl
choose-count_in g ((name, members) ∷ groups) rr h =
    let (c, picked, own) = pick-chosen rr name members h.0 in
    ground (arith, picked, own, choose-count_in g groups (pick_round_robin rr name members).1 h.1)

choose-is_broadcast :
    (groups : Groups) (rr : List (String × ℕ))
    → AllOwn groups
    → keep_if is_broadcast (choose groups rr).0 ≡ []
unfolding choose
choose-is_broadcast [] rr h = refl
choose-is_broadcast ((name, members) ∷ groups) rr h =
    let (c, picked, own) = pick-chosen rr name members h.0 in
    ground (arith, picked, own, choose-is_broadcast groups (pick_round_robin rr name members).1 h.1)

-- An open bus delivers: every target is a live subscription of the bus whose pattern matches the
-- subject; of the targets without a group there are exactly the matching subscriptions without a
-- group, in the order in which they subscribed; and of each queue group there is one target if a
-- matching subscription belongs to it, and none otherwise.
pub publish_targets :
    (subject : String) (bus : MemoryBus)
    → bus.closed ≡ false
    → (targets : List Sub) × ((publish subject bus).0 ≡ ok targets)
      × All (IsSubscribed subject bus.subs) targets
      × (keep_if is_broadcast targets
          ≡ keep_if (λ sub. matches subject sub && is_broadcast sub) bus.subs)
      × ((g : String) → count_in g targets ≡ bit (named subject g bus.subs))
unfolding publish
publish_targets subject bus open_bus = (
  gathered.0 ++ chosen,
  ground (arith, open_bus),
  All-append _ gathered.0 chosen sources.0
      (choose-All (IsSubscribed subject bus.subs) gathered.1 bus.rr sources.1),
  keep_if-append is_broadcast gathered.0 chosen
      ∙ ap (λ r. keep_if is_broadcast gathered.0 ++ r) (choose-is_broadcast gathered.1 bus.rr own)
      ∙ append-nil _
      ∙ ap (keep_if is_broadcast) broadcast
      ∙ keep_if-keep_if direct is_broadcast bus.subs (λ x h. ground (arith, h)),
  λ g.
      ap length (keep_if-append (in_group g) gathered.0 chosen)
      ∙ ap (λ r. length (r ++ keep_if (in_group g) chosen))
          (ap (keep_if (in_group g)) broadcast
            ∙ keep_if_apart direct (in_group g) bus.subs (λ x h. ground (arith, h)))
      ∙ choose-count_in g gathered.1 bus.rr own
      ∙ count_name-gather subject g bus.subs [] [] false (unfold count_name in refl),
)
  where
    gathered : List Sub × Groups
    gathered = gather subject bus.subs ([], [])

    chosen : List Sub
    chosen = (choose gathered.1 bus.rr).0

    sources :
        All (IsSubscribed subject bus.subs) gathered.0
        × AllMembers (IsSubscribed subject bus.subs) gathered.1
    sources =
        gather-All (IsSubscribed subject bus.subs) subject bus.subs [] []
          (matching-IsSubscribed subject bus.subs) tt tt

    direct : Sub → Bool
    direct sub = matches subject sub && is_broadcast sub

    own : AllOwn gathered.1
    own = gather-AllOwn subject bus.subs [] [] tt

    broadcast : gathered.0 ≡ keep_if direct bus.subs
    broadcast = gather-broadcast subject bus.subs [] []
