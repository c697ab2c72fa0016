-- ===== src/Bus/Memory.antt =====
-- `MemoryBus` (eyenet/bus/memory.py). A handler is known by a number; what a publish does is the list
-- of subscriptions whose handlers it invokes, in the order of the gather. A subscription's `sid` is a
-- number: its text is 32 hex digits, whose order is the number's. `request` is not modelled.
pub mod Groups
pub mod Targets
pub mod Delivery
pub mod RoundRobin
use eyenet.Common.{
  ℕ, ◌+◌, ◌%◌, String, Bool, true, false, Option, none, some, List, [], ◌∷◌, ◌++◌, str_eq, leb,
  ◌==◌, ◌||◌, not, length, get_elem?, or_else, if◌then◌else◌,
}
use eyenet.Common.Dict.{find_key, put_key}
use eyenet.Common.Sorting.{sort}
use eyenet.Bus.Subjects.{subject_matches, is_valid_pattern}

pub record Sub : Type 0 where
  pub pattern : String
  pub handler : ℕ
  pub queue_group : Option String
  pub sid : ℕ
  pub cancelled : Bool

pub record MemoryBus : Type 0 where
  pub subs : List Sub
  pub rr : List (String × ℕ)
  pub closed : Bool

pub data BusError : Type 0 where
  bus_closed invalid_pattern : BusError

pub data Reply (A : Type 0) : Type 0 where
  ok : A → Reply A
  err : BusError → Reply A

abbrev pub new_bus : MemoryBus
new_bus = record { subs = []; rr = []; closed = false }

-- The new subscription's `sid` is drawn from outside.
unfoldable pub subscribe : String → ℕ → Option String → ℕ → MemoryBus → Reply Sub × MemoryBus
subscribe subject handler queue_group sid bus =
    let sub : Sub = record {
      pattern = subject;
      handler = handler;
      queue_group = queue_group;
      sid = sid;
      cancelled = false;
    } in
    if not (is_valid_pattern subject)
    then (err invalid_pattern, bus)
    else (ok sub, record bus { subs = bus.subs ++ sub ∷ [] })

-- `self._subs.remove(sub)`: the first entry equal to it, which its unique `sid` tells apart
pub remove_sub : ℕ → List Sub → List Sub
remove_sub sid [] = []
remove_sub sid (s ∷ subs) = if s.sid == sid then subs else s ∷ remove_sub sid subs

-- `unsubscribe`: the object that is marked as cancelled leaves the list at once
unfoldable pub unsubscribe : ℕ → MemoryBus → MemoryBus
unfolding remove_sub
unsubscribe sid bus = record bus { subs = remove_sub sid bus.subs }

unfoldable pub close : MemoryBus → MemoryBus
close bus = record { subs = []; rr = []; closed = true }

abbrev pub Groups : Type 0
Groups = List (String × List Sub)

-- `groups.setdefault(name, []).append(sub)`
unfoldable pub add_member : String → Sub → Groups → Groups
add_member name sub [] = (name, sub ∷ []) ∷ []
add_member name sub ((n, members) ∷ groups) =
    if str_eq n name
    then (n, members ++ sub ∷ []) ∷ groups
    else (n, members) ∷ add_member name sub groups

abbrev pub is_skipped : String → Sub → Bool
is_skipped subject sub = sub.cancelled || not (subject_matches sub.pattern subject)

abbrev pub place : Sub → Option String → List Sub × Groups → List Sub × Groups
place sub none (broadcast, groups) = (broadcast ++ sub ∷ [], groups)
place sub (some name) (broadcast, groups) = (broadcast, add_member name sub groups)

-- the first loop of `_fanout`: the pair of `broadcast` and `groups`
unfoldable pub gather : String → List Sub → List Sub × Groups → List Sub × Groups
unfolding add_member
gather subject [] acc = acc
gather subject (sub ∷ subs) acc =
    gather subject subs (if is_skipped subject sub then acc else place sub sub.queue_group acc)

abbrev pub sid_le : Sub → Sub → Bool
sid_le a b = leb a.sid b.sid

-- The chosen member, and the round-robin pointers after it.
unfoldable pub pick_round_robin :
    List (String × ℕ) → String → List Sub → Option Sub × List (String × ℕ)
pick_round_robin rr name [] = (none, rr)
pick_round_robin rr name (m ∷ members) =
    let ordered = sort sid_le (m ∷ members) in
    let idx = or_else (find_key name rr) 0 % length ordered in
    (get_elem? ordered idx, put_key name (idx + 1) rr)

abbrev pub append_chosen : Option Sub → List Sub → List Sub
append_chosen none targets = targets
append_chosen (some chosen) targets = chosen ∷ targets

-- the second loop of `_fanout`: the chosen members in the order of the groups
unfoldable pub choose : Groups → List (String × ℕ) → List Sub × List (String × ℕ)
unfolding pick_round_robin
choose [] rr = ([], rr)
choose ((name, members) ∷ groups) rr =
    let (chosen, rr') = pick_round_robin rr name members in
    let (rest, rr'') = choose groups rr' in (append_chosen chosen rest, rr'')

unfoldable pub fanout : String → MemoryBus → List Sub × MemoryBus
unfolding gather choose
fanout subject bus =
    let (broadcast, groups) = gather subject bus.subs ([], []) in
    let (chosen, rr) = choose groups bus.rr in (broadcast ++ chosen, record bus { rr = rr })

unfoldable pub publish : String → MemoryBus → Reply (List Sub) × MemoryBus
unfolding fanout
publish subject bus =
    if bus.closed
    then (err bus_closed, bus)
    else let (targets, bus') = fanout subject bus in (ok targets, bus')
