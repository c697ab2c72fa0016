-- ===== src/Tests/Messaging.antt =====
-- Subjects, the in-memory bus and the mask at concrete inputs.
use eyenet.Common.{
  ℕ, ◌<◌, ◌≡◌, refl, ◌≢◌, ◌↔◌, String, true, false, Option, none, some, List, [], ◌∷◌, ◌&&◌, arith,
  length, keep_if, get_elem?, All,
}
use eyenet.Common.Dict.{find_key}
use eyenet.Common.Sorting.{sort}
use eyenet.Bus.Subjects.{
  split, split_on_dot, match_from, subject_matches, valid_from, is_valid_pattern,
}
use eyenet.Bus.Subjects.Matching.{Matches, subject_matches_iff}
use eyenet.Bus.Subjects.Validity.{IsWellFormed, is_valid_pattern_iff}
use eyenet.Bus.Memory.{
  Sub, MemoryBus, ok, publish, fanout, gather, choose, add_member, pick_round_robin, sid_le,
}
use eyenet.Bus.Memory.Groups.{matches, is_broadcast, named, bit}
use eyenet.Bus.Memory.Targets.{IsSubscribed}
use eyenet.Bus.Memory.Delivery.{count_in, publish_targets}
use eyenet.Bus.Memory.RoundRobin.{after, round_robin_fair}

subject_matches_iff_example :
    (subject_matches "eyenet.raw.*.>" "eyenet.raw.telegram.chat" ≡ true)
    ↔ Matches (split "eyenet.raw.*.>") (split "eyenet.raw.telegram.chat")
subject_matches_iff_example = subject_matches_iff "eyenet.raw.*.>" "eyenet.raw.telegram.chat"

wildcard : subject_matches "a.*.>" "a.b.c.d" ≡ true
unfolding subject_matches split split_on_dot match_from
wildcard = refl

trailing_needs_token : subject_matches "a.>" "a" ≡ false
unfolding subject_matches split split_on_dot match_from
trailing_needs_token = refl

abbrev pattern : String
pattern = "a.*.>"

is_valid_pattern_iff_example :
    (is_valid_pattern pattern ≡ true) ↔ ((pattern ≢ "") × IsWellFormed (split_on_dot pattern))
is_valid_pattern_iff_example = is_valid_pattern_iff pattern

inner_tail : is_valid_pattern "a.>.b" ≡ false
unfolding is_valid_pattern split_on_dot valid_from
inner_tail = refl

abbrev sub_of : String → Option String → ℕ → Sub
sub_of pattern queue_group sid = record {
  pattern = pattern;
  handler = sid;
  queue_group = queue_group;
  sid = sid;
  cancelled = false;
}

abbrev watcher : Sub
watcher = sub_of "a.>" none 1

abbrev worker : Sub
worker = sub_of "a.b" (some "workers") 9

abbrev helper : Sub
helper = sub_of "a.*" (some "workers") 4

abbrev busy : MemoryBus
busy = record { subs = worker ∷ watcher ∷ helper ∷ []; rr = []; closed = false }

delivered : (publish "a.b" busy).0 ≡ ok (watcher ∷ helper ∷ [])
unfolding publish find_key fanout gather choose add_member pick_round_robin subject_matches split
    split_on_dot match_from
delivered = refl

publish_targets_example :
    (targets : List Sub) × ((publish "a.b" busy).0 ≡ ok targets)
    × All (IsSubscribed "a.b" busy.subs) targets
    × (keep_if is_broadcast targets
        ≡ keep_if (λ sub. matches "a.b" sub && is_broadcast sub) busy.subs)
    × ((g : String) → count_in g targets ≡ bit (named "a.b" g busy.subs))
publish_targets_example = publish_targets "a.b" busy refl

round_robin_fair_example :
    (k : ℕ) × (k < length (worker ∷ helper ∷ []))
    × ((pick_round_robin
          (after k (("workers", 5) ∷ []) "workers" (worker ∷ helper ∷ []))
          "workers"
          (worker ∷ helper ∷ [])).0
        ≡ get_elem? (sort sid_le (worker ∷ helper ∷ [])) 1)
round_robin_fair_example =
    round_robin_fair "workers" worker (helper ∷ []) (("workers", 5) ∷ []) 1 (omega arith)
