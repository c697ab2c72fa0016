-- ===== src/Bus/Memory/RoundRobin.antt =====
-- The rotation of a queue group (`_pick_round_robin` of eyenet/bus/memory.py).
use native.Mathlib.Nat.{mod-lt, mod-eq_of_lt, mod-add-mod, add-mod-mod, add-mod_right}
use eyenet.Common.{
  ℕ, zero, suc, ◌<◌, ◌%◌, ◌+◌, ◌-◌, ◌≡◌, sym, ap, ◌∙◌, String, List, ◌∷◌, arith, eq_iff, length,
  or_else, get_elem?,
}
use eyenet.Common.Dict.{find_key, find_key-put_key}
use eyenet.Common.Sorting.{sort}
use eyenet.Common.Sorting.Laws.{length-sort}
use eyenet.Bus.Memory.{Sub, sid_le, pick_round_robin}

-- the group's pointer
abbrev pub pointer : List (String × ℕ) → String → ℕ
pointer rr name = or_else (find_key name rr) 0

-- the pointers after a number of picks
pub after : ℕ → List (String × ℕ) → String → List Sub → List (String × ℕ)
after zero rr name members = rr
after (suc k) rr name members = after k (pick_round_robin rr name members).1 name members

module _ (name : String) (m : Sub) (rest : List Sub) where
  abbrev members : List Sub
  members = m ∷ rest

  abbrev ordered : List Sub
  ordered = sort sid_le members

  abbrev n : ℕ
  n = length ordered

  pointer-pick :
      (rr : List (String × ℕ))
      → pointer (pick_round_robin rr name members).1 name ≡ pointer rr name % n + 1
  unfolding pick_round_robin
  pointer-pick rr =
      ground (arith, find_key-put_key name name (pointer rr name % n + 1) rr, eq_iff name name)

  pointer-after :
      (k : ℕ) (rr : List (String × ℕ))
      → pointer (after k rr name members) name % n ≡ (pointer rr name + k) % n
  unfolding after
  pointer-after zero rr = ap (λ (t : ℕ). t % n) (omega arith)
  pointer-after (suc k) rr =
      pointer-after k (pick_round_robin rr name members).1
      ∙ ap (λ (t : ℕ). (t + k) % n) (pointer-pick rr)
      ∙ ap (λ (t : ℕ). t % n) (omega arith)
      ∙ mod-add-mod (pointer rr name) n (1 + k)
      ∙ ap (λ (t : ℕ). t % n) (omega arith)

-- The distance from a pointer to an index, going round.
distance : (r i n : ℕ) → i < n → (r + (i + (n - r % n)) % n) % n ≡ i
distance r i n h =
    add-mod-mod r (i + (n - r % n)) n
    ∙ sym (mod-add-mod r n (i + (n - r % n)))
    ∙ ap (λ (t : ℕ). t % n) (omega (arith, mod-lt r {m = n} (omega arith)))
    ∙ add-mod_right i n
    ∙ mod-eq_of_lt h

-- From any state of the pointers, each member of a group, in the order of the `sid`s, is chosen by one
-- of the next picks, as many picks as the group has members.
pub round_robin_fair :
    (name : String) (m : Sub) (rest : List Sub) (rr : List (String × ℕ)) (i : ℕ)
    → i < length (m ∷ rest)
    → (k : ℕ) × (k < length (m ∷ rest))
      × ((pick_round_robin (after k rr name (m ∷ rest)) name (m ∷ rest)).0
          ≡ get_elem? (sort sid_le (m ∷ rest)) i)
unfolding pick_round_robin
round_robin_fair name m rest rr i h =
    let total = length (sort sid_le (m ∷ rest)) in
    let size : total ≡ length (m ∷ rest) = length-sort sid_le (m ∷ rest) in
    let k = (i + (total - pointer rr name % total)) % total in
    (
      k,
      omega (arith, size, mod-lt (i + (total - pointer rr name % total)) {m = total} (omega arith)),
      ap (get_elem? (sort sid_le (m ∷ rest))) (
          pointer-after name m rest k rr
          ∙ distance (pointer rr name) i total (omega (arith, size))),
    )
