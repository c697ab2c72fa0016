-- ===== src/Bus/Memory/Targets.antt =====
-- Where the targets of a publish come from (`_fanout` of eyenet/bus/memory.py).
use eyenet.Common.{
  ℕ, ◌%◌, ◌≡◌, String, true, none, some, List, [], ◌∷◌, ◌++◌, arith, length, str_eq, All,
  All-append, All-members, Any, get_elem?-All, or_else, inl, inr, Bool-cases, Option-cases,
}
use eyenet.Common.Dict.{find_key}
use eyenet.Common.Sorting.{sort}
use eyenet.Common.Sorting.Laws.{All-sort, length-sort}
use eyenet.Bus.Memory.{
  Sub, Groups, add_member, is_skipped, gather, sid_le, pick_round_robin, choose, append_chosen,
}
use eyenet.Bus.Memory.Groups.{matches, gather_skip, gather-place}

module _ (P : Sub → Type 0) where
  abbrev pub AllMembers : Groups → Type 0
  AllMembers groups = All (λ g. All P g.1) groups

  add_member-AllMembers :
      (name : String) (sub : Sub) (groups : Groups)
      → P sub
      → AllMembers groups
      → AllMembers (add_member name sub groups)
  unfolding add_member
  add_member-AllMembers name sub [] p h = ((p, tt), tt)
  add_member-AllMembers name sub ((n, members) ∷ groups) p h = elim (Bool-cases (str_eq n name)) [
    | inl same ↦ rw same (All-append P members _ h.0 (p, tt), h.1)
    | inr other ↦ rw other (h.0, add_member-AllMembers name sub groups p h.1)
  ]

  -- What the matching subscriptions have, the gathered ones have.
  pub gather-All :
      (subject : String) (subs broadcast : List Sub) (groups : Groups)
      → All (λ s. matches subject s ≡ true → P s) subs
      → All P broadcast
      → AllMembers groups
      → All P (gather subject subs (broadcast, groups)).0
        × AllMembers (gather subject subs (broadcast, groups)).1
  gather-All subject [] b groups h hb hg = unfold gather in (hb, hg)
  gather-All subject (sub ∷ subs) b groups h hb hg = elim (Bool-cases (is_skipped subject sub)) [
    | inl skip ↦
        rw (gather_skip subject sub subs (b, groups) skip)
          (gather-All subject subs b groups h.1 hb hg)
    | inr go ↦
        let p : P sub = h.0 (ground (arith, go)) in
        elim (Option-cases sub.queue_group) [
          | inl e ↦
              rw (gather-place subject sub subs (b, groups) none go e) (
                gather-All subject subs (b ++ sub ∷ []) groups h.1 (All-append P b _ hb (p, tt)) hg)
          | inr (name, e) ↦ rw (gather-place subject sub subs (b, groups) (some name) go e) (
              gather-All subject subs b (add_member name sub groups) h.1 hb
                (add_member-AllMembers name sub groups p hg))
        ]
  ]

  pick-All :
      (rr : List (String × ℕ)) (name : String) (members targets : List Sub)
      → All P members
      → All P targets
      → All P (append_chosen (pick_round_robin rr name members).0 targets)
  unfolding pick_round_robin
  pick-All rr name [] targets h k = k
  pick-All rr name (m ∷ members) targets h k =
      let ordered = sort sid_le (m ∷ members) in
      let (c, e, p) =
        get_elem?-All P ordered (or_else (find_key name rr) 0 % length ordered)
          (All-sort sid_le P (m ∷ members) h) (omega (arith, length-sort sid_le (m ∷ members))) in
      rw (pick_round_robin, e) (p, k)

  pub choose-All :
      (groups : Groups) (rr : List (String × ℕ)) → AllMembers groups → All P (choose groups rr).0
  unfolding choose
  choose-All [] rr h = tt
  choose-All ((name, members) ∷ groups) rr h =
      pick-All rr name members _ h.0 (choose-All groups (pick_round_robin rr name members).1 h.1)

-- a subscription on the list whose pattern matches
abbrev pub IsSubscribed : String → List Sub → Sub → Type 0
IsSubscribed subject subs c = Any (λ s. s ≡ c) subs × (matches subject c ≡ true)

pub matching-IsSubscribed :
    (subject : String) (subs : List Sub)
    → All (λ s. matches subject s ≡ true → IsSubscribed subject subs s) subs
matching-IsSubscribed subject subs =
    All-members (λ s. matches subject s ≡ true → IsSubscribed subject subs s) subs (λ s m h. (m, h))
