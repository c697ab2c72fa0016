-- ===== src/Linker/Crews/Classes.antt =====
-- The actors with one root, and the actors that edges connect (`build_crews` of
-- eyenet/linker/crews.py).
use eyenet.Common.{
  ℕ, ◌<◌, ◌≡◌, refl, sym, ◌∙◌, ◌↔◌, some, List, [], arith, All, Any, All-members, Any-All,
}
use mathlib.Core.Path.{subst}
use eyenet.Storage.Table.{Table, get}
use eyenet.Linker.Crews.{find_root, union_all}
use eyenet.Linker.Crews.Find.{find_root_found}
use eyenet.Linker.Crews.Union.{
  Linked, edge, alike, turned, through, deepest, IsSound, union_all_found,
}

Linked-same :
    (rep : ℕ → ℕ) (edges : List (ℕ × ℕ)) (x y : ℕ)
    → All (λ e. rep e.0 ≡ rep e.1) edges
    → Linked edges x y
    → rep x ≡ rep y
Linked-same rep edges x y h (edge a b m) = Any-All (λ e. rep e.0 ≡ rep e.1) (a, b) edges h m
Linked-same rep edges x y h (alike a) = refl
Linked-same rep edges x y h (turned {a = a} {b = b} l) = sym (Linked-same rep edges a b h l)
Linked-same rep edges x y h (through {a = a} {b = b} {c = c} l k) =
    Linked-same rep edges a b h l ∙ Linked-same rep edges b c h k

-- No actor has a parent yet.
empty-IsSound : (edges : List (ℕ × ℕ)) → IsSound edges (λ x. x) (λ x. 0) 0 []
unfolding get
empty-IsSound edges = record {
  forest = record {
    step = λ x q e n. absurd (ground (arith, e));
    root = λ x e. refl;
    absent = λ x e. refl;
    shallow = λ x. ground arith;
  };
  linked = λ x y e. subst (Linked edges x) e (alike x);
}

-- With more fuel than the deepest tree needs, the unions and every later call of `find` end, and two
-- actors have one root exactly when the edges connect them.
pub crews_connected :
    (edges : List (ℕ × ℕ)) (fuel : ℕ)
    → deepest edges 0 < fuel
    → (after : Table ℕ) × (root : ℕ → ℕ) × (union_all fuel edges [] ≡ some after)
      × ((x : ℕ) → (later : Table ℕ) × (find_root fuel x after ≡ some (root x, later)))
      × ((x y : ℕ) → (root x ≡ root y) ↔ Linked edges x y)
crews_connected edges fuel lt =
    let (after, root, depth, e, s, kept, each) =
      union_all_found edges fuel edges (λ x. x) (λ x. 0) 0 [] (empty-IsSound edges)
        (All-members (λ e. Any (λ x. x ≡ e) edges) edges (λ x m. m)) lt in
    (
      after,
      root,
      e,
      (λ x.
          let found = find_root_found root depth (deepest edges 0) fuel x after s.forest lt in
          (found.0, found.1)),
      (λ x y. (s.linked x y, Linked-same root edges x y each)),
    )
