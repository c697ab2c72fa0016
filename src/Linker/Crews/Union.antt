-- ===== src/Linker/Crews/Union.antt =====
-- `union` and the loop over the edges (eyenet/linker/crews.py).
use eyenet.Common.{
  ℕ, suc, ◌+◌, ◌≤◌, ◌<◌, ◌≡◌, refl, ap, true, false, Option, none, some, arith, is_some, List, [],
  ◌∷◌, ◌==◌, if◌then◌else◌, Bool-cases, inl, inr, All, Any,
}
use mathlib.Core.Path.{subst}
use eyenet.Storage.Table.{Table, get, update, get-update}
use eyenet.Linker.Crews.{union_roots, union_all}
use eyenet.Linker.Crews.Forest.{IsForest}
use eyenet.Linker.Crews.Find.{find_root_found}

-- the roots after `ra` is pointed to `rb`
abbrev joined : (rep : ℕ → ℕ) (ra rb : ℕ) → ℕ → ℕ
joined rep ra rb y = if rep y == ra then rb else rep y

abbrev deeper : (rep depth : ℕ → ℕ) (ra rb : ℕ) → ℕ → ℕ
deeper rep depth ra rb y = if rep y == ra then depth y + suc (depth rb) else depth y

-- A root may point to another one.
join-IsForest :
    (rep depth : ℕ → ℕ) (bound ra rb : ℕ) (parent : Table ℕ)
    → IsForest rep depth bound parent
    → is_some (get ra parent) ≡ true
    → get rb parent ≡ some rb
    → rep ra ≡ ra
    → (ra == rb) ≡ false
    → IsForest (joined rep ra rb) (deeper rep depth ra rb) (bound + suc bound) (update ra rb parent)
join-IsForest rep depth bound ra rb parent f ka top own n =
    let other : rep rb ≡ rb = f.root rb top in
    record {
      step = λ y q g m. elim (Bool-cases (ra == y)) [
        | inl same ↦
            let it : ra ≡ y = ground (arith, same) in
            let to : rb ≡ q = ground (arith, g, ka, same, get-update ra y rb parent) in
            subst
              (λ v.
                (deeper rep depth ra rb q < deeper rep depth ra rb v)
                × (joined rep ra rb q ≡ joined rep ra rb v)
                × (is_some (get q (update ra rb parent)) ≡ true))
              it
              (subst
                (λ v.
                  (deeper rep depth ra rb v < deeper rep depth ra rb ra)
                  × (joined rep ra rb v ≡ joined rep ra rb ra)
                  × (is_some (get v (update ra rb parent)) ≡ true))
                to
                (
                  ground (arith, other, own, n),
                  ground (arith, other, own, n),
                  ground (arith, top, ka, get-update ra rb rb parent),
                ))
        | inr away ↦
            let old : get y parent ≡ some q = ground (arith, g, away, get-update ra y rb parent) in
            let (less, same, key) = f.step y q old m in
            (
              ground (arith, less, same),
              ap (λ r. if r == ra then rb else r) same,
              ground (arith, key, ka, get-update ra q rb parent),
            )
      ];
      root = λ y g. elim (Bool-cases (ra == y)) [
        | inl same ↦ absurd (ground (arith, g, ka, same, n, get-update ra y rb parent))
        | inr away ↦
            let self : rep y ≡ y = f.root y (ground (arith, g, away, get-update ra y rb parent)) in
            ground (arith, self, away)
      ];
      absent = λ y g.
          let gone : get y parent ≡ none = ground (arith, g, ka, get-update ra y rb parent) in
          let self : rep y ≡ y = f.absent y gone in
          let away : (ra == y) ≡ false = ground (arith, g, ka, gone, get-update ra y rb parent) in
          ground (arith, self, away);
      shallow = λ y. ground (arith, f.shallow y, f.shallow rb);
    }

wider :
    (rep depth : ℕ → ℕ) (bound more : ℕ) (parent : Table ℕ)
    → bound ≤ more
    → IsForest rep depth bound parent
    → IsForest rep depth more parent
wider rep depth bound more parent le f = record {
  step = f.step;
  root = f.root;
  absent = f.absent;
  shallow = λ x. ground (arith, le, f.shallow x);
}

-- Actors that edges connect.
pub data Linked (edges : List (ℕ × ℕ)) : ℕ → ℕ → Type 0 where
  edge : (a b : ℕ) → Any (λ e. e ≡ (a, b)) edges → Linked edges a b
  alike : (a : ℕ) → Linked edges a a
  turned : {a b : ℕ} → Linked edges a b → Linked edges b a
  through : {a b c : ℕ} → Linked edges a b → Linked edges b c → Linked edges a c

-- the depth that unions reach at most, and with it the fuel that they need
unfoldable pub deepest : List (ℕ × ℕ) → ℕ → ℕ
deepest [] bound = bound
deepest (e ∷ edges) bound = deepest edges (bound + suc bound)

deepest_more : (edges : List (ℕ × ℕ)) (bound : ℕ) → bound ≤ deepest edges bound
unfolding deepest
deepest_more [] bound = ground arith
deepest_more (e ∷ edges) bound = ground (arith, deepest_more edges (bound + suc bound))

module _ (all_edges : List (ℕ × ℕ)) where
  -- A forest whose trees hold linked actors only.
  pub record IsSound (rep depth : ℕ → ℕ) (bound : ℕ) (parent : Table ℕ) : Type 0 where
    pub forest : IsForest rep depth bound parent
    pub linked : (x y : ℕ) → rep x ≡ rep y → Linked all_edges x y

  joined-Linked :
      (rep : ℕ → ℕ) (a b : ℕ)
      → ((x y : ℕ) → rep x ≡ rep y → Linked all_edges x y)
      → Linked all_edges a b
      → (x y : ℕ) → joined rep (rep a) (rep b) x ≡ joined rep (rep a) (rep b) y
      → Linked all_edges x y
  joined-Linked rep a b s l x y h = elim (Bool-cases (rep x == rep a)) [
    | inl p ↦ elim (Bool-cases (rep y == rep a)) [
      | inl q ↦ s x y (ground (arith, p, q))
      | inr q ↦ through (s x a (ground (arith, p))) (through l (s b y (ground (arith, h, p, q))))
    ]
    | inr p ↦ elim (Bool-cases (rep y == rep a)) [
      | inl q ↦
          through (s x b (ground (arith, h, p, q))) (through (turned l) (s a y (ground (arith, q))))
      | inr q ↦ s x y (ground (arith, h, p, q))
    ]
  ]

  -- one union, of two actors that are linked
  abbrev Unites : (rep : ℕ → ℕ) (bound a b : ℕ) → Option (Table ℕ) → Type 0
  Unites rep bound a b o =
      (after : Table ℕ) × (rep' : ℕ → ℕ) × (depth' : ℕ → ℕ) × (o ≡ some after)
      × IsSound rep' depth' (bound + suc bound) after
      × ((x y : ℕ) → rep x ≡ rep y → rep' x ≡ rep' y)
      × (rep' a ≡ rep' b)

  union_found :
      (rep depth : ℕ → ℕ) (bound fuel a b : ℕ) (parent : Table ℕ)
      → IsSound rep depth bound parent
      → Linked all_edges a b
      → bound < fuel
      → Unites rep bound a b (union_roots fuel a b parent)
  unfolding union_roots
  union_found rep depth bound fuel a b parent s l lt =
      let (first, ea, fa, keys, ta, ka) =
        find_root_found rep depth bound fuel a parent s.forest lt in
      let (second, eb, fb, keys', tb, kb) = find_root_found rep depth bound fuel b first fa lt in
      elim (Bool-cases (rep a == rep b)) [
        | inl y ↦ (
          second,
          rep,
          depth,
          rw (union_roots, ea, eb, y) refl,
          record { forest = wider rep depth bound _ second (ground arith) fb; linked = s.linked },
          (λ v w h. h),
          ground (arith, y),
        )
        | inr n ↦
            let own : rep (rep a) ≡ rep a = fa.root (rep a) ta in
            let own' : rep (rep b) ≡ rep b = fb.root (rep b) tb in
            let key : is_some (get (rep a) second) ≡ true = keys' (rep a) (ground (arith, ta)) in
            (
              update (rep a) (rep b) second,
              joined rep (rep a) (rep b),
              deeper rep depth (rep a) (rep b),
              rw (union_roots, ea, eb, n) refl,
              record {
                forest = join-IsForest rep depth bound (rep a) (rep b) second fb key tb own n;
                linked = joined-Linked rep a b s.linked l;
              },
              (λ v w h. ap (λ r. if r == rep a then rep b else r) h),
              ground (arith, n),
            )
      ]

  -- the unions of some of the edges
  abbrev UnitesAll : List (ℕ × ℕ) → (rep : ℕ → ℕ) (bound : ℕ) → Option (Table ℕ) → Type 0
  UnitesAll edges rep bound o =
      (after : Table ℕ) × (rep' : ℕ → ℕ) × (depth' : ℕ → ℕ) × (o ≡ some after)
      × IsSound rep' depth' (deepest edges bound) after
      × ((x y : ℕ) → rep x ≡ rep y → rep' x ≡ rep' y)
      × All (λ e. rep' e.0 ≡ rep' e.1) edges

  pub union_all_found :
      (fuel : ℕ) (edges : List (ℕ × ℕ)) (rep depth : ℕ → ℕ) (bound : ℕ) (parent : Table ℕ)
      → IsSound rep depth bound parent
      → All (λ e. Any (λ x. x ≡ e) all_edges) edges
      → deepest edges bound < fuel
      → UnitesAll edges rep bound (union_all fuel edges parent)
  unfolding union_all deepest
  union_all_found fuel [] rep depth bound parent s among lt =
      (parent, rep, depth, refl, s, (λ x y h. h), tt)
  union_all_found fuel ((a, b) ∷ edges) rep depth bound parent s among lt =
      let enough : bound < fuel = ground (arith, lt, deepest_more edges (bound + suc bound)) in
      let (mid, rep', depth', e, s', kept, one) =
        union_found rep depth bound fuel a b parent s (edge a b among.0) enough in
      let (after, rep'', depth'', e', s'', kept', each) =
        union_all_found fuel edges rep' depth' (bound + suc bound) mid s' among.1 lt in
      (
        after,
        rep'',
        depth'',
        rw (union_all, e) e',
        s'',
        (λ x y h. kept' x y (kept x y h)),
        (kept' a b one, each),
      )
