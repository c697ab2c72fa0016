-- ===== src/Linker/Crews/Forest.antt =====
-- Parents that form a forest (eyenet/linker/crews.py).
use eyenet.Common.{
  ℕ, zero, suc, ◌≤◌, ◌<◌, ◌≡◌, ◌≢◌, refl, sym, ap, ◌∙◌, true, false, none, some, arith, is_some,
  ◌==◌, Bool-cases, Option-cases, inl, inr,
}
use mathlib.Core.Path.{subst}
use eyenet.Storage.Table.{Table, get, update, get-update, get-append}
use eyenet.Linker.Crews.{setdefault, climb}

-- Every actor has a root, `rep`; a parent is nearer to it, by `depth`, and is a key again.
pub record IsForest (rep depth : ℕ → ℕ) (bound : ℕ) (parent : Table ℕ) : Type 0 where
  pub step :
      (x q : ℕ)
      → get x parent ≡ some q
      → q ≢ x
      → (depth q < depth x) × (rep q ≡ rep x) × (is_some (get q parent) ≡ true)
  pub root : (x : ℕ) → get x parent ≡ some x → rep x ≡ x
  pub absent : (x : ℕ) → get x parent ≡ none → rep x ≡ x
  pub shallow : (x : ℕ) → depth x ≤ bound

pub apart : (x y : ℕ) → (x == y) ≡ false → x ≢ y
apart x y n e = ground (arith, n, e)

module _ (rep depth : ℕ → ℕ) (bound : ℕ) where
  pub setdefault-IsForest :
      (x : ℕ) (parent : Table ℕ)
      → IsForest rep depth bound parent
      → IsForest rep depth bound (setdefault x parent)
  unfolding setdefault
  setdefault-IsForest x parent f = elim (Option-cases (get x parent)) [
    | inr (q, e) ↦ rw (setdefault, e) f
    | inl e ↦
        rw (setdefault, e)
          (record {
            step = λ y q g n.
                let old : get y parent ≡ some q =
                  ground (arith, g, n, e, get-append parent x y x) in
                let (less, same, key) = f.step y q old n in
                (less, same, ground (arith, key, get-append parent x q x));
            root = λ y g. elim (Option-cases (get y parent)) [
              | inl gone ↦ f.absent y gone
              | inr (q, h) ↦ f.root y (ground (arith, g, h, get-append parent x y x))
            ];
            absent = λ y g. f.absent y (ground (arith, g, get-append parent x y x));
            shallow = f.shallow;
          })
  ]

  pub setdefault_key : (x : ℕ) (parent : Table ℕ) → is_some (get x (setdefault x parent)) ≡ true
  unfolding setdefault
  setdefault_key x parent = elim (Option-cases (get x parent)) [
    | inr (q, e) ↦ rw (setdefault, e) (ground (arith, e))
    | inl e ↦ rw (setdefault, e) (ground (arith, e, get-append parent x x x))
  ]

  pub setdefault_keys :
      (x y : ℕ) (parent : Table ℕ)
      → is_some (get y parent) ≡ true
      → is_some (get y (setdefault x parent)) ≡ true
  unfolding setdefault
  setdefault_keys x y parent h = elim (Option-cases (get x parent)) [
    | inr (q, e) ↦ rw (setdefault, e) h
    | inl e ↦ rw (setdefault, e) (ground (arith, h, get-append parent x y x))
  ]

  module _ (parent : Table ℕ) (f : IsForest rep depth bound parent) where
    -- The climb ends in the root.
    pub climb_found :
        (fuel x : ℕ)
        → is_some (get x parent) ≡ true
        → depth x < fuel
        → (climb fuel x parent ≡ some (rep x))
          × (get (rep x) parent ≡ some (rep x))
          × (depth (rep x) ≤ depth x)
    unfolding climb
    climb_found zero x k lt = absurd (ground (arith, lt))
    climb_found (suc fuel) x k lt = elim (Option-cases (get x parent)) [
      | inl e ↦ absurd (ground (arith, k, e))
      | inr (q, e) ↦ elim (Bool-cases (q == x)) [
        | inl y ↦
            let top : get x parent ≡ some x = ground (arith, e, y) in
            let same : rep x ≡ x = f.root x top in
            let done : climb (suc fuel) x parent ≡ some x = rw (climb, e, y) refl in
            (
              done ∙ ap (λ r. some r) (sym same),
              subst (λ r. get r parent ≡ some r) (sym same) top,
              subst (λ r. depth r ≤ depth x) (sym same) (ground arith),
            )
        | inr n ↦
            let (less, same, key) = f.step x q e (apart q x n) in
            let (found, top, near) = climb_found fuel q key (ground (arith, lt, less)) in
            let next : climb (suc fuel) x parent ≡ climb fuel q parent = rw (climb, e, n) refl in
            (
              next ∙ found ∙ ap (λ r. some r) same,
              subst (λ r. get r parent ≡ some r) same top,
              subst (λ r. depth r ≤ depth x) same (ground (arith, near, less)),
            )
      ]
    ]

    -- The root of a parent that is not the actor itself is strictly nearer.
    above_root : (x q : ℕ) → get x parent ≡ some q → q ≢ x → depth (rep x) < depth x
    above_root x q e n =
        let (less, same, key) = f.step x q e n in
        let (found, top, near) = climb_found (suc (depth q)) q key (ground arith) in
        subst (λ r. depth r < depth x) same (ground (arith, near, less))

    -- An actor that is not a root may point to its root.
    pub update-IsForest :
        (x q : ℕ)
        → get x parent ≡ some q
        → q ≢ x
        → get (rep x) parent ≡ some (rep x)
        → IsForest rep depth bound (update x (rep x) parent)
    update-IsForest x q e n top = record {
      step = λ y r g m. elim (Bool-cases (x == y)) [
        | inl same ↦
            let it : x ≡ y = ground (arith, same) in
            let to : rep x ≡ r = ground (arith, g, e, same, get-update x y (rep x) parent) in
            subst
              (λ v.
                (depth r < depth v)
                × (rep r ≡ rep v)
                × (is_some (get r (update x (rep x) parent)) ≡ true))
              it
              (subst
                (λ v.
                  (depth v < depth x)
                  × (rep v ≡ rep x)
                  × (is_some (get v (update x (rep x) parent)) ≡ true))
                to
                (
                  above_root x q e n,
                  f.root (rep x) top,
                  ground (arith, top, e, get-update x (rep x) (rep x) parent),
                ))
        | inr other ↦
            let old : get y parent ≡ some r =
              ground (arith, g, other, get-update x y (rep x) parent) in
            let (less, same, key) = f.step y r old m in
            (less, same, ground (arith, key, e, get-update x r (rep x) parent))
      ];
      root = λ y g. elim (Bool-cases (x == y)) [
        | inl same ↦
            let it : x ≡ y = ground (arith, same) in
            let to : rep x ≡ y = ground (arith, g, e, same, get-update x y (rep x) parent) in
            ap rep (sym it) ∙ to
        | inr other ↦ f.root y (ground (arith, g, other, get-update x y (rep x) parent))
      ];
      absent = λ y g. f.absent y (ground (arith, g, e, get-update x y (rep x) parent));
      shallow = f.shallow;
    }
