-- ===== src/Linker/Crews/Find.antt =====
-- `find` of eyenet/linker/crews.py on parents that form a forest.
use eyenet.Common.{
  ℕ, zero, suc, ◌<◌, ◌≡◌, ◌≢◌, refl, sym, ◌∙◌, true, Option, some, arith, is_some, ◌==◌, Bool-cases,
  Option-cases, inl, inr,
}
use mathlib.Core.Path.{subst}
use eyenet.Storage.Table.{Table, get, update, get-update}
use eyenet.Linker.Crews.{setdefault, compress, find_root}
use eyenet.Linker.Crews.Forest.{
  IsForest, apart, setdefault-IsForest, setdefault_key, setdefault_keys, climb_found,
  update-IsForest,
}

-- The same actors are keys.
abbrev pub HasKeysOf : Table ℕ → Table ℕ → Type 0
HasKeysOf parent after = (y : ℕ) → is_some (get y parent) ≡ true → is_some (get y after) ≡ true

module _ (rep depth : ℕ → ℕ) (bound : ℕ) where
  -- The compression ends, and keeps the roots.
  abbrev Compresses : Table ℕ → Option (Table ℕ) → ℕ → Type 0
  Compresses parent o root =
      (after : Table ℕ) × (o ≡ some after)
      × IsForest rep depth bound after
      × HasKeysOf parent after
      × (get root after ≡ some root)

  compress_found :
      (fuel x : ℕ) (parent : Table ℕ)
      → IsForest rep depth bound parent
      → is_some (get x parent) ≡ true
      → get (rep x) parent ≡ some (rep x)
      → depth x < fuel
      → Compresses parent (compress fuel x (rep x) parent) (rep x)
  unfolding compress
  compress_found zero x parent f k top lt = absurd (ground (arith, lt))
  compress_found (suc fuel) x parent f k top lt = elim (Option-cases (get x parent)) [
    | inl e ↦ absurd (ground (arith, k, e))
    | inr (q, e) ↦ elim (Bool-cases (q == rep x)) [
      | inl y ↦ (parent, rw (compress, e, y) refl, f, (λ v h. h), top)
      | inr n ↦
          let below : q ≢ x = λ h.
            let self : rep x ≡ x = f.root x (subst (λ v. get x parent ≡ some v) h e) in
            apart q (rep x) n (h ∙ sym self) in
          let (less, same, key) = f.step x q e below in
          let mid = update x (rep x) parent in
          let forest = update-IsForest rep depth bound parent f x q e below top in
          let kept : (y : ℕ) → is_some (get y parent) ≡ true → is_some (get y mid) ≡ true =
            λ y h. ground (arith, h, e, get-update x y (rep x) parent) in
          let top' : get (rep x) mid ≡ some (rep x) =
            ground (arith, top, e, get-update x (rep x) (rep x) parent) in
          let next : compress (suc fuel) x (rep x) parent ≡ compress fuel q (rep x) mid =
            rw (compress, e, n) refl in
          let rest : Compresses mid (compress fuel q (rep x) mid) (rep x) =
            subst (λ r. Compresses mid (compress fuel q r mid) r) same
              (compress_found fuel q mid forest (kept q key)
                (subst (λ r. get r mid ≡ some r) (sym same) top') (ground (arith, lt, less))) in
          let (after, found, forest', keys, last) = rest in
          (after, next ∙ found, forest', (λ y h. keys y (kept y h)), last)
    ]
  ]

  -- The call gives the actor's root, and leaves a forest with the same roots.
  abbrev pub Finds : ℕ → Table ℕ → Option (ℕ × Table ℕ) → Type 0
  Finds x parent o =
      (after : Table ℕ) × (o ≡ some (rep x, after))
      × IsForest rep depth bound after
      × HasKeysOf parent after
      × (get (rep x) after ≡ some (rep x))
      × (is_some (get x after) ≡ true)

  pub find_root_found :
      (fuel x : ℕ) (parent : Table ℕ)
      → IsForest rep depth bound parent
      → bound < fuel
      → Finds x parent (find_root fuel x parent)
  unfolding find_root
  find_root_found fuel x parent f lt =
      let first = setdefault x parent in
      let forest = setdefault-IsForest rep depth bound x parent f in
      let key = setdefault_key rep depth bound x parent in
      let enough : depth x < fuel = ground (arith, lt, f.shallow x) in
      let (found, top, near) = climb_found rep depth bound first forest fuel x key enough in
      let (after, done, forest', keys, last) = compress_found fuel x first forest key top enough in
      (
        after,
        rw (find_root, found, done) refl,
        forest',
        (λ y h. keys y (setdefault_keys rep depth bound x y parent h)),
        last,
        keys x key,
      )
