-- ===== src/Storage/Clearance/Expiry.antt =====
-- The expiry sweep (`expire_due_clearances` of eyenet/storage/sqlmodel_repo/clearance.py).
use eyenet.Common.{
  ℕ, ◌≡◌, refl, sym, ap, ◌∙◌, Bool, true, false, List, [], ◌∷◌, ◌++◌, arith, ◌==◌, ◌||◌, any, All,
  keep_if, inl, inr, Bool-cases,
}
use mathlib.Core.List.{append_assoc}
use mathlib.Core.Path.{subst}
use eyenet.Storage.Audit.{Origin, AuditRow, AuditLog, audit_or_warn}
use eyenet.Storage.Clearance.{
  Grant, Store, ok, expired_id, already_expired_ids, expired_row, emit_each, is_due,
  expire_due_clearances,
}

abbrev pub is_listed : List ℕ → ℕ → Bool
is_listed ids id = any (λ i. id == i) ids

-- `ids` are reported by the log.
abbrev IsReported : AuditLog → ℕ → Type 0
IsReported log id = is_listed (already_expired_ids log.audit) id ≡ true

listed-append :
    (xs ys : List ℕ) (id : ℕ) → is_listed (xs ++ ys) id ≡ (is_listed xs id || is_listed ys id)
listed-append [] ys id = refl
listed-append (x ∷ xs) ys id = ground (arith, listed-append xs ys id)

expired_ids-append :
    (a b : List AuditRow)
    → already_expired_ids (a ++ b) ≡ already_expired_ids a ++ already_expired_ids b
unfolding already_expired_ids
expired_ids-append [] b = refl
expired_ids-append (row ∷ a) b =
    ap (λ r. expired_id row.payload ++ r) (expired_ids-append a b)
    ∙ sym (append_assoc (expired_id row.payload) (already_expired_ids a) (already_expired_ids b))

module _ (origin : Origin) (now : ℕ) (audit_id : ℕ → ℕ) where
  -- Where every row is listed, nothing is emitted.
  emit_each-quiet :
      (up : Bool) (already : List ℕ) (rows : List (ℕ × Grant)) (log : AuditLog)
      → All (λ row. is_listed already row.0 ≡ true) rows
      → emit_each origin now audit_id up already rows log ≡ (ok [], log)
  unfolding emit_each
  emit_each-quiet up already [] log h = refl
  emit_each-quiet up already (row ∷ rows) log h = rw h.0 (emit_each-quiet up already rows log h.1)

  new_listed :
      (audit : ℕ) (row : ℕ × Grant)
      → is_listed (already_expired_ids (expired_row origin now audit row ∷ [])) row.0 ≡ true
  unfolding already_expired_ids
  new_listed audit row = ground arith

  abbrev Reports : AuditLog → List (ℕ × Grant) → AuditLog → Type 0
  Reports log rows log' =
      ((id : ℕ) → IsReported log id → IsReported log' id) × All (λ row. IsReported log' row.0) rows

  abbrev sweep : List ℕ → List (ℕ × Grant) → AuditLog → AuditLog
  sweep already rows log = (emit_each origin now audit_id true already rows log).1

  emit_skip :
      (already : List ℕ) (row : ℕ × Grant) (rows : List (ℕ × Grant)) (log : AuditLog)
      → is_listed already row.0 ≡ true
      → sweep already (row ∷ rows) log ≡ sweep already rows log
  unfolding emit_each
  emit_skip already row rows log y = rw (sweep, emit_each, y) refl

  emit_new :
      (already : List ℕ) (row : ℕ × Grant) (rows : List (ℕ × Grant)) (log : AuditLog)
      → is_listed already row.0 ≡ false
      → sweep already (row ∷ rows) log
        ≡ sweep already rows (audit_or_warn true (expired_row origin now (audit_id row.0) row) log)
  unfolding emit_each
  emit_new already row rows log n = rw (sweep, emit_each, n) refl

  -- A sweep reports all its rows, and keeps what was reported before.
  emit_each-Reports :
      (already : List ℕ) (rows : List (ℕ × Grant)) (log : AuditLog)
      → ((id : ℕ) → is_listed already id ≡ true → IsReported log id)
      → Reports log rows (sweep already rows log)
  unfolding emit_each audit_or_warn
  emit_each-Reports already [] log h = ((λ id k. k), tt)
  emit_each-Reports already (row ∷ rows) log h = elim (Bool-cases (is_listed already row.0)) [
    | inl y ↦
        let rest = emit_each-Reports already rows log h in
        subst (Reports log (row ∷ rows)) (sym (emit_skip already row rows log y))
          (rest.0, (rest.0 row.0 (h row.0 y), rest.1))
    | inr n ↦
        let log' = audit_or_warn true (expired_row origin now (audit_id row.0) row) log in
        let kept : (id : ℕ) → IsReported log id → IsReported log' id =
          λ id k. listed_on log.audit _ id k in
        let rest = emit_each-Reports already rows log' (λ id k. kept id (h id k)) in
        subst (Reports log (row ∷ rows)) (sym (emit_new already row rows log n))
          ((λ id k. rest.0 id (kept id k)), (rest.0 row.0 (reported log.audit row), rest.1))
  ]
    where
      listed_on :
          (a b : List AuditRow) (id : ℕ)
          → is_listed (already_expired_ids a) id ≡ true
          → is_listed (already_expired_ids (a ++ b)) id ≡ true
      listed_on a b id k =
          rw
            (
              expired_ids-append a b,
              listed-append (already_expired_ids a) (already_expired_ids b) id,
              k,
            )
            refl

      reported :
          (a : List AuditRow) (row : ℕ × Grant)
          → is_listed
              (already_expired_ids (a ++ expired_row origin now (audit_id row.0) row ∷ []))
              row.0
            ≡ true
      reported a row =
          let new = expired_row origin now (audit_id row.0) row ∷ [] in
          ap (λ ids. is_listed ids row.0) (expired_ids-append a new)
          ∙ listed-append (already_expired_ids a) (already_expired_ids new) row.0
          ∙ ground (arith, new_listed (audit_id row.0) row)

-- A sweep whose audit rows are all taken reports every due grant; run again at the same time, whether
-- the audit is up or not, it reports nothing and changes nothing.
pub expire_due_once :
    (origin : Origin) (now : ℕ) (audit_id audit_id' : ℕ → ℕ) (up : Bool) (s : Store)
    → let s' = (expire_due_clearances origin now audit_id true s).1 in
      All
        (λ row. is_listed (already_expired_ids s'.log.audit) row.0 ≡ true)
        (keep_if (is_due now) s.grants)
      × (expire_due_clearances origin now audit_id' up s' ≡ (ok [], s'))
unfolding expire_due_clearances
expire_due_once origin now audit_id audit_id' up s =
    let due = keep_if (is_due now) s.grants in
    let already = already_expired_ids s.log.audit in
    let log' = (emit_each origin now audit_id true already due s.log).1 in
    let reported = (emit_each-Reports origin now audit_id already due s.log (λ id k. k)).1 in
    (
      reported,
      ap (λ r. (r.0, record s { log = r.1 }))
          (emit_each-quiet origin now audit_id' up (already_expired_ids log'.audit) due log'
            reported),
    )
