-- ===== src/Storage/Evidence/Monotone.antt =====
-- Effective tiers under the writers of documents (eyenet/storage/sqlmodel_repo/documents.py).
use eyenet.Common.{
  ◌==◌, ◌∙◌, ℕ, ◌<◌, ◌≡◌, refl, ◌≢◌, ◌⊎◌, inl, inr, Bool, true, some, arith, ltb, length,
  Bool-cases, Option-cases,
}
use eyenet.Common.Text.{chars}
use eyenet.Tier.{SensitivityTier, tier_order, ◌⊑◌}
use eyenet.Tier.Laws.{same_tier_iff, ⊑-antisym}
use eyenet.Storage.Table.{get, update, get-update}
use eyenet.Storage.Evidence.{
  effective, tier_monotone_ck, DocumentRow, Evidence, err, integrity_error, Settlement, settled,
  settle_document_classification, Request, with_override, reclassify_document,
}

abbrev overridden : DocumentRow → SensitivityTier → DocumentRow
overridden r tier = record r { tiers = with_override r.tiers tier }

-- A call leaves the documents as they were, or it overrides one row with a strictly higher tier that
-- the check allows.
documents-reclassify_document :
    (req : Request) (audit_id : ℕ) (up : Bool) (s : Evidence)
    → let s' = (reclassify_document req audit_id up s).1 in
      (s'.documents ≡ s.documents)
      ⊎ ((r : DocumentRow) × (get req.subject_id s.documents ≡ some r)
          × (s'.documents ≡ update req.subject_id (overridden r req.new_tier) s.documents)
          × (tier_order (effective r.tiers) < tier_order req.new_tier)
          × (tier_monotone_ck (with_override r.tiers req.new_tier) ≡ true))
unfolding reclassify_document
documents-reclassify_document req audit_id up s =
    elim (Bool-cases (ltb (length (chars req.reason)) 16)) [
      | inl short ↦ inl (ground (arith, short))
      | inr long ↦ elim (Option-cases (get req.subject_id s.documents)) [
        | inl e ↦ inl (ground (arith, long, e))
        | inr (r, e) ↦
            elim (Bool-cases (ltb (tier_order (effective r.tiers)) (tier_order req.new_tier))) [
              | inr low ↦ inl (
                  ground (
                    arith,
                    long,
                    e,
                    low,
                    same_tier_iff req.new_tier (effective r.tiers),
                    ⊑-antisym req.new_tier (effective r.tiers),
                  ))
              | inl high ↦
                  elim (Bool-cases (tier_monotone_ck (with_override r.tiers req.new_tier))) [
                    | inr bad ↦ inl (ground (arith, long, e, high, bad))
                    | inl good ↦ inr (
                      r,
                      e,
                      ground (
                        arith,
                        long,
                        e,
                        high,
                        good,
                        same_tier_iff req.new_tier (effective r.tiers),
                      ),
                      ground (arith, high),
                      good,
                    )
                  ]
            ]
      ]
    ]

-- Whatever the request and its outcome, each document stays in the table, with its classifier tier, at
-- the same or a higher effective tier; and the other tables are as they were.
pub reclassify_document_raises :
    (req : Request) (audit_id : ℕ) (up : Bool) (s : Evidence) (j : ℕ) (r : DocumentRow)
    → get j s.documents ≡ some r
    → let s' = (reclassify_document req audit_id up s).1 in
      (r' : DocumentRow) × (get j s'.documents ≡ some r')
      × (effective r.tiers ⊑ effective r'.tiers)
      × (r'.tiers.classifier_tier ≡ r.tiers.classifier_tier)
reclassify_document_raises req audit_id up s j r h =
    elim (documents-reclassify_document req audit_id up s) [
      | inl e ↦ (r, rw e h, omega arith, refl)
      | inr (o, g, e, lt, ck) ↦ elim (Bool-cases (req.subject_id == j)) [
        | inr other ↦ (
          r,
          rw e (get-update req.subject_id j _ s.documents ∙ ground (arith, other, h)),
          omega arith,
          refl,
        )
        | inl same ↦
            let there : get req.subject_id s.documents ≡ some r = ground (arith, same, h) in
            let o≡r : o ≡ r = ground (arith, g, there) in
            (
              overridden r req.new_tier,
              rw e (get-update req.subject_id j _ s.documents ∙ ground (arith, same, g, o≡r)),
              ground (arith, lt, o≡r),
              refl,
            )
      ]
    ]

documents-settle_document :
    (id : ℕ) (v : Settlement) (s : Evidence)
    → let s' = (settle_document_classification id v s).1 in
      (s'.documents ≡ s.documents)
      ⊎ ((r : DocumentRow) × (get id s.documents ≡ some r)
          × (s'.documents ≡ update id (settled v r) s.documents)
          × (tier_monotone_ck (settled v r).tiers ≡ true))
unfolding settle_document_classification
documents-settle_document id v s = elim (Option-cases (get id s.documents)) [
  | inl e ↦ inl (ground (arith, e))
  | inr (r, e) ↦ elim (Bool-cases (tier_monotone_ck (settled v r).tiers)) [
    | inl good ↦ inr (r, e, ground (arith, e, good), good)
    | inr bad ↦ inl (ground (arith, e, bad))
  ]
]

-- Every document passes the table's check.
pub record IsMonotone (s : Evidence) : Type 0 where
  pub checked :
      (j : ℕ) (r : DocumentRow) → get j s.documents ≡ some r → tier_monotone_ck r.tiers ≡ true

-- Both writers keep the check true for every document, on every branch.
pub documents-IsMonotone :
    (req : Request) (audit_id : ℕ) (up : Bool) (id : ℕ) (v : Settlement) (s : Evidence)
    → IsMonotone s
    → IsMonotone (reclassify_document req audit_id up s).1
      × IsMonotone (settle_document_classification id v s).1
documents-IsMonotone req audit_id up id v s m = (after_reclassify, after_settle)
  where
    after_reclassify : IsMonotone (reclassify_document req audit_id up s).1
    after_reclassify = record {
      checked = λ j r h. elim (documents-reclassify_document req audit_id up s) [
        | inl e ↦ m.checked j r (rw e at h)
        | inr (o, g, e, lt, ck) ↦ ground (
          arith,
          h,
          e,
          g,
          ck,
          m.checked j r,
          get-update req.subject_id j (overridden o req.new_tier) s.documents,
        )
      ];
    }

    after_settle : IsMonotone (settle_document_classification id v s).1
    after_settle = record {
      checked = λ j r h. elim (documents-settle_document id v s) [
        | inl e ↦ m.checked j r (rw e at h)
        | inr (o, g, e, ck) ↦
            ground (arith, h, e, g, ck, m.checked j r, get-update id j (settled v o) s.documents)
      ];
    }

-- Under the check, a reclassification is never refused by the database.
pub reclassify_document_integrity :
    (req : Request) (audit_id : ℕ) (up : Bool) (s : Evidence)
    → IsMonotone s
    → (reclassify_document req audit_id up s).0 ≢ err integrity_error
unfolding reclassify_document
reclassify_document_integrity req audit_id up s m =
    elim (Option-cases (get req.subject_id s.documents)) [
      | inl e ↦ ground (arith, e)
      | inr (r, e) ↦ ground (
        arith,
        e,
        m.checked req.subject_id r e,
        same_tier_iff req.new_tier (effective r.tiers),
        ⊑-antisym req.new_tier (effective r.tiers),
      )
    ]
