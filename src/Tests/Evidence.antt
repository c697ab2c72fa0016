-- ===== src/Tests/Evidence.antt =====
-- Reclassification and settlement at concrete inputs.
use eyenet.Common.{◌≡◌, refl, true, false, none, some, [], ◌∷◌, arith}
use eyenet.Tier.{SensitivityTier, normal, restricted, classified, ◌⊑◌}
use eyenet.Storage.Table.{get}
use eyenet.Storage.Audit.{Origin, reclassify_document as document_reclassified}
use eyenet.Storage.Evidence.{
  effective, DocumentRow, Evidence, Settlement, Request, reclassify_document,
  settle_document_classification,
}
use eyenet.Storage.Evidence.Monotone.{IsMonotone, reclassify_document_raises, documents-IsMonotone}

abbrev origin : Origin
origin = record { service = "api"; instance_id = "i1"; trace_id = none; span_id = none }

abbrev request : SensitivityTier → Request
request tier = record {
  subject_id = 7;
  new_tier = tier;
  operator_user_id = 1;
  reason = "names a live source";
  grant_id = 3;
  fingerprint = "f";
  viewing_context = none;
  case_refs = [];
  at = 100;
  origin = origin;
}

abbrev row : DocumentRow
row = record {
  sha256 = "ab12";
  doc_kind = some "pdf";
  extracted_text = none;
  embedded_meta = "{}";
  classification = "{}";
  review_required = false;
  ingested_at = 50;
  tiers = record { classifier_tier = normal; operator_tier_override = some restricted };
}

abbrev store : Evidence
store = record {
  documents = (7, row) ∷ [];
  attachments = [];
  observations = [];
  log = record { audit = []; syslog = [] };
}

abbrev settlement : Settlement
settlement = record {
  tier = classified;
  doc_kind = some "pdf";
  extracted_text = some "text";
  embedded_meta = "{}";
  classification = "{}";
  review_required = false;
  ingested_at = 60;
}

found : get 7 store.documents ≡ some row
unfolding get
found = refl

store-IsMonotone : IsMonotone store
unfolding get
store-IsMonotone = record { checked = λ j r h. ground (arith, h) }

reclassify_document_raises_example :
    let s' = (reclassify_document (request classified) 1 true store).1 in
    (r' : DocumentRow) × (get 7 s'.documents ≡ some r')
    × (effective row.tiers ⊑ effective r'.tiers)
    × (r'.tiers.classifier_tier ≡ normal)
reclassify_document_raises_example =
    reclassify_document_raises (request classified) 1 true store 7 row found

documents-IsMonotone_example :
    IsMonotone (reclassify_document (request classified) 1 true store).1
    × IsMonotone (settle_document_classification 7 settlement store).1
documents-IsMonotone_example =
    documents-IsMonotone (request classified) 1 true 7 settlement store store-IsMonotone
