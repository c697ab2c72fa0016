-- ===== src/Journal/Chain.antt =====
-- Hash chains over table rows: the append of eyenet/storage/sqlite_repo/repository.py, the walk and
-- the genesis of eyenet/contracts/audit.py, the journal's own walk of
-- eyenet/storage/sqlmodel_repo/file_access.py, and the answer of
-- eyenet/api/v1/audit/api_verify_audit.py. The digest (SHA-256 over the row's canonical bytes and
-- the previous hash), the genesis hash and the test of two hashes are parameters: the two chains
-- differ in them.
pub mod Laws
pub mod Breaks
pub mod Tamper
use eyenet.Common.{
  ℕ, zero, suc, Bool, true, false, not, Option, none, some, List, [], ◌∷◌, ◌++◌, leb, ltb, length,
  get_elem?, if◌then◌else◌,
}
use eyenet.Common.Sorting.{sort}

-- A stored row: what is hashed, the two hashes, and the `seq` column.
pub record Link (R H : Type 0) : Type 0 where
  pub row : R
  pub prev_hash : H
  pub self_hash : H
  pub seq : ℕ

module _ {R H : Type 0} where
  -- `ORDER BY seq DESC LIMIT 1`
  unfoldable pub newest : List (Link R H) → Option (Link R H)
  newest [] = none
  newest (l ∷ ls) = elim (newest ls) [
    | none ↦ some l
    | some m ↦ if ltb l.seq m.seq then some m else some l
  ]

  -- `ORDER BY seq ASC`
  abbrev pub in_seq_order : List (Link R H) → List (Link R H)
  in_seq_order t = sort (λ a b. leb a.seq b.seq) t

  -- the rows put on a chain, without their hashes
  abbrev pub contents : List (Link R H) → List R
  contents [] = []
  contents (l ∷ ls) = l.row ∷ contents ls

  abbrev pub head_hash : H → Option (Link R H) → H
  head_hash genesis none = genesis
  head_hash genesis (some l) = l.self_hash

  abbrev pub next_seq : Option (Link R H) → ℕ
  next_seq none = 1
  next_seq (some l) = suc l.seq

module _ {R H : Type 0} (genesis : H) (digest : R → H → H) where
  abbrev pub next_link : R → Option (Link R H) → Link R H
  next_link row last = record {
    row = row;
    prev_hash = head_hash genesis last;
    self_hash = digest row (head_hash genesis last);
    seq = next_seq last;
  }

  unfoldable pub append_chain : R → List (Link R H) → List (Link R H)
  append_chain row t = t ++ next_link row (newest t) ∷ []

  -- the rows appended one after the other
  unfoldable pub append_all : List R → List (Link R H) → List (Link R H)
  append_all [] t = t
  append_all (row ∷ rows) t = append_all rows (append_chain row t)

  module _ (same : H → H → Bool) where
    unfoldable pub walk : H → ℕ → List (Link R H) → Bool × Option ℕ
    walk expected_prev idx [] = (true, none)
    walk expected_prev idx (l ∷ ls) =
        let rest = walk l.self_hash (suc idx) ls in
        if not (same l.prev_hash expected_prev)
        then (false, some idx)
        else if not (same l.self_hash (digest l.row l.prev_hash))
        then (false, some idx)
        else rest

    abbrev pub verify_chain : List (Link R H) → Bool × Option ℕ
    verify_chain rows = walk genesis 0 rows

    -- the walk of `verify_file_access_chain`, which hashes with the hash it expects
    unfoldable pub journal_walk : H → List (Link R H) → Bool
    journal_walk expected_prev [] = true
    journal_walk expected_prev (l ∷ ls) =
        let rest = journal_walk l.self_hash ls in
        if not (same l.prev_hash expected_prev)
        then false
        else if not (same (digest l.row expected_prev) l.self_hash)
        then false
        else rest

    abbrev pub verify_file_access_chain : List (Link R H) → Bool
    verify_file_access_chain t = journal_walk genesis (in_seq_order t)

-- the schema `AuditChainBreak`
pub record ChainBreak (H : Type 0) : Type 0 where
  pub event_id : ℕ
  pub expected_hash : H
  pub actual_hash : H

-- the schema `AuditVerifyResult`
pub record VerifyResult (H : Type 0) : Type 0 where
  pub verified : Bool
  pub rows_checked : ℕ
  pub first_break : Option (ChainBreak H)

-- the hash of the row before `idx`
abbrev pub before : {R H : Type 0} → H → List (Link R H) → ℕ → H
before genesis rows zero = genesis
before genesis rows (suc i) = head_hash genesis (get_elem? rows i)

module _ {R H : Type 0} (genesis : H) (digest : R → H → H) (same : H → H → Bool) (id : R → ℕ) where
  abbrev pub explain : List (Link R H) → ℕ → Option (Link R H) → Option (ChainBreak H)
  explain rows idx none = none
  explain rows idx (some broken) =
      let recomputed = digest broken.row broken.prev_hash in
      some (
        if not (same broken.self_hash recomputed)
        then record {
          event_id = id broken.row;
          expected_hash = recomputed;
          actual_hash = broken.self_hash;
        }
        else record {
          event_id = id broken.row;
          expected_hash = before genesis rows idx;
          actual_hash = broken.prev_hash;
        })

  abbrev pub first_break_of : List (Link R H) → Bool × Option ℕ → Option (ChainBreak H)
  first_break_of rows (ok, none) = none
  first_break_of rows (ok, some idx) =
      let found = explain rows idx (get_elem? rows idx) in if ok then none else found

  unfoldable pub audit_verify : List (Link R H) → VerifyResult H
  audit_verify t =
      let rows = in_seq_order t in
      let verdict = verify_chain genesis digest same rows in
      record {
        verified = verdict.0;
        rows_checked = length rows;
        first_break = first_break_of rows verdict;
      }
