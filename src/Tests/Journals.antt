-- ===== src/Tests/Journals.antt =====
-- Hash chains, framed bytes and the file-access journal at concrete inputs. The digest of a chain of
-- numbers puts the row in front of the previous hash; a signature is valid where it is the key.
use eyenet.Common.{
  ℕ, ◌≡◌, refl, sym, ap, ◌∙◌, ◌↔◌, ◌⊎◌, Bool, true, false, Option, none, some, List, [], ◌∷◌, ◌==◌,
  ==_iff, All, String, if◌then◌else◌, arith, Bool-cases, inl, inr,
}
use eyenet.Tier.{restricted}
use eyenet.Storage.Table.{get}
use eyenet.Journal.Chain.{
  Link, contents, newest, head_hash, in_seq_order, append_all, append_chain, walk, verify_chain,
  verify_file_access_chain, audit_verify,
}
use eyenet.Journal.Chain.Laws.{last_hash, append_all_verify}
use eyenet.Journal.Chain.Breaks.{Judges, verify_chain_iff, Explains, audit_verify_break}
use eyenet.Journal.Chain.Tamper.{head_hash_determines}
use eyenet.Journal.Framing.{
  Bytes, Canonical, of_challenge, canonical, encode_chars, frame_bytes, join_frames,
}
use eyenet.Journal.Framing.Injective.{canonical_only}
use eyenet.Journal.FileAccess.{
  AccessStore, PreparedRow, record_signing_key, record_acknowledgment, genesis_journal_hash,
}
use eyenet.Journal.FileAccess.Record.{AccessCall, record_access}
use eyenet.Journal.FileAccess.Gates.{Outcome, record_access_outcome}
use eyenet.Journal.FileAccess.Nonces.{empty_store, uses, is_consumed, is_ungranted}
use eyenet.Journal.FileAccess.Runs.{
  start, next, acknowledged, key_recorded, accessed, reachable_journal,
}

abbrev same_list : List ℕ → List ℕ → Bool
same_list [] [] = true
same_list (x ∷ xs) (y ∷ ys) = let rest = same_list xs ys in if x == y then rest else false
same_list _ _ = false

same_list_only : (a b : List ℕ) → same_list a b ≡ true → a ≡ b
same_list_only [] [] e = refl
same_list_only (x ∷ xs) (y ∷ ys) e = elim (Bool-cases (x == y)) [
  | inl same ↦
      ap (λ z. z ∷ xs) ((==_iff x y).0 same) ∙ ap (λ l. y ∷ l) (same_list_only xs ys (rw same at e))
  | inr other ↦ absurd (ground (arith, e, other))
]
same_list_only [] (y ∷ ys) e = absurd (ground (arith, e))
same_list_only (x ∷ xs) [] e = absurd (ground (arith, e))

same_list_refl : (a : List ℕ) → same_list a a ≡ true
same_list_refl [] = refl
same_list_refl (x ∷ xs) = ground (arith, same_list_refl xs)

same_list_iff : (a b : List ℕ) → (same_list a b ≡ true) ↔ (a ≡ b)
same_list_iff a b = (same_list_only a b, λ e. ap (same_list a) (sym e) ∙ same_list_refl a)

abbrev digest : ℕ → List ℕ → List ℕ
digest row prev = row ∷ prev

append_all_verify_example :
    let t = append_all [] digest (5 ∷ 7 ∷ []) [] in
    (contents (in_seq_order t) ≡ 5 ∷ 7 ∷ [])
    × (verify_chain [] digest same_list (in_seq_order t) ≡ (true, none))
    × (verify_file_access_chain [] digest same_list t ≡ true)
append_all_verify_example = append_all_verify [] digest same_list same_list_iff (5 ∷ 7 ∷ [])

-- a chain whose second row was changed
abbrev tampered : List (Link ℕ (List ℕ))
tampered =
    record { row = 5; prev_hash = []; self_hash = 5 ∷ []; seq = 1 }
    ∷ record { row = 8; prev_hash = 5 ∷ []; self_hash = 7 ∷ 5 ∷ []; seq = 2 }
    ∷ []

verify_chain_iff_example :
    Judges [] digest same_list same_list_iff tampered (verify_chain [] digest same_list tampered)
verify_chain_iff_example = verify_chain_iff [] digest same_list same_list_iff tampered

audit_verify_break_example :
    Explains [] digest same_list same_list_iff
      (λ row. row)
      (in_seq_order tampered)
      (audit_verify [] digest same_list (λ row. row) tampered)
audit_verify_break_example =
    audit_verify_break [] digest same_list same_list_iff (λ row. row) tampered

abbrev intact : List (Link ℕ (List ℕ))
intact =
    record { row = 5; prev_hash = []; self_hash = 5 ∷ []; seq = 1 }
    ∷ record { row = 7; prev_hash = 5 ∷ []; self_hash = 7 ∷ 5 ∷ []; seq = 2 }
    ∷ []

digest_collides : (a b : ℕ) (p q : List ℕ) → digest a p ≡ digest b q → (a ≡ b) × (p ≡ q)
digest_collides a b p q e = ground (arith, e)

digest_some : (a : ℕ) (p : List ℕ) → digest a p ≡ [] → ⊥
digest_some a p e = ground (arith, e)

intact_verifies : verify_chain [] digest same_list (in_seq_order intact) ≡ (true, none)
unfolding walk
intact_verifies = refl

intact_head :
    last_hash [] (in_seq_order intact)
    ≡ head_hash [] (newest (append_all [] digest (5 ∷ 7 ∷ []) []))
unfolding append_all append_chain newest
intact_head = refl

head_hash_determines_example : contents (in_seq_order intact) ≡ 5 ∷ 7 ∷ []
head_hash_determines_example =
    head_hash_determines [] digest digest_collides digest_some same_list same_list_iff (5 ∷ 7 ∷ [])
      intact intact_verifies intact_head

abbrev challenge : Canonical
challenge = of_challenge "n1" (1 ∷ 2 ∷ [])

-- the bytes of a challenge
abbrev challenge_bytes : Option Bytes → Bytes
challenge_bytes none = []
challenge_bytes (some b) = b

challenge_built : canonical challenge ≡ some (challenge_bytes (canonical challenge))
unfolding canonical join_frames frame_bytes encode_chars
challenge_built = refl

canonical_only_example : challenge ≡ challenge
canonical_only_example =
    canonical_only challenge challenge (challenge_bytes (canonical challenge)) challenge_built
      challenge_built

abbrev fingerprint : Bytes → String
fingerprint key = "kid"

abbrev row_digest : PreparedRow → Bytes → Bytes
row_digest row prev = row.access_id ∷ prev

abbrev verify : Bytes → Bytes → Bytes → Bool
verify key canonical signature = same_list key signature

abbrev parse : String → Option ℕ
parse text = some 100

abbrev with_key : AccessStore
with_key = (record_signing_key fingerprint 3 (9 ∷ []) 1 50 empty_store).1

abbrev with_nonce : AccessStore
with_nonce = (record_acknowledgment 3 "ab" 20 90 with_key).1

abbrev access : AccessCall
access = record {
  user_id = 3;
  audit_event_id = none;
  grant_id = some 8;
  acknowledgment_id = some 20;
  content_hash = 171 ∷ [];
  content_size = 10;
  content_mime = "text/plain";
  tier = restricted;
  served_via = "api";
  signing_pubkey_fingerprint = "kid";
  operator_signature = 9 ∷ [];
  sig_method = "GET";
  sig_url = "/files/ab";
  sig_request_id = "r1";
  sig_timestamp = "t";
  sig_body_hash = "";
  now = 110;
  freshness_window = 300;
}

record_access_outcome_example :
    Outcome row_digest verify parse access 30 with_nonce
      (record_access row_digest verify parse access 30 with_nonce)
record_access_outcome_example = record_access_outcome row_digest verify parse access 30 with_nonce

reachable_journal_example :
    let s = (record_access row_digest verify parse access 30 with_nonce).1 in
    (verify_file_access_chain genesis_journal_hash row_digest same_list s.journal ≡ true)
    × ((nonce : ℕ)
        → (uses nonce s.journal ≡ 0)
          ⊎ ((uses nonce s.journal ≡ 1) × (is_consumed (get nonce s.acknowledgments) ≡ true)))
    × All (λ l. is_ungranted l.row ≡ false) s.journal
reachable_journal_example =
    reachable_journal fingerprint row_digest verify parse same_list same_list_iff
      (record_access row_digest verify parse access 30 with_nonce).1
      (next
        (next (next start (key_recorded 3 (9 ∷ []) 1 50 empty_store))
          (acknowledged 3 "ab" 20 90 with_key))
        (accessed access 30 with_nonce))
