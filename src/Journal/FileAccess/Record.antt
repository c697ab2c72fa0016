-- ===== src/Journal/FileAccess/Record.antt =====
-- Recording one file access, and reading the journal (`record_access`, the listings and the head of
-- eyenet/storage/sqlmodel_repo/file_access.py; `_append_file_access_chain` and
-- `_consume_nonce_locked` of eyenet/storage/sqlite_repo/repository.py). `verify` is the check of a
-- signature under a stored key, `parse` reads an ISO timestamp, `digest` hashes a row's canonical
-- bytes with the previous hash.
use Prim.Native.String.{◌++◌ as str_append}
use eyenet.Common.{
  ℕ, ◌-◌, ◌/◌, ◌%◌, String, Bool, true, false, not, ◌&&◌, ◌||◌, Option, none, some, List, [], ◌∷◌,
  ltb, leb, ◌==◌, is_some, keep_if, if◌then◌else◌,
}
use eyenet.Tier.{SensitivityTier, normal, same_tier}
use eyenet.Journal.Chain.{append_chain, in_seq_order, newest, head_hash, contents}
use eyenet.Journal.Framing.{Bytes, SignedRequest, build_canonical}
use eyenet.Journal.FileAccess.{
  PreparedRow, AccessStore, AccessError, unknown_key, bad_signature, bad_timestamp, stale,
  missing_grant, nonce_unusable, overflow, AccessResult, ok, err, genesis_journal_hash,
  lookup_key_for_user, spend,
}

abbrev hex_digit : ℕ → String
hex_digit n =
    if n == 0
    then "0"
    else if n == 1
    then "1"
    else if n == 2
    then "2"
    else if n == 3
    then "3"
    else if n == 4
    then "4"
    else if n == 5
    then "5"
    else if n == 6
    then "6"
    else if n == 7
    then "7"
    else if n == 8
    then "8"
    else if n == 9
    then "9"
    else if n == 10
    then "a"
    else if n == 11
    then "b"
    else if n == 12
    then "c"
    else if n == 13
    then "d"
    else if n == 14
    then "e"
    else "f"

-- `b.hex()`
pub hex : Bytes → String
hex [] = ""
hex (b ∷ bs) = str_append (hex_digit (b / 16)) (str_append (hex_digit (b % 16)) (hex bs))

-- the arguments of `record_access`
pub record AccessCall : Type 0 where
  pub user_id : ℕ
  pub audit_event_id : Option ℕ
  pub grant_id : Option ℕ
  pub acknowledgment_id : Option ℕ
  pub content_hash : Bytes
  pub content_size : ℕ
  pub content_mime : String
  pub tier : SensitivityTier
  pub served_via : String
  pub signing_pubkey_fingerprint : String
  pub operator_signature : Bytes
  pub sig_method : String
  pub sig_url : String
  pub sig_request_id : String
  pub sig_timestamp : String
  pub sig_body_hash : String
  pub now : ℕ
  pub freshness_window : ℕ

abbrev pub signed_request : AccessCall → SignedRequest
signed_request c = record {
  method = c.sig_method;
  url = c.sig_url;
  request_id = c.sig_request_id;
  timestamp = c.sig_timestamp;
  body_hash = c.sig_body_hash;
  content_hash = hex c.content_hash;
}

abbrev pub prepared_row : AccessCall → ℕ → PreparedRow
prepared_row c access_id = record {
  access_id = access_id;
  audit_event_id = c.audit_event_id;
  user_id = c.user_id;
  grant_id = c.grant_id;
  content_hash = c.content_hash;
  content_size = c.content_size;
  content_mime = c.content_mime;
  tier = c.tier;
  served_at = c.now;
  served_via = c.served_via;
  acknowledgment_id = c.acknowledgment_id;
  operator_signature = c.operator_signature;
  signing_pubkey_fingerprint = c.signing_pubkey_fingerprint;
}

-- `abs(a - b)`
abbrev pub distance : ℕ → ℕ → ℕ
distance a b = if ltb a b then b - a else a - b

abbrev pub lacks_grant : AccessCall → Bool
lacks_grant c =
    not (same_tier c.tier normal) && (not (is_some c.grant_id) || not (is_some c.acknowledgment_id))

module _ (digest : PreparedRow → Bytes → Bytes) where
  abbrev pub journalled : PreparedRow → AccessStore → AccessStore
  journalled row s = record s { journal = append_chain genesis_journal_hash digest row s.journal }

  -- One transaction: the nonce, where there is one, is spent, and the row appended.
  unfoldable pub append_with :
      Option ℕ → PreparedRow → (now : ℕ) → AccessStore → AccessResult ℕ × AccessStore
  append_with none row now s = (ok row.access_id, journalled row s)
  append_with (some nonce) row now s = elim (spend nonce now s.acknowledgments) [
    | none ↦ (err nonce_unusable, s)
    | some t ↦ (ok row.access_id, journalled row (record s { acknowledgments = t }))
  ]

  abbrev pub append_file_access :
      PreparedRow → (now : ℕ) → AccessStore → AccessResult ℕ × AccessStore
  append_file_access row now s = append_with row.acknowledgment_id row now s

  module _ (verify : Bytes → Bytes → Bytes → Bool) (parse : String → Option ℕ) where
    -- the checks of a request under the user's key
    unfoldable pub check_signed : AccessCall → Option Bytes → (key : Bytes) → Option AccessError
    check_signed c none key = some overflow
    check_signed c (some canonical) key =
        if not (verify key canonical c.operator_signature)
        then some bad_signature
        else elim (parse c.sig_timestamp) [
          | none ↦ some bad_timestamp
          | some at ↦
              if ltb c.freshness_window (distance c.now at)
              then some stale
              else if lacks_grant c
              then some missing_grant
              else none
        ]

    -- The first gate that does not open, where there is one.
    unfoldable pub refuses : AccessCall → AccessStore → Option AccessError
    refuses c s = elim (lookup_key_for_user c.user_id c.signing_pubkey_fingerprint s) [
      | none ↦ some unknown_key
      | some (key, retired) ↦ check_signed c (build_canonical (signed_request c)) key
    ]

    unfoldable pub record_access :
        AccessCall → (access_id : ℕ) → AccessStore → AccessResult ℕ × AccessStore
    record_access c access_id s =
        let done = append_file_access (prepared_row c access_id) c.now s in
        elim (refuses c s) [ some e ↦ (err e, s) | none ↦ done ]

-- the listings, in the order of the sequence numbers

abbrev same_bytes : Bytes → Bytes → Bool
same_bytes [] [] = true
same_bytes (x ∷ xs) (y ∷ ys) = let rest = same_bytes xs ys in if x == y then rest else false
same_bytes _ _ = false

unfoldable pub list_file_access_by_content_hash : Bytes → AccessStore → List PreparedRow
list_file_access_by_content_hash content_hash s =
    contents (in_seq_order (keep_if (λ l. same_bytes l.row.content_hash content_hash) s.journal))

abbrev pub within : Option ℕ → Option ℕ → ℕ → Bool
within none none at = true
within (some since) none at = leb since at
within none (some until) at = leb at until
within (some since) (some until) at = leb since at && leb at until

unfoldable pub list_file_access_by_user :
    ℕ → (since until : Option ℕ) → AccessStore → List PreparedRow
list_file_access_by_user user since until s = contents (
    in_seq_order
      (keep_if (λ l. l.row.user_id == user && within since until l.row.served_at) s.journal))

unfoldable pub file_access_journal_head : AccessStore → Bytes
file_access_journal_head s = head_hash genesis_journal_hash (newest s.journal)
