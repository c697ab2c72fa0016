-- ===== src/Journal/FileAccess.antt =====
-- The file-access journal (eyenet/storage/sqlmodel_repo/file_access.py with the append of
-- eyenet/storage/sqlite_repo/repository.py): signing keys, acknowledgment nonces, registration
-- challenges and journal rows. Times are in microseconds; new ids are drawn from outside. The
-- fingerprint and the signature check of the cryptography package, the reading of a timestamp and the
-- hash of a row are parameters.
pub mod Keys
pub mod Record
pub mod Gates
pub mod Nonces
pub mod Runs
use eyenet.Common.{
  ℕ, ◌+◌, ◌-◌, String, Bool, true, false, not, ◌&&◌, ◌||◌, Option, none, some, List, [], ◌∷◌, ◌++◌,
  map, ltb, leb, ◌==◌, str_eq, is_some, keep_if, if◌then◌else◌,
}
use eyenet.Common.Sorting.{sort}
use eyenet.Tier.{SensitivityTier, normal, same_tier}
use eyenet.Storage.Table.{Table, get, update}
use eyenet.Journal.Chain.{Link, append_chain, in_seq_order, newest, head_hash}
use eyenet.Journal.Framing.{Bytes, SignedRequest, build_canonical}

pub record SigningKey : Type 0 where
  pub user_id : ℕ
  pub verifying_key : Bytes
  pub fingerprint : String
  pub set_at : ℕ
  pub retired_at : Option ℕ

pub record Acknowledgment : Type 0 where
  pub user_id : ℕ
  pub content_hash : String
  pub issued_at : ℕ
  pub expires_at : ℕ
  pub consumed_at : Option ℕ

pub record Challenge : Type 0 where
  pub user_id : ℕ
  pub expires_at : ℕ
  pub consumed_at : Option ℕ

pub record PreparedRow : Type 0 where
  pub access_id : ℕ
  pub audit_event_id : Option ℕ
  pub user_id : ℕ
  pub grant_id : Option ℕ
  pub content_hash : Bytes
  pub content_size : ℕ
  pub content_mime : String
  pub tier : SensitivityTier
  pub served_at : ℕ
  pub served_via : String
  pub acknowledgment_id : Option ℕ
  pub operator_signature : Bytes
  pub signing_pubkey_fingerprint : String

-- the four tables of the audit database
pub record AccessStore : Type 0 where
  pub keys : Table SigningKey
  pub acknowledgments : Table Acknowledgment
  pub challenges : Table Challenge
  pub journal : List (Link PreparedRow Bytes)

pub data AccessError : Type 0 where
  unknown_key bad_signature bad_timestamp stale missing_grant nonce_unusable overflow integrity :
      AccessError

pub data AccessResult (A : Type 0) : Type 0 where
  ok : A → AccessResult A
  err : AccessError → AccessResult A

-- sixty seconds
abbrev pub ack_ttl : ℕ
ack_ttl = 60000000

abbrev pub signing_key_challenge_ttl : ℕ
signing_key_challenge_ttl = 60000000

-- three hundred seconds
abbrev pub default_freshness_window : ℕ
default_freshness_window = 300000000

-- 32 zero bytes
abbrev pub genesis_journal_hash : Bytes
genesis_journal_hash =
    0 ∷ 0 ∷ 0 ∷ 0 ∷ 0 ∷ 0 ∷ 0 ∷ 0 ∷ 0 ∷ 0 ∷ 0 ∷ 0 ∷ 0 ∷ 0 ∷ 0 ∷ 0 ∷ 0 ∷ 0 ∷ 0 ∷ 0 ∷ 0 ∷ 0 ∷ 0 ∷ 0
    ∷ 0 ∷ 0 ∷ 0 ∷ 0 ∷ 0 ∷ 0 ∷ 0 ∷ 0 ∷ []

-- signing keys

abbrev pub is_active_key : ℕ → ℕ × SigningKey → Bool
is_active_key user row = row.1.user_id == user && not (is_some row.1.retired_at)

abbrev pub has_fingerprint : ℕ → String → ℕ × SigningKey → Bool
has_fingerprint user fp row = row.1.user_id == user && str_eq row.1.fingerprint fp

abbrev pub retire : ℕ → ℕ → ℕ × SigningKey → ℕ × SigningKey
retire user now row =
    if is_active_key user row then (row.0, record row.1 { retired_at = some now }) else row

abbrev pub first : {A : Type 0} → List A → Option A
first [] = none
first (x ∷ xs) = some x

abbrev pub new_key : (user : ℕ) (key : Bytes) (fp : String) (now : ℕ) → SigningKey
new_key user key fp now = record {
  user_id = user;
  verifying_key = key;
  fingerprint = fp;
  set_at = now;
  retired_at = none;
}

-- The key's row breaks the uniqueness of a user's fingerprints where the user has held the key.
unfoldable pub record_signing_key :
    (fingerprint : Bytes → String)
    → (user : ℕ) (key : Bytes) (fresh now : ℕ) → AccessStore
    → AccessResult String × AccessStore
record_signing_key fingerprint user key fresh now s =
    let fp = fingerprint key in
    let stored = record s {
      keys = map (retire user now) s.keys ++ (fresh, new_key user key fp now) ∷ [];
    } in
    elim (first (keep_if (has_fingerprint user fp) s.keys)) [
      | none ↦ (ok fp, stored)
      | some row ↦ (err integrity, s)
    ]

unfoldable pub lookup_key_for_user : ℕ → String → AccessStore → Option (Bytes × Bool)
lookup_key_for_user user fp s = elim (first (keep_if (has_fingerprint user fp) s.keys)) [
  | none ↦ none
  | some row ↦ some (row.1.verifying_key, is_some row.1.retired_at)
]

-- `ORDER BY set_at DESC, id DESC`
abbrev pub newer : ℕ × SigningKey → ℕ × SigningKey → Bool
newer a b = ltb b.1.set_at a.1.set_at || (b.1.set_at == a.1.set_at && leb b.0 a.0)

abbrev pub active_keys : ℕ → AccessStore → List (ℕ × SigningKey)
active_keys user s = keep_if (is_active_key user) s.keys

unfoldable pub active_signing_key_for : ℕ → AccessStore → Option Bytes
active_signing_key_for user s = elim (first (sort newer (active_keys user s))) [
  | none ↦ none
  | some row ↦ some row.1.verifying_key
]

-- nonces

unfoldable pub record_acknowledgment :
    (user : ℕ) (content_hash : String) (fresh now : ℕ) → AccessStore → AccessResult ℕ × AccessStore
record_acknowledgment user content_hash fresh now s =
    let row : Acknowledgment = record {
      user_id = user;
      content_hash = content_hash;
      issued_at = now;
      expires_at = now + ack_ttl;
      consumed_at = none;
    } in
    if is_some (get fresh s.acknowledgments)
    then (err integrity, s)
    else (ok fresh, record s { acknowledgments = s.acknowledgments ++ (fresh, row) ∷ [] })

abbrev pub is_live_ack : ℕ → Acknowledgment → Bool
is_live_ack now a = not (is_some a.consumed_at) && ltb now a.expires_at

-- the conditional update of the row under a nonce, where it changes that row
unfoldable pub spend : (nonce now : ℕ) → Table Acknowledgment → Option (Table Acknowledgment)
spend nonce now t = elim (get nonce t) [
  | none ↦ none
  | some a ↦
      if is_live_ack now a
      then some (update nonce (record a { consumed_at = some now }) t)
      else none
]

unfoldable pub consume_acknowledgment : (nonce now : ℕ) → AccessStore → Bool × AccessStore
consume_acknowledgment nonce now s = elim (spend nonce now s.acknowledgments) [
  | none ↦ (false, s)
  | some t ↦ (true, record s { acknowledgments = t })
]

unfoldable pub mint_signing_key_challenge :
    (user fresh now : ℕ) → AccessStore → AccessResult ℕ × AccessStore
mint_signing_key_challenge user fresh now s =
    let row : Challenge = record {
      user_id = user;
      expires_at = now + signing_key_challenge_ttl;
      consumed_at = none;
    } in
    if is_some (get fresh s.challenges)
    then (err integrity, s)
    else (ok fresh, record s { challenges = s.challenges ++ (fresh, row) ∷ [] })

abbrev pub is_live_challenge : (user now : ℕ) → Challenge → Bool
is_live_challenge user now c =
    c.user_id == user && not (is_some c.consumed_at) && ltb now c.expires_at

unfoldable pub consume_signing_key_challenge :
    (nonce user now : ℕ) → AccessStore → Bool × AccessStore
consume_signing_key_challenge nonce user now s = elim (get nonce s.challenges) [
  | none ↦ (false, s)
  | some c ↦
      let spent = update nonce (record c { consumed_at = some now }) s.challenges in
      if is_live_challenge user now c then (true, record s { challenges = spent }) else (false, s)
]
