-- ===== src/Journal/Framing.antt =====
-- The framed byte strings that are signed and hashed (eyenet/crypto/_file_access_signing.py). Bytes
-- are numbers below 256; Python's `str.encode("utf-8")` and `int.to_bytes(4, "big")` are written out.
pub mod Injective
use Prim.Native.Char.{Char, code}
use eyenet.Common.{
  ℕ, ◌+◌, ◌/◌, ◌%◌, String, Option, none, some, List, [], ◌∷◌, ◌++◌, ltb, length, if◌then◌else◌,
}
use eyenet.Common.Text.{chars}

abbrev pub Bytes : Type 0
Bytes = List ℕ

abbrev pub utf8_code : ℕ → Bytes
utf8_code n =
    if ltb n 128
    then n ∷ []
    else if ltb n 2048
    then (192 + n / 64) ∷ (128 + n % 64) ∷ []
    else if ltb n 65536
    then (224 + n / 4096) ∷ (128 + n / 64 % 64) ∷ (128 + n % 64) ∷ []
    else (240 + n / 262144) ∷ (128 + n / 4096 % 64) ∷ (128 + n / 64 % 64) ∷ (128 + n % 64) ∷ []

-- `s.encode("utf-8")`
unfoldable pub encode_chars : List Char → Bytes
encode_chars [] = []
encode_chars (c ∷ cs) = utf8_code (code c) ++ encode_chars cs

abbrev pub encode : String → Bytes
encode s = encode_chars (chars s)

-- `n.to_bytes(4, "big")`, for a number that fits
abbrev pub to_bytes : ℕ → Bytes
to_bytes n = n / 16777216 ∷ n / 65536 % 256 ∷ n / 256 % 256 ∷ n % 256 ∷ []

-- The conversion of the length raises where it does not fit in four bytes.
unfoldable pub frame_bytes : Bytes → Option Bytes
frame_bytes raw = if ltb (length raw) 4294967296 then some (to_bytes (length raw) ++ raw) else none

-- the frames joined, with the one exception of any of them
unfoldable pub join_frames : List Bytes → Option Bytes
unfolding frame_bytes
join_frames [] = some []
join_frames (raw ∷ rest) = elim (join_frames rest) [
  | none ↦ none
  | some tail ↦ elim (frame_bytes raw) [ none ↦ none | some head ↦ some (head ++ tail) ]
]

abbrev pub sig_scheme : String
sig_scheme = "EYENET-SIG-v1"

abbrev pub journal_row_scheme : String
journal_row_scheme = "EYENET-FAJ-v1"

abbrev pub signing_key_challenge_scheme : String
signing_key_challenge_scheme = "EYENET-SIGNING-KEY-CHALLENGE-v1"

-- the arguments of `build_canonical`
pub record SignedRequest : Type 0 where
  pub method : String
  pub url : String
  pub request_id : String
  pub timestamp : String
  pub body_hash : String
  pub content_hash : String

abbrev pub request_fields : SignedRequest → List Bytes
request_fields r =
    encode sig_scheme
    ∷ encode r.method
    ∷ encode r.url
    ∷ encode r.request_id
    ∷ encode r.timestamp
    ∷ encode r.body_hash
    ∷ encode r.content_hash
    ∷ []

abbrev pub build_canonical : SignedRequest → Option Bytes
build_canonical r = join_frames (request_fields r)

-- the arguments of `build_journal_row_canonical`, the size as its decimal text
pub record JournalFields : Type 0 where
  pub access_id : Bytes
  pub audit_event_id : Bytes
  pub user_id : Bytes
  pub grant_id : Bytes
  pub content_hash : Bytes
  pub content_size : String
  pub content_mime : String
  pub tier : String
  pub served_at : String
  pub served_via : String
  pub acknowledgment_id : Bytes
  pub operator_signature : Bytes
  pub signing_pubkey_fingerprint : String

abbrev pub journal_row_fields : JournalFields → List Bytes
journal_row_fields f =
    encode journal_row_scheme
    ∷ f.access_id
    ∷ f.audit_event_id
    ∷ f.user_id
    ∷ f.grant_id
    ∷ f.content_hash
    ∷ encode f.content_size
    ∷ encode f.content_mime
    ∷ encode f.tier
    ∷ encode f.served_at
    ∷ encode f.served_via
    ∷ f.acknowledgment_id
    ∷ f.operator_signature
    ∷ encode f.signing_pubkey_fingerprint
    ∷ []

abbrev pub build_journal_row_canonical : JournalFields → Option Bytes
build_journal_row_canonical f = join_frames (journal_row_fields f)

abbrev pub challenge_fields : String → Bytes → List Bytes
challenge_fields nonce public_key_bytes =
    encode signing_key_challenge_scheme ∷ encode nonce ∷ public_key_bytes ∷ []

abbrev pub build_signing_key_challenge_canonical : String → Bytes → Option Bytes
build_signing_key_challenge_canonical nonce public_key_bytes =
    join_frames (challenge_fields nonce public_key_bytes)

-- the strings that an operator's key signs or a journal row hashes
pub data Canonical : Type 0 where
  of_request : SignedRequest → Canonical
  of_row : JournalFields → Canonical
  of_challenge : (nonce : String) (public_key_bytes : Bytes) → Canonical

unfoldable pub canonical : Canonical → Option Bytes
canonical (of_request r) = build_canonical r
canonical (of_row f) = build_journal_row_canonical f
canonical (of_challenge nonce key) = build_signing_key_challenge_canonical nonce key
