-- ===== src/Journal/Framing/Injective.antt =====
-- What framed bytes say of the fields in them (eyenet/crypto/_file_access_signing.py).
use Prim.Native.Char.{Char, code}
use Prim.Native.Nat.{zero, suc}
use text.Mathlib.TextEquality.{Char-path}
use eyenet.Common.{
  ℕ, ◌<◌, String, ◌≡◌, ◌≢◌, refl, sym, ap, ◌∙◌, Bool-cases, inl, inr, Option-cases, some, List, [],
  ◌∷◌, ◌++◌, ltb, length, arith, false, str_eq, eq_iff,
}
use eyenet.Common.Text.{chars, of_chars}
use eyenet.Journal.Framing.{
  Bytes, utf8_code, encode_chars, encode, to_bytes, frame_bytes, join_frames, SignedRequest,
  request_fields, journal_row_fields, challenge_fields, JournalFields, Canonical, of_request,
  of_row, of_challenge, canonical, sig_scheme, journal_row_scheme, signing_key_challenge_scheme,
}

heads : (x y : ℕ) (r s : Bytes) → x ∷ r ≡ y ∷ s → (x ≡ y) × (r ≡ s)
heads x y r s e = ground (arith, e)

-- A code point is read back from the front of the bytes.
utf8_code_front : (n m : ℕ) (r s : Bytes) → utf8_code n ++ r ≡ utf8_code m ++ s → (n ≡ m) × (r ≡ s)
utf8_code_front n m r s e = ground (arith, e)

to_bytes_front :
    (n m : ℕ) (r s : Bytes)
    → n < 4294967296
    → m < 4294967296
    → to_bytes n ++ r ≡ to_bytes m ++ s
    → (n ≡ m) × (r ≡ s)
to_bytes_front n m r s hn hm e = ground (arith, e, hn, hm)

utf8_code_some : (n : ℕ) (r : Bytes) → utf8_code n ++ r ≢ []
utf8_code_some n r e = ground (arith, e)

encode_chars_only : (a b : List Char) → encode_chars a ≡ encode_chars b → a ≡ b
unfolding encode_chars
encode_chars_only [] [] e = refl
encode_chars_only [] (d ∷ b) e = absurd (utf8_code_some (code d) (encode_chars b) (sym e))
encode_chars_only (c ∷ a) [] e = absurd (utf8_code_some (code c) (encode_chars a) e)
encode_chars_only (c ∷ a) (d ∷ b) e =
    let (same, rest) = utf8_code_front (code c) (code d) (encode_chars a) (encode_chars b) e in
    ap (λ x. x ∷ a) (Char-path c d same) ∙ ap (λ l. d ∷ l) (encode_chars_only a b rest)

of_chars-chars : (s : String) → of_chars (chars s) ≡ s
of_chars-chars String.[] = refl
of_chars-chars (String.◌∷◌ c s) = ap (λ r. String.◌∷◌ c r) (of_chars-chars s)

encode_only : (a b : String) → encode a ≡ encode b → a ≡ b
encode_only a b e =
    sym (of_chars-chars a)
    ∙ ap of_chars (encode_chars_only (chars a) (chars b) e)
    ∙ of_chars-chars b

append_front : (xs ys r s : Bytes) → length xs ≡ length ys → xs ++ r ≡ ys ++ s → (xs ≡ ys) × (r ≡ s)
append_front [] [] r s n e = (refl, e)
append_front [] (y ∷ ys) r s n e = absurd (ground (arith, n))
append_front (x ∷ xs) [] r s n e = absurd (ground (arith, n))
append_front (x ∷ xs) (y ∷ ys) r s n e =
    let (same, rest) = heads x y (xs ++ r) (ys ++ s) e in
    let (front, back) = append_front xs ys r s (ground (arith, n)) rest in
    (ap (λ z. z ∷ xs) same ∙ ap (λ l. y ∷ l) front, back)

-- A frame is its field, read back from the front of the bytes.
frame_front :
    (x y r s : Bytes)
    → length x < 4294967296
    → length y < 4294967296
    → to_bytes (length x) ++ x ++ r ≡ to_bytes (length y) ++ y ++ s
    → (x ≡ y) × (r ≡ s)
frame_front x y r s hx hy e =
    let (same, rest) = to_bytes_front (length x) (length y) (x ++ r) (y ++ s) hx hy e in
    append_front x y r s same rest

-- What a join that did not raise is made of.
join_step :
    (raw : Bytes) (rest : List Bytes) (b : Bytes)
    → join_frames (raw ∷ rest) ≡ some b
    → (tail : Bytes) × (join_frames rest ≡ some tail)
      × (length raw < 4294967296)
      × (b ≡ to_bytes (length raw) ++ raw ++ tail)
unfolding join_frames frame_bytes
join_step raw rest b e = elim (Option-cases (join_frames rest)) [
  | inl n ↦ absurd (ground (arith, e, n))
  | inr (tail, t) ↦ elim (Bool-cases (ltb (length raw) 4294967296)) [
    | inl y ↦ (tail, t, ground (arith, y), ground (arith, e, t, y))
    | inr n ↦ absurd (ground (arith, e, t, n))
  ]
]

empty_join :
    (raw tail b : Bytes) → join_frames [] ≡ some b → b ≡ to_bytes (length raw) ++ raw ++ tail → ⊥
unfolding join_frames
empty_join raw tail b e f = ground (arith, e, f)

-- Framed bytes are joined from one list of fields only.
pub join_frames_only :
    (xs ys : List Bytes) (b : Bytes) → join_frames xs ≡ some b → join_frames ys ≡ some b → xs ≡ ys
join_frames_only [] [] b e f = refl
join_frames_only [] (y ∷ ys) b e f =
    let (s, rest, hy, by) = join_step y ys b f in absurd (empty_join y s b e by)
join_frames_only (x ∷ xs) [] b e f =
    let (r, rest, hx, bx) = join_step x xs b e in absurd (empty_join x r b f bx)
join_frames_only (x ∷ xs) (y ∷ ys) b e f =
    let (r, rest, hx, bx) = join_step x xs b e in
    let (s, rest', hy, by) = join_step y ys b f in
    let (same, tail) = frame_front x y r s hx hy (sym bx ∙ by) in
    ap (λ z. z ∷ xs) same
    ∙ ap (λ l. y ∷ l) (join_frames_only xs ys s (rest ∙ ap (λ t. some t) tail) rest')

-- the field at a place
field : ℕ → List Bytes → Bytes
field i [] = []
field zero (x ∷ xs) = x
field (suc i) (x ∷ xs) = field i xs

request_only : (a b : SignedRequest) → request_fields a ≡ request_fields b → a ≡ b
unfolding field
request_only a b same =
    let at : (i : ℕ) → field i (request_fields a) ≡ field i (request_fields b) =
      λ i. ap (field i) same in
    let method = encode_only a.method b.method (at 1) in
    let url = encode_only a.url b.url (at 2) in
    let id = encode_only a.request_id b.request_id (at 3) in
    let time = encode_only a.timestamp b.timestamp (at 4) in
    let body = encode_only a.body_hash b.body_hash (at 5) in
    let content = encode_only a.content_hash b.content_hash (at 6) in
    λ i. record {
      method = method i;
      url = url i;
      request_id = id i;
      timestamp = time i;
      body_hash = body i;
      content_hash = content i;
    }

journal_row_only : (a b : JournalFields) → journal_row_fields a ≡ journal_row_fields b → a ≡ b
unfolding field
journal_row_only a b same =
    let at : (i : ℕ) → field i (journal_row_fields a) ≡ field i (journal_row_fields b) =
      λ i. ap (field i) same in
    let size = encode_only a.content_size b.content_size (at 6) in
    let mime = encode_only a.content_mime b.content_mime (at 7) in
    let tier = encode_only a.tier b.tier (at 8) in
    let served = encode_only a.served_at b.served_at (at 9) in
    let via = encode_only a.served_via b.served_via (at 10) in
    let kid = encode_only a.signing_pubkey_fingerprint b.signing_pubkey_fingerprint (at 13) in
    λ i. record {
      access_id = at 1 i;
      audit_event_id = at 2 i;
      user_id = at 3 i;
      grant_id = at 4 i;
      content_hash = at 5 i;
      content_size = size i;
      content_mime = mime i;
      tier = tier i;
      served_at = served i;
      served_via = via i;
      acknowledgment_id = at 11 i;
      operator_signature = at 12 i;
      signing_pubkey_fingerprint = kid i;
    }

challenge_only :
    (n m : String) (p q : Bytes) → challenge_fields n p ≡ challenge_fields m q → (n ≡ m) × (p ≡ q)
unfolding field
challenge_only n m p q same =
    let at : (i : ℕ) → field i (challenge_fields n p) ≡ field i (challenge_fields m q) =
      λ i. ap (field i) same in
    (encode_only n m (at 1), at 2)

-- The schemes' tags tell the three strings apart.
tags_apart :
    (xs ys : List Bytes) (b : Bytes) (s t : String)
    → (str_eq s t ≡ false)
    → join_frames (encode s ∷ xs) ≡ some b
    → join_frames (encode t ∷ ys) ≡ some b
    → ⊥
unfolding field
tags_apart xs ys b s t differ e f =
    let first = ap (field 0) (join_frames_only (encode s ∷ xs) (encode t ∷ ys) b e f) in
    let same : s ≡ t = encode_only s t first in ground (arith, differ, (eq_iff s t).1 same)

-- Two canonical strings that are equal are of one kind and have the same fields: the same
-- request is signed, the same journal row hashed, or the same challenge and key bound.
pub canonical_only :
    (x y : Canonical) (bytes : Bytes) → canonical x ≡ some bytes → canonical y ≡ some bytes → x ≡ y
unfolding canonical
canonical_only (of_request a) (of_request b) bytes e f =
    ap of_request
      (request_only a b (join_frames_only (request_fields a) (request_fields b) bytes e f))
canonical_only (of_row a) (of_row b) bytes e f = ap of_row (
    journal_row_only a b (join_frames_only (journal_row_fields a) (journal_row_fields b) bytes e f))
canonical_only (of_challenge n p) (of_challenge m q) bytes e f =
    let (nonce, key) =
      challenge_only n m p q
        (join_frames_only (challenge_fields n p) (challenge_fields m q) bytes e f) in
    λ i. of_challenge (nonce i) (key i)
canonical_only (of_request a) (of_row b) bytes e f =
    absurd (tags_apart _ _ bytes sig_scheme journal_row_scheme refl e f)
canonical_only (of_request a) (of_challenge n p) bytes e f =
    absurd (tags_apart _ _ bytes sig_scheme signing_key_challenge_scheme refl e f)
canonical_only (of_row b) (of_challenge n p) bytes e f =
    absurd (tags_apart _ _ bytes journal_row_scheme signing_key_challenge_scheme refl e f)
canonical_only (of_row b) (of_request a) bytes e f =
    absurd (tags_apart _ _ bytes journal_row_scheme sig_scheme refl e f)
canonical_only (of_challenge n p) (of_request a) bytes e f =
    absurd (tags_apart _ _ bytes signing_key_challenge_scheme sig_scheme refl e f)
canonical_only (of_challenge n p) (of_row b) bytes e f =
    absurd (tags_apart _ _ bytes signing_key_challenge_scheme journal_row_scheme refl e f)
