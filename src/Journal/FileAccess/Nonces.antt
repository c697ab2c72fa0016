-- ===== src/Journal/FileAccess/Nonces.antt =====
-- Nonces and the journal's rows, operation by operation (eyenet/storage/sqlmodel_repo/file_access.py).
use eyenet.Common.{
  ℕ, suc, String, ◌≡◌, refl, sym, ap, ◌⊎◌, Bool, true, false, not, ◌&&◌, ◌||◌, Option, none, some,
  List, [], ◌∷◌, ◌++◌, arith, ◌==◌, is_some, All, All-append, keep_if, if◌then◌else◌, Bool-cases,
  Option-cases, inl, inr,
}
use mathlib.Core.Path.{subst}
use eyenet.Tier.{normal, same_tier}
use eyenet.Storage.Table.{Table, get, update, get-update, get-append}
use eyenet.Journal.Chain.{Link, newest, next_link, append_chain}
use eyenet.Journal.Chain.Laws.{IsChain, append_chain-IsChain}
use eyenet.Journal.Framing.{Bytes}
use eyenet.Journal.FileAccess.{
  Acknowledgment, PreparedRow, AccessStore, ok, err, integrity, SigningKey, first, has_fingerprint,
  is_live_challenge, genesis_journal_hash, is_live_ack, record_signing_key, record_acknowledgment,
  spend, consume_acknowledgment, mint_signing_key_challenge, consume_signing_key_challenge,
}
use eyenet.Journal.FileAccess.Keys.{rotated}
use eyenet.Journal.FileAccess.Gates.{append_unspent, append_refused, append_spent}
use eyenet.Journal.FileAccess.Record.{journalled, append_file_access}

abbrev pub carries : ℕ → Option ℕ → Bool
carries nonce none = false
carries nonce (some n) = n == nonce

-- how many rows carry a nonce
unfoldable pub uses : ℕ → List (Link PreparedRow Bytes) → ℕ
uses nonce [] = 0
uses nonce (l ∷ ls) =
    let rest = uses nonce ls in if carries nonce l.row.acknowledgment_id then suc rest else rest

uses-append :
    (nonce : ℕ) (t : List (Link PreparedRow Bytes)) (l : Link PreparedRow Bytes)
    → uses nonce (t ++ l ∷ [])
      ≡ (if carries nonce l.row.acknowledgment_id then suc (uses nonce t) else uses nonce t)
unfolding uses
uses-append nonce [] l = refl
uses-append nonce (m ∷ t) l = ground (arith, uses-append nonce t l)

abbrev pub is_consumed : Option Acknowledgment → Bool
is_consumed none = false
is_consumed (some a) = is_some a.consumed_at

-- A nonce is in no row, or it is in one row and consumed.
abbrev pub IsSpentOnce : AccessStore → ℕ → Type 0
IsSpentOnce s nonce =
    (uses nonce s.journal ≡ 0)
    ⊎ ((uses nonce s.journal ≡ 1) × (is_consumed (get nonce s.acknowledgments) ≡ true))

append_consumed :
    (t : Table Acknowledgment) (fresh n : ℕ) (a : Acknowledgment)
    → is_consumed (get n t) ≡ true
    → is_consumed (get n (t ++ (fresh, a) ∷ [])) ≡ true
append_consumed t fresh n a h = ground (arith, h, get-append t fresh n a)

-- what spending a nonce does to the nonces
spend_found :
    (nonce now : ℕ) (t t' : Table Acknowledgment)
    → spend nonce now t ≡ some t'
    → (is_consumed (get nonce t) ≡ false)
      × (is_consumed (get nonce t') ≡ true)
      × ((n : ℕ) → is_consumed (get n t) ≡ true → is_consumed (get n t') ≡ true)
unfolding spend
spend_found nonce now t t' e = elim (Option-cases (get nonce t)) [
  | inl none_there ↦ absurd (ground (arith, e, none_there))
  | inr (a, g) ↦ elim (Bool-cases (is_live_ack now a)) [
    | inl y ↦
        let it : update nonce (record a { consumed_at = some now }) t ≡ t' =
          ground (arith, e, g, y) in
        subst
          (λ u.
            (is_consumed (get nonce t) ≡ false)
            × (is_consumed (get nonce u) ≡ true)
            × ((n : ℕ) → is_consumed (get n t) ≡ true → is_consumed (get n u) ≡ true))
          it
          (
            ground (arith, g, y),
            ground (arith, g, get-update nonce nonce (record a { consumed_at = some now }) t),
            λ n h. ground (arith, g, h, get-update nonce n (record a { consumed_at = some now }) t),
          )
    | inr n ↦ absurd (ground (arith, e, g, n))
  ]
]

-- A row of a higher tier that has no grant or no acknowledgment.
abbrev pub is_ungranted : PreparedRow → Bool
is_ungranted row =
    not (same_tier row.tier normal)
    && (not (is_some row.grant_id) || not (is_some row.acknowledgment_id))

abbrev pub empty_store : AccessStore
empty_store = record { keys = []; acknowledgments = []; challenges = []; journal = [] }

module _ (fingerprint : Bytes → String) (digest : PreparedRow → Bytes → Bytes)
    (verify : Bytes → Bytes → Bytes → Bool) (parse : String → Option ℕ) where
  abbrev pub IsIntact : AccessStore → Type 0
  IsIntact s =
      IsChain genesis_journal_hash digest s.journal
      × ((nonce : ℕ) → IsSpentOnce s nonce)
      × All (λ l. is_ungranted l.row ≡ false) s.journal

  same_rows :
      (s s' : AccessStore)
      → s.acknowledgments ≡ s'.acknowledgments
      → s.journal ≡ s'.journal
      → IsIntact s
      → IsIntact s'
  same_rows s s' a j h =
      subst (λ r. IsIntact (record s' { journal = r })) j
        (subst (λ t. IsIntact (record s' { acknowledgments = t; journal = s.journal })) a h)

  -- Nonces that are consumed stay so where the journal is kept.
  more_consumed :
      (s : AccessStore) (t : Table Acknowledgment)
      → ((n : ℕ) → is_consumed (get n s.acknowledgments) ≡ true → is_consumed (get n t) ≡ true)
      → IsIntact s
      → IsIntact (record s { acknowledgments = t })
  more_consumed s t k (chain, spent, granted) =
      (chain, (λ n. elim (spent n) [ inl e ↦ inl e | inr (e, c) ↦ inr (e, k n c) ]), granted)

  pub record_signing_key-IsIntact :
      (user : ℕ) (key : Bytes) (fresh now : ℕ) (s : AccessStore)
      → IsIntact s
      → IsIntact (record_signing_key fingerprint user key fresh now s).1
  unfolding record_signing_key
  record_signing_key-IsIntact user key fresh now s h =
      elim (Option-cases (first (keep_if (has_fingerprint user (fingerprint key)) s.keys))) [
        | inl e ↦
            subst IsIntact (sym (ap (λ r. r.1) (taken e)))
              (same_rows s (rotated fingerprint user key fresh now s) refl refl h)
        | inr (row, e) ↦ subst IsIntact (sym (ap (λ r. r.1) (refused row e))) h
      ]
    where
      taken :
          first (keep_if (has_fingerprint user (fingerprint key)) s.keys) ≡ none
          → record_signing_key fingerprint user key fresh now s
            ≡ (ok (fingerprint key), rotated fingerprint user key fresh now s)
      taken e = rw (record_signing_key, e) refl

      refused :
          (row : ℕ × SigningKey)
          → first (keep_if (has_fingerprint user (fingerprint key)) s.keys) ≡ some row
          → record_signing_key fingerprint user key fresh now s ≡ (err integrity, s)
      refused row e = rw (record_signing_key, e) refl

  pub record_acknowledgment-IsIntact :
      (user : ℕ) (content_hash : String) (fresh now : ℕ) (s : AccessStore)
      → IsIntact s
      → IsIntact (record_acknowledgment user content_hash fresh now s).1
  unfolding record_acknowledgment
  record_acknowledgment-IsIntact user content_hash fresh now s h =
      elim (Bool-cases (is_some (get fresh s.acknowledgments))) [
        | inl y ↦ rw (record_acknowledgment, y) h
        | inr n ↦
            rw (record_acknowledgment, n)
              (more_consumed s _ (λ m k. append_consumed s.acknowledgments fresh m _ k) h)
      ]

  pub consume_acknowledgment-IsIntact :
      (nonce now : ℕ) (s : AccessStore)
      → IsIntact s
      → IsIntact (consume_acknowledgment nonce now s).1
  unfolding consume_acknowledgment
  consume_acknowledgment-IsIntact nonce now s h =
      elim (Option-cases (spend nonce now s.acknowledgments)) [
        | inl e ↦ rw (consume_acknowledgment, e) h
        | inr (t, e) ↦
            rw (consume_acknowledgment, e)
              (more_consumed s t (spend_found nonce now s.acknowledgments t e).2 h)
      ]

  pub mint_signing_key_challenge-IsIntact :
      (user fresh now : ℕ) (s : AccessStore)
      → IsIntact s
      → IsIntact (mint_signing_key_challenge user fresh now s).1
  unfolding mint_signing_key_challenge
  mint_signing_key_challenge-IsIntact user fresh now s h =
      elim (Bool-cases (is_some (get fresh s.challenges))) [
        | inl y ↦ rw (mint_signing_key_challenge, y) h
        | inr n ↦ rw (mint_signing_key_challenge, n) h
      ]

  pub consume_signing_key_challenge-IsIntact :
      (nonce user now : ℕ) (s : AccessStore)
      → IsIntact s
      → IsIntact (consume_signing_key_challenge nonce user now s).1
  unfolding consume_signing_key_challenge
  consume_signing_key_challenge-IsIntact nonce user now s h =
      elim (Option-cases (get nonce s.challenges)) [
        | inl e ↦ rw (consume_signing_key_challenge, e) h
        | inr (c, e) ↦ elim (Bool-cases (is_live_challenge user now c)) [
          | inl y ↦ rw (consume_signing_key_challenge, e, y) h
          | inr n ↦ rw (consume_signing_key_challenge, e, n) h
        ]
      ]

  -- A row that carries no nonce, or one that is consumed and in no row yet, keeps the journal intact.
  journalled-IsIntact :
      (row : PreparedRow) (s : AccessStore)
      → is_ungranted row ≡ false
      → ((n : ℕ)
          → carries n row.acknowledgment_id ≡ true
          → (uses n s.journal ≡ 0) × (is_consumed (get n s.acknowledgments) ≡ true))
      → IsIntact s
      → IsIntact (journalled digest row s)
  unfolding append_chain
  journalled-IsIntact row s allowed fresh (chain, spent, granted) =
      let link = next_link genesis_journal_hash digest row (newest s.journal) in
      (
        append_chain-IsChain genesis_journal_hash digest row s.journal chain,
        (λ n. elim (Bool-cases (carries n row.acknowledgment_id)) [
          | inl y ↦ inr (ground (arith, y, fresh n y, uses-append n s.journal link), (fresh n y).1)
          | inr m ↦ rw (uses-append n s.journal link, m) (spent n)
        ]),
        All-append _ s.journal (link ∷ []) granted (allowed, tt),
      )

  pub append_file_access-IsIntact :
      (row : PreparedRow) (now : ℕ) (s : AccessStore)
      → is_ungranted row ≡ false
      → IsIntact s
      → IsIntact (append_file_access digest row now s).1
  append_file_access-IsIntact row now s allowed h = elim (Option-cases row.acknowledgment_id) [
    | inl e ↦
        subst (λ r. IsIntact r.1) (sym (append_unspent digest verify parse row now s e))
          (journalled-IsIntact row s allowed (λ n c. absurd (ground (arith, c, e))) h)
    | inr (nonce, e) ↦ elim (Option-cases (spend nonce now s.acknowledgments)) [
      | inl f ↦
          subst (λ r. IsIntact r.1) (sym (append_refused digest verify parse row now nonce s e f)) h
      | inr (t, f) ↦
          let found = spend_found nonce now s.acknowledgments t f in
          subst (λ r. IsIntact r.1) (sym (append_spent digest verify parse row now nonce s t e f))
            (journalled-IsIntact row (record s { acknowledgments = t }) allowed
              (λ n c.
                let same : nonce ≡ n = ground (arith, c, e) in
                subst (λ m. (uses m s.journal ≡ 0) × (is_consumed (get m t) ≡ true)) same
                  (unused nonce found.0, found.1))
              (more_consumed s t found.2 h))
    ]
  ]
    where
      unused :
          (nonce : ℕ) → is_consumed (get nonce s.acknowledgments) ≡ false → uses nonce s.journal ≡ 0
      unused nonce n = elim (h.1 nonce) [ inl z ↦ z | inr (one, y) ↦ absurd (ground (arith, n, y)) ]
