-- ===== src/Journal/FileAccess/Gates.antt =====
-- The gates of `record_access` (eyenet/storage/sqlmodel_repo/file_access.py).
use eyenet.Common.{
  ℕ, String, ◌≤◌, ◌≡◌, refl, sym, ap, ◌∙◌, ◌⊎◌, Bool, true, false, Option, none, some, arith, ltb,
  Bool-cases, Option-cases, inl, inr,
}
use mathlib.Core.Path.{subst}
use eyenet.Journal.Chain.{append_chain}
use eyenet.Journal.Framing.{Bytes, build_canonical}
use eyenet.Storage.Table.{Table}
use eyenet.Journal.FileAccess.{
  Acknowledgment, PreparedRow, AccessStore, AccessError, nonce_unusable, overflow,
  genesis_journal_hash, AccessResult, ok, err, lookup_key_for_user, spend,
}
use eyenet.Journal.FileAccess.Record.{
  AccessCall, signed_request, prepared_row, distance, lacks_grant, journalled, append_with,
  append_file_access, check_signed, refuses, record_access,
}

module _ (digest : PreparedRow → Bytes → Bytes) (verify : Bytes → Bytes → Bytes → Bool)
    (parse : String → Option ℕ) where
  -- The request is signed with the user's key, fresh, and granted where its tier asks for it.
  pub record IsOpen (c : AccessCall) (s : AccessStore) : Type 0 where
    pub key : Bytes
    pub retired : Bool
    pub canonical : Bytes
    pub at : ℕ
    pub held : lookup_key_for_user c.user_id c.signing_pubkey_fingerprint s ≡ some (key, retired)
    pub built : build_canonical (signed_request c) ≡ some canonical
    pub signed : verify key canonical c.operator_signature ≡ true
    pub parsed : parse c.sig_timestamp ≡ some at
    pub fresh : distance c.now at ≤ c.freshness_window
    pub granted : lacks_grant c ≡ false

  check_signed_passes :
      (c : AccessCall) (canonical key : Bytes)
      → check_signed digest verify parse c (some canonical) key ≡ none
      → (at : ℕ) × (verify key canonical c.operator_signature ≡ true)
        × (parse c.sig_timestamp ≡ some at)
        × (distance c.now at ≤ c.freshness_window)
        × (lacks_grant c ≡ false)
  unfolding check_signed
  check_signed_passes c canonical key e =
      elim (Bool-cases (verify key canonical c.operator_signature)) [
        | inr n ↦ absurd (ground (arith, e, n))
        | inl v ↦ elim (Option-cases (parse c.sig_timestamp)) [
          | inl n ↦ absurd (ground (arith, e, v, n))
          | inr (at, t) ↦ elim (Bool-cases (ltb c.freshness_window (distance c.now at))) [
            | inl y ↦ absurd (ground (arith, e, v, t, y))
            | inr f ↦ elim (Bool-cases (lacks_grant c)) [
              | inl y ↦ absurd (ground (arith, e, v, t, f, y))
              | inr g ↦ (at, v, t, ground (arith, f), g)
            ]
          ]
        ]
      ]

  pub refuses-IsOpen :
      (c : AccessCall) (s : AccessStore) → refuses digest verify parse c s ≡ none → IsOpen c s
  unfolding refuses check_signed
  refuses-IsOpen c s e =
      elim (Option-cases (lookup_key_for_user c.user_id c.signing_pubkey_fingerprint s)) [
        | inl n ↦ absurd (ground (arith, e, n))
        | inr ((key, retired), k) ↦
            let checked : check_signed digest verify parse c (build_canonical (signed_request c))
                  key
                ≡ none =
              ground (arith, e, k) in
            elim (Option-cases (build_canonical (signed_request c))) [
              | inl n ↦
                  let raised : some overflow ≡ none =
                    subst (λ o. check_signed digest verify parse c o key ≡ none) n checked in
                  absurd (ground (arith, raised))
              | inr (canonical, b) ↦
                  let (at, v, t, f, g) =
                    check_signed_passes c canonical key
                      (subst (λ o. check_signed digest verify parse c o key ≡ none) b checked) in
                  record {
                    key = key;
                    retired = retired;
                    canonical = canonical;
                    at = at;
                    held = k;
                    built = b;
                    signed = v;
                    parsed = t;
                    fresh = f;
                    granted = g;
                  }
            ]
      ]

  abbrev pub IsSpentBy : Option ℕ → ℕ → AccessStore → AccessStore → Type 0
  IsSpentBy none now s s' = s'.acknowledgments ≡ s.acknowledgments
  IsSpentBy (some nonce) now s s' = spend nonce now s.acknowledgments ≡ some s'.acknowledgments

  pub append_unspent :
      (row : PreparedRow) (now : ℕ) (s : AccessStore)
      → row.acknowledgment_id ≡ none
      → append_file_access digest row now s ≡ (ok row.access_id, journalled digest row s)
  unfolding append_with
  append_unspent row now s e = ap (λ o. append_with digest o row now s) e

  pub append_refused :
      (row : PreparedRow) (now nonce : ℕ) (s : AccessStore)
      → row.acknowledgment_id ≡ some nonce
      → spend nonce now s.acknowledgments ≡ none
      → append_file_access digest row now s ≡ (err nonce_unusable, s)
  unfolding append_with
  append_refused row now nonce s e f =
      ap (λ o. append_with digest o row now s) e ∙ rw (append_with, f) refl

  pub append_spent :
      (row : PreparedRow) (now nonce : ℕ) (s : AccessStore) (t : Table Acknowledgment)
      → row.acknowledgment_id ≡ some nonce
      → spend nonce now s.acknowledgments ≡ some t
      → append_file_access digest row now s
        ≡ (ok row.access_id, journalled digest row (record s { acknowledgments = t }))
  unfolding append_with
  append_spent row now nonce s t e f =
      ap (λ o. append_with digest o row now s) e ∙ rw (append_with, f) refl

  -- what a call of `record_access` gives and leaves
  abbrev pub Outcome : AccessCall → ℕ → AccessStore → AccessResult ℕ × AccessStore → Type 0
  Outcome c access_id s (result, s') =
      ((s' ≡ s) × (e : AccessError) × (result ≡ err e))
      ⊎ (IsOpen c s
          × (result ≡ ok access_id)
          × (s'.journal
              ≡ append_chain genesis_journal_hash digest (prepared_row c access_id) s.journal)
          × IsSpentBy c.acknowledgment_id c.now s s'
          × (s'.keys ≡ s.keys)
          × (s'.challenges ≡ s.challenges))

  -- An access that is refused writes nothing and leaves its nonce. One that is recorded was signed
  -- with the user's own key, fresh, and granted where its tier asks for it; its row is the one row
  -- added to the chain, its nonce, where it brings one, was live and is consumed, and the keys and the
  -- challenges stay.
  pub record_access_outcome :
      (c : AccessCall) (access_id : ℕ) (s : AccessStore)
      → Outcome c access_id s (record_access digest verify parse c access_id s)
  unfolding record_access
  record_access_outcome c access_id s = elim (Option-cases (refuses digest verify parse c s)) [
    | inr (e, r) ↦ rw (record_access, r) (inl (refl, e, refl))
    | inl r ↦
        let row = prepared_row c access_id in
        let gates = refuses-IsOpen c s r in
        let done : record_access digest verify parse c access_id s
            ≡ append_file_access digest row c.now s =
          rw (record_access, r) refl in
        subst (Outcome c access_id s) (sym done) (elim (Option-cases c.acknowledgment_id) [
          | inl n ↦ subst (Outcome c access_id s) (sym (append_unspent row c.now s n)) (
              inr (
                gates,
                refl,
                refl,
                subst (λ a. IsSpentBy a c.now s (journalled digest row s)) (sym n) refl,
                refl,
                refl,
              ))
          | inr (nonce, a) ↦ elim (Option-cases (spend nonce c.now s.acknowledgments)) [
            | inl f ↦
                subst (Outcome c access_id s) (sym (append_refused row c.now nonce s a f))
                  (inl (refl, nonce_unusable, refl))
            | inr (t, f) ↦
                let last = journalled digest row (record s { acknowledgments = t }) in
                subst (Outcome c access_id s) (sym (append_spent row c.now nonce s t a f)) (
                  inr (
                    gates,
                    refl,
                    refl,
                    subst (λ o. IsSpentBy o c.now s last) (sym a) f,
                    refl,
                    refl,
                  ))
          ]
        ])
  ]
