-- ===== src/Journal/FileAccess/Runs.antt =====
-- Runs of operations on the audit database (eyenet/storage/sqlmodel_repo/file_access.py).
use eyenet.Common.{
  ℕ, String, ◌≡◌, refl, ◌⊎◌, ◌↔◌, Bool, true, false, Option, All, Option-cases, inl, inr,
}
use eyenet.Storage.Table.{get}
use eyenet.Journal.Chain.{verify_file_access_chain}
use eyenet.Journal.Chain.Laws.{chain_verifies}
use eyenet.Journal.Framing.{Bytes}
use eyenet.Journal.FileAccess.{
  PreparedRow, AccessStore, genesis_journal_hash, record_signing_key, record_acknowledgment,
  consume_acknowledgment, mint_signing_key_challenge, consume_signing_key_challenge,
}
use eyenet.Journal.FileAccess.Gates.{refuses-IsOpen}
use eyenet.Journal.FileAccess.Record.{AccessCall, prepared_row, refuses, record_access}
use eyenet.Journal.FileAccess.Nonces.{
  uses, is_consumed, is_ungranted, empty_store, IsIntact, record_signing_key-IsIntact,
  record_acknowledgment-IsIntact, consume_acknowledgment-IsIntact,
  mint_signing_key_challenge-IsIntact, consume_signing_key_challenge-IsIntact,
  append_file_access-IsIntact,
}

module _ (fingerprint : Bytes → String) (digest : PreparedRow → Bytes → Bytes)
    (verify : Bytes → Bytes → Bytes → Bool) (parse : String → Option ℕ) where
  -- one operation on the audit database
  pub data AccessStep : AccessStore → AccessStore → Type 0 where
    key_recorded :
        (user : ℕ) (key : Bytes) (fresh now : ℕ) (s : AccessStore)
        → AccessStep s (record_signing_key fingerprint user key fresh now s).1
    acknowledged :
        (user : ℕ) (content_hash : String) (fresh now : ℕ) (s : AccessStore)
        → AccessStep s (record_acknowledgment user content_hash fresh now s).1
    consumed :
        (nonce now : ℕ) (s : AccessStore) → AccessStep s (consume_acknowledgment nonce now s).1
    challenge_minted :
        (user fresh now : ℕ) (s : AccessStore)
        → AccessStep s (mint_signing_key_challenge user fresh now s).1
    challenge_consumed :
        (nonce user now : ℕ) (s : AccessStore)
        → AccessStep s (consume_signing_key_challenge nonce user now s).1
    accessed :
        (c : AccessCall) (access_id : ℕ) (s : AccessStore)
        → AccessStep s (record_access digest verify parse c access_id s).1

  -- the stores that runs of operations lead to
  pub data IsReachable : AccessStore → Type 0 where
    start : IsReachable empty_store
    next : {s s' : AccessStore} → IsReachable s → AccessStep s s' → IsReachable s'

  record_access-IsIntact :
      (c : AccessCall) (access_id : ℕ) (s : AccessStore)
      → IsIntact fingerprint digest verify parse s
      → IsIntact fingerprint digest verify parse (record_access digest verify parse c access_id s).1
  unfolding record_access
  record_access-IsIntact c access_id s h = elim (Option-cases (refuses digest verify parse c s)) [
    | inl e ↦
        rw (record_access, e)
          (append_file_access-IsIntact fingerprint digest verify parse (prepared_row c access_id)
            c.now s (refuses-IsOpen digest verify parse c s e).granted h)
    | inr (error, e) ↦ rw (record_access, e) h
  ]

  reachable-IsIntact :
      (s : AccessStore) → IsReachable s → IsIntact fingerprint digest verify parse s
  unfolding uses
  reachable-IsIntact s start = ((tt, tt), (λ n. inl refl), tt)
  reachable-IsIntact s (next r (key_recorded user key fresh now b)) =
      record_signing_key-IsIntact fingerprint digest verify parse user key fresh now b
        (reachable-IsIntact b r)
  reachable-IsIntact s (next r (acknowledged user hash fresh now b)) =
      record_acknowledgment-IsIntact fingerprint digest verify parse user hash fresh now b
        (reachable-IsIntact b r)
  reachable-IsIntact s (next r (consumed nonce now b)) =
      consume_acknowledgment-IsIntact fingerprint digest verify parse nonce now b
        (reachable-IsIntact b r)
  reachable-IsIntact s (next r (challenge_minted user fresh now b)) =
      mint_signing_key_challenge-IsIntact fingerprint digest verify parse user fresh now b
        (reachable-IsIntact b r)
  reachable-IsIntact s (next r (challenge_consumed nonce user now b)) =
      consume_signing_key_challenge-IsIntact fingerprint digest verify parse nonce user now b
        (reachable-IsIntact b r)
  reachable-IsIntact s (next r (accessed c access_id b)) =
      record_access-IsIntact c access_id b (reachable-IsIntact b r)

  -- After any run of operations from empty tables, the journal passes its own verification,
  -- where its test of two hashes is equality, no nonce stands in two rows, a nonce in a row is
  -- consumed, and every row of a higher tier has a grant and an acknowledgment.
  pub reachable_journal :
      (same : Bytes → Bytes → Bool) (same_iff : (a b : Bytes) → (same a b ≡ true) ↔ (a ≡ b))
      (s : AccessStore)
      → IsReachable s
      → (verify_file_access_chain genesis_journal_hash digest same s.journal ≡ true)
        × ((nonce : ℕ)
            → (uses nonce s.journal ≡ 0)
              ⊎ ((uses nonce s.journal ≡ 1) × (is_consumed (get nonce s.acknowledgments) ≡ true)))
        × All (λ l. is_ungranted l.row ≡ false) s.journal
  reachable_journal same same_iff s r =
      let (chain, spent, granted) = reachable-IsIntact s r in
      (chain_verifies genesis_journal_hash digest same same_iff s.journal chain, spent, granted)
