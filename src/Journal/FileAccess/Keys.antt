-- ===== src/Journal/FileAccess/Keys.antt =====
-- Signing keys and their rotation (`record_signing_key`, `lookup_key_for_user` and
-- `active_signing_key_for` of eyenet/storage/sqlmodel_repo/file_access.py).
use eyenet.Common.{
  ℕ, String, ◌≡◌, Bool, true, false, ◌&&◌, ◌||◌, Option, none, some, List, [], ◌∷◌, ◌++◌, map, ◌==◌,
  str_eq, ◌⊎◌, is_some, if◌then◌else◌,
}
use eyenet.Storage.Table.{Table}
use eyenet.Journal.Framing.{Bytes}
use eyenet.Journal.FileAccess.{
  AccessStore, AccessResult, ok, err, integrity, retire, new_key, lookup_key_for_user, active_keys,
  active_signing_key_for,
}

module _ (fingerprint : Bytes → String) (user : ℕ) (key : Bytes) (fresh now : ℕ)
    (s : AccessStore) where
  -- the store after a registration that is taken
  abbrev pub rotated : AccessStore
  rotated = record s {
    keys = map (retire user now) s.keys ++ (fresh, new_key user key (fingerprint key) now) ∷ [];
  }

  abbrev pub lookup_after : ℕ → String → Option (Bytes × Bool) → Option (Bytes × Bool)
  lookup_after v fp none =
      if v == user && str_eq (fingerprint key) fp then some (key, false) else none
  lookup_after v fp (some (k, retired)) = some (k, retired || v == user)

  -- what a registration gives and leaves
  abbrev pub Rotates : AccessResult String × AccessStore → Type 0
  Rotates (result, s') =
      ((s' ≡ s)
        × (result ≡ err integrity)
        × (is_some (lookup_key_for_user user (fingerprint key) s) ≡ true))
      ⊎ ((result ≡ ok (fingerprint key))
          × (active_signing_key_for user s' ≡ some key)
          × ((v : ℕ)
              → active_keys v s' ≡ (
                  if v == user
                  then (fresh, new_key user key (fingerprint key) now) ∷ []
                  else active_keys v s))
          × ((v : ℕ) (fp : String)
              → lookup_key_for_user v fp s' ≡ lookup_after v fp (lookup_key_for_user v fp s)))
