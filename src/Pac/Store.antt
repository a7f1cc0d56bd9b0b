-- ===== src/Pac/Store.antt =====
-- crates/pac/src/store.rs: the stores of the record. The mutex is its poison flag, and the sealer
-- and the file system are arguments.
use usg_supplicant.Common.{
  ℕ, Bool, true, false, List, Option, none, some, Result, ok, err, ◌>>=◌, map_err, if◌then◌else◌,
}
use usg_supplicant.Pac.{
  PacError, IoErrorKind, not_found, other, io, locked, MatRecord, encode, decode, is_fresh,
}
pub mod Laws

-- The trait of a store with state `S`.
pub record MatStore (S : Type 0) : Type 0 where
  pub save : MatRecord → S → Result PacError (Unit {0}) × S
  pub load : S → Result PacError (Option MatRecord)
  pub clear : S → Result PacError (Unit {0}) × S

abbrev pub if_fresh : Option MatRecord → ℕ → ℕ → Option (List ℕ)
if_fresh none now_unix max_age_secs = none
if_fresh (some r) now_unix max_age_secs =
    if is_fresh r now_unix max_age_secs then some r.ticket else none

unfoldable pub fresh_ticket :
    {S : Type 0} → MatStore S → S → ℕ → ℕ → Result PacError (Option (List ℕ))
fresh_ticket store s now_unix max_age_secs = do
  r ← store.load s
  ok (if_fresh r now_unix max_age_secs)

-- Decode what is stored, if anything is.
abbrev pub decode_stored : Option (List ℕ) → Result PacError (Option MatRecord)
decode_stored none = ok none
decode_stored (some bytes) = decode bytes >>= λ r. ok (some r)

pub record InMemory : Type 0 where
  pub sealed : Option (List ℕ)
  pub poisoned : Bool

abbrev put_locked : Option (List ℕ) → InMemory → Result PacError (Unit {0}) × InMemory
put_locked v s = if s.poisoned then (err locked, s) else (ok tt, record s { sealed = v })

abbrev pub put_encoded : Result PacError (List ℕ) → InMemory → Result PacError (Unit {0}) × InMemory
put_encoded (err e) s = (err e, s)
put_encoded (ok bytes) s = put_locked (some bytes) s

abbrev pub in_memory : MatStore InMemory
in_memory = record {
  save = λ r s. put_encoded (encode r) s;
  load = λ s. if s.poisoned then err locked else decode_stored s.sealed;
  clear = λ s. put_locked none s;
}

pub record Sealer : Type 0 where
  pub seal : List ℕ → Result PacError (List ℕ)
  pub unseal : List ℕ → Result PacError (List ℕ)

-- The file at the store's path.
pub record Files (F : Type 0) : Type 0 where
  pub read : F → Result IoErrorKind (List ℕ)
  pub write : List ℕ → F → Result IoErrorKind (Unit {0}) × F
  pub remove : F → Result IoErrorKind (Unit {0}) × F

module _ {F : Type 0} (sealer : Sealer) (files : Files F) where
  abbrev pub write_sealed : Result PacError (List ℕ) → F → Result PacError (Unit {0}) × F
  write_sealed (err e) f = (err e, f)
  write_sealed (ok bytes) f = let (r, g) = files.write bytes f in (map_err io r, g)

  abbrev pub unseal_read : Result IoErrorKind (List ℕ) → Result PacError (Option MatRecord)
  unseal_read (err not_found) = ok none
  unseal_read (err other) = err (io other)
  unseal_read (ok bytes) = sealer.unseal bytes >>= λ plain. decode_stored (some plain)

  abbrev pub removed : Result IoErrorKind (Unit {0}) × F → Result PacError (Unit {0}) × F
  removed (ok _, f) = (ok tt, f)
  removed (err not_found, f) = (ok tt, f)
  removed (err other, f) = (err (io other), f)

  abbrev pub file_store : MatStore F
  file_store = record {
    save = λ r f. write_sealed (encode r >>= sealer.seal) f;
    load = λ f. unseal_read (files.read f);
    clear = λ f. removed (files.remove f);
  }
