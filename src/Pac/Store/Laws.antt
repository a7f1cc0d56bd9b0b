-- ===== src/Pac/Store/Laws.antt =====
-- crates/pac/src/store.rs: what a store gives back after a save.
use usg_supplicant.Common.{
  ℕ, ◌≤◌, ◌-◌, false, List, none, some, ok, ◌>>=◌, >>=-eq-ok, length, if◌then◌else◌, ◌≡◌, refl, ap,
  arith, leb,
}
use usg_supplicant.Common.Bytes.{IsU64}
use usg_supplicant.Pac.{MatRecord, encode, decode, is_fresh, max_ticket_len}
use usg_supplicant.Pac.Record.{MatRecord_round_trip}
use usg_supplicant.Pac.Store.{fresh_ticket, in_memory, InMemory, Sealer, Files, file_store}

encoded :
    (r : MatRecord)
    → length r.ticket ≤ max_ticket_len
    → IsU64 r.stored_at_unix
    → (bytes : List ℕ) × (encode r ≡ ok bytes) × (decode bytes ≡ ok r)
encoded r h u = >>=-eq-ok (encode r) decode (MatRecord_round_trip r h u)

if-is_fresh :
    (r : MatRecord) (now_unix max_age_secs : ℕ)
    → (if is_fresh r now_unix max_age_secs then some r.ticket else none) ≡ (
        if leb r.stored_at_unix now_unix
        then (if leb (now_unix - r.stored_at_unix) max_age_secs then some r.ticket else none)
        else none)
unfolding is_fresh
if-is_fresh r now_unix max_age_secs = ground arith

-- Saving a record in the memory store and asking for a fresh ticket gives the record's ticket if
-- the time since it was stored is at most the maximum age, and none otherwise, also where the
-- clock moved backwards; after `clear` there is none. The lock is not poisoned, the ticket has at
-- most 64 KiB and its time 64 bits.
memory_save-fresh_ticket :
    (s : InMemory) (r : MatRecord) (now_unix max_age_secs : ℕ)
    → s.poisoned ≡ false
    → length r.ticket ≤ max_ticket_len
    → IsU64 r.stored_at_unix
    → let (saved, t) = in_memory.save r s in
      let (cleared, u) = in_memory.clear t in
      (saved ≡ ok tt)
      × (fresh_ticket in_memory t now_unix max_age_secs
          ≡ ok (
              if leb r.stored_at_unix now_unix
              then (if leb (now_unix - r.stored_at_unix) max_age_secs then some r.ticket else none)
              else none))
      × (cleared ≡ ok tt)
      × (fresh_ticket in_memory u now_unix max_age_secs ≡ ok none)
unfolding fresh_ticket
memory_save-fresh_ticket s r now_unix max_age_secs p h u =
    let (bytes, e, d) = encoded r h u in
    rw (e, p, d) (refl, ap ok (if-is_fresh r now_unix max_age_secs), refl, refl)

-- For a sealer whose `unseal` opens what it sealed and a file system on which a write succeeds and
-- is read back, `save` in the file store succeeds, and the fresh ticket is then the record's where
-- `is_fresh` holds, and none otherwise. The ticket has at most 64 KiB and its time 64 bits.
pub file_save-fresh_ticket :
    {F : Type 0} (sealer : Sealer) (files : Files F) (f : F) (r : MatRecord)
    (now_unix max_age_secs : ℕ)
    → length r.ticket ≤ max_ticket_len
    → IsU64 r.stored_at_unix
    → ((plain : List ℕ) → (sealer.seal plain >>= sealer.unseal) ≡ ok plain)
    → ((bytes : List ℕ) (g : F)
        → (k : F) × (files.write bytes g ≡ (ok tt, k)) × (files.read k ≡ ok bytes))
    → let (saved, g) = (file_store sealer files).save r f in
      (saved ≡ ok tt)
      × (fresh_ticket (file_store sealer files) g now_unix max_age_secs
          ≡ ok (if is_fresh r now_unix max_age_secs then some r.ticket else none))
unfolding fresh_ticket
file_save-fresh_ticket sealer files f r now_unix max_age_secs h u opens writes =
    let (bytes, e, d) = encoded r h u in
    let (sealed, s, o) = >>=-eq-ok (sealer.seal bytes) sealer.unseal (opens bytes) in
    let (k, w, reads) = writes sealed f in rw (e, s, w, reads, o, d) (refl, refl)
