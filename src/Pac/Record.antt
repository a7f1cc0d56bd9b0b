-- ===== src/Pac/Record.antt =====
-- crates/pac/src/record.rs: the octets of the stored record, and `decode` on them.
use usg_supplicant.Common.{
  ℕ, ◌+◌, ◌≤◌, true, List, [], ◌++◌, some, ok, ◌>>=◌, length, ◌≡◌, refl, ap, arith, le→leb,
  get_range, get_range-append, append-nil, length-append, ==_refl, and_then, ◌∙◌, ◌==◌, subst,
}
use usg_supplicant.Common.Bytes.{
  u64_from_be, IsU64, u32_from_be, u32_be, u64_be, u64_from_be-u64_be, u32_from_be-u32_be,
}
use usg_supplicant.Pac.{MatRecord, encode, decode, decode_ticket, max_ticket_len, same, magic}

get_range-append-end :
    (xs ys : List ℕ) → get_range (length xs) (length xs + length ys) (xs ++ ys) ≡ some ys
get_range-append-end xs ys =
    subst (λ zs. get_range (length xs) (length xs + length ys) (xs ++ zs) ≡ some ys) (append-nil ys)
      (get_range-append xs ys [])

decode_ticket_lem :
    (head ticket : List ℕ) (stored : ℕ)
    → length head ≡ 16
    → length ticket ≤ max_ticket_len
    → decode_ticket (head ++ ticket) stored (length ticket)
      ≡ ok (record { ticket = ticket; stored_at_unix = stored })
unfolding decode_ticket
decode_ticket_lem head ticket stored l h =
    let r : get_range 16 (16 + length ticket) (head ++ ticket) ≡ some ticket =
      subst (λ n. get_range n (n + length ticket) (head ++ ticket) ≡ some ticket) l
        (get_range-append-end head ticket) in
    let e : (16 + length ticket == length (head ++ ticket)) ≡ true =
      rw (length-append head ticket, l) (==_refl (16 + length ticket)) in
    rw (le→leb _ _ h, r, e) refl

decode_steps :
    (bytes : List ℕ) (stored declared : ℕ)
    → get_range 0 4 bytes ≡ some magic
    → and_then (get_range 4 12 bytes) u64_from_be ≡ some stored
    → and_then (get_range 12 16 bytes) u32_from_be ≡ some declared
    → decode bytes ≡ decode_ticket bytes stored declared
unfolding decode same
decode_steps bytes stored declared m t n = rw (m, t, n) refl

decode_lem :
    (r : MatRecord)
    → length r.ticket ≤ max_ticket_len
    → IsU64 r.stored_at_unix
    → decode (magic ++ (u64_be r.stored_at_unix ++ (u32_be (length r.ticket) ++ r.ticket))) ≡ ok r
decode_lem r h u =
    let time = u64_be r.stored_at_unix in
    let size = u32_be (length r.ticket) in
    let head = magic ++ (time ++ size) in
    decode_steps (head ++ r.ticket) r.stored_at_unix (length r.ticket)
      (get_range-append [] magic (time ++ (size ++ r.ticket)))
      (ap (λ o. and_then o u64_from_be) (get_range-append magic time (size ++ r.ticket))
        ∙ u64_from_be-u64_be r.stored_at_unix u)
      (ap (λ o. and_then o u32_from_be) (get_range-append (magic ++ time) size r.ticket)
        ∙ u32_from_be-u32_be (length r.ticket) (omega arith))
    ∙ decode_ticket_lem head r.ticket r.stored_at_unix refl h

-- A record with a ticket of at most 64 KiB and a 64-bit time is encoded, and `decode` reads the
-- same record back.
pub MatRecord_round_trip :
    (r : MatRecord)
    → length r.ticket ≤ max_ticket_len
    → IsU64 r.stored_at_unix
    → (encode r >>= decode) ≡ ok r
unfolding encode
MatRecord_round_trip r h u = rw (le→leb _ _ h) (decode_lem r h u)
