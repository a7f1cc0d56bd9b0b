-- ===== src/Pac.antt =====
-- crates/pac/src/record.rs: the stored record of a Machine Authorization Ticket.
use usg_supplicant.Common.{
  ℕ, ◌+◌, ◌-◌, Bool, true, false, not, ◌&&◌, List, [], ◌∷◌, ◌++◌, Option, none, some, Result, ok,
  err, ◌>>=◌, ◌>>◌, guard, ok_or, and_then, length, leb, ◌==◌, if◌then◌else◌, get_range,
}
use usg_supplicant.Common.Bytes.{u32_be, u64_be, u32_from_be, u64_from_be}
use usg_supplicant.Common.Text.{octets}
pub mod Record
pub mod Store

-- `std::io::ErrorKind`, as far as the stores tell its values apart.
pub data IoErrorKind : Type 0 where
  not_found other : IoErrorKind

pub data PacError : Type 0 where
  bad_record : PacError
  too_large : (len : ℕ) → PacError
  seal unseal : (detail : ℕ) → PacError
  io : IoErrorKind → PacError
  locked : PacError

abbrev pub magic : List ℕ
magic = octets "MAT1"

abbrev pub header_len : ℕ
header_len = 16

abbrev pub max_ticket_len : ℕ
max_ticket_len = 65536

-- Equality of slices.
unfoldable pub same : List ℕ → List ℕ → Bool
same [] [] = true
same (x ∷ xs) (y ∷ ys) = x == y && same xs ys
same _ _ = false

pub record MatRecord : Type 0 where
  pub ticket : List ℕ
  pub stored_at_unix : ℕ  -- u64

unfoldable pub encode : MatRecord → Result PacError (List ℕ)
encode r =
    if leb (length r.ticket) max_ticket_len
    then ok (magic ++ (u64_be r.stored_at_unix ++ (u32_be (length r.ticket) ++ r.ticket)))
    else err (too_large (length r.ticket))

-- The part of `decode` behind the length: the checks on the ticket.
unfoldable pub decode_ticket : List ℕ → ℕ → ℕ → Result PacError MatRecord
decode_ticket bytes stored_at_unix declared = do
  guard (leb declared max_ticket_len) bad_record
  ticket ← ok_or (get_range header_len (header_len + declared) bytes) bad_record
  guard (header_len + declared == length bytes) bad_record
  ok (record { ticket = ticket; stored_at_unix = stored_at_unix })

unfoldable pub decode : List ℕ → Result PacError MatRecord
decode bytes = do
  m ← ok_or (get_range 0 4 bytes) bad_record
  guard (same m magic) bad_record
  stored_at_unix ← ok_or (and_then (get_range 4 12 bytes) u64_from_be) bad_record
  declared ← ok_or (and_then (get_range 12 16 bytes) u32_from_be) bad_record
  decode_ticket bytes stored_at_unix declared

-- `checked_sub` is `None` where the clock moved backwards.
unfoldable pub is_fresh : MatRecord → ℕ → ℕ → Bool
is_fresh r now_unix max_age_secs =
    leb r.stored_at_unix now_unix && leb (now_unix - r.stored_at_unix) max_age_secs
