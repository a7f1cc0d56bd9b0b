-- ===== src/Tlv/Body/RoundTrip.antt =====
-- crates/teap/src/tlv/body.rs: `from_value` on what `to_tlv` writes.
use usg_supplicant.Common.{
  ℕ, ◌≤◌, Bool, List, [], ◌++◌, some, ok, ◌>>=◌, length, get_range-append, get_from-append, ◌≡◌,
  ◌≢◌, refl, ap, arith,
}
use usg_supplicant.Common.Bytes.{
  IsU16, IsU32, u16_be, u32_be, u16_from_be-u16_be, u32_from_be-u32_be,
}
use usg_supplicant.Tlv.Raw.{max_tlvs}
use usg_supplicant.Tlv.Raw.RoundTrip.{AreValid, frames, encode_each_lem, parse_all-frames}
use usg_supplicant.Tlv.Body.Fields.{
  u16_at, u32_at, ResultStatus, success, failure, unknown, status_from_u16, status_to_u16,
}
use usg_supplicant.Tlv.Body.IdentityType
use usg_supplicant.Tlv.Body.IdentityType.{IdentityType}
use usg_supplicant.Tlv.Body.ResultTlv
use usg_supplicant.Tlv.Body.ErrorTlv
use usg_supplicant.Tlv.Body.IntermediateResultTlv
use usg_supplicant.Tlv.Body.IntermediateResultTlv.{IntermediateResultTlv}
use usg_supplicant.Tlv.Body.NakTlv
use usg_supplicant.Tlv.Body.NakTlv.{NakTlv}
use usg_supplicant.Tlv.Body.VendorSpecificTlv
use usg_supplicant.Tlv.Body.VendorSpecificTlv.{VendorSpecificTlv}

-- A field behind `pre`.
u16_at-append :
    (pre rest : List ℕ) (v : ℕ) → IsU16 v → u16_at (pre ++ (u16_be v ++ rest)) (length pre) ≡ some v
unfolding u16_at
u16_at-append pre rest v h = rw (get_range-append pre (u16_be v) rest) (u16_from_be-u16_be v h)

u32_at-append :
    (pre rest : List ℕ) (v : ℕ) → IsU32 v → u32_at (pre ++ (u32_be v ++ rest)) (length pre) ≡ some v
unfolding u32_at
u32_at-append pre rest v h = rw (get_range-append pre (u32_be v) rest) (u32_from_be-u32_be v h)

-- A status that is not one of the named ones under another name, in 16 bits.
abbrev pub IsStatus : ResultStatus → Type 0
IsStatus success = Unit {0}
IsStatus failure = Unit {0}
IsStatus (unknown v) = (v ≢ 1) × (v ≢ 2) × IsU16 v

abbrev pub IsIdentity : IdentityType → Type 0
IsIdentity IdentityType.user = Unit {0}
IsIdentity IdentityType.machine = Unit {0}
IsIdentity (IdentityType.unknown v) = (v ≢ 1) × (v ≢ 2) × IsU16 v

pub status_to_u16-IsU16 : (s : ResultStatus) → IsStatus s → IsU16 (status_to_u16 s)
unfolding status_to_u16
status_to_u16-IsU16 success h = omega arith
status_to_u16-IsU16 failure h = omega arith
status_to_u16-IsU16 (unknown v) h = h.2

pub status_from_u16-status_to_u16 :
    (s : ResultStatus) → IsStatus s → status_from_u16 (status_to_u16 s) ≡ s
unfolding status_from_u16 status_to_u16
status_from_u16-status_to_u16 success h = refl
status_from_u16-status_to_u16 failure h = refl
status_from_u16-status_to_u16 (unknown v) h = ground arith

pub IdentityType_round_trip :
    (it : IdentityType) (m : Bool)
    → IsIdentity it
    → IdentityType.from_value (IdentityType.to_tlv it m).value ≡ ok it
unfolding IdentityType.from_value IdentityType.to_tlv
IdentityType_round_trip IdentityType.user m h = rw (u16_at-append [] [] 1 (omega arith)) refl
IdentityType_round_trip IdentityType.machine m h = rw (u16_at-append [] [] 2 (omega arith)) refl
IdentityType_round_trip (IdentityType.unknown v) m h = rw (u16_at-append [] [] v h.2) (ground arith)

pub ResultTlv_round_trip :
    (s : ResultStatus) (m : Bool)
    → IsStatus s
    → ResultTlv.from_value (ResultTlv.to_tlv s m).value ≡ ok s
unfolding ResultTlv.from_value ResultTlv.to_tlv
ResultTlv_round_trip s m h =
    rw (u16_at-append [] [] (status_to_u16 s) (status_to_u16-IsU16 s h))
      (ap ok (status_from_u16-status_to_u16 s h))

pub ErrorTlv_round_trip :
    (code : ℕ) (m : Bool)
    → IsU32 code
    → ErrorTlv.from_value (ErrorTlv.to_tlv code m).value ≡ ok code
unfolding ErrorTlv.from_value ErrorTlv.to_tlv
ErrorTlv_round_trip code m h = rw (u32_at-append [] [] code h) refl

pub VendorSpecificTlv_round_trip :
    (vs : VendorSpecificTlv) (m : Bool)
    → IsU32 vs.vendor_id
    → VendorSpecificTlv.from_value (VendorSpecificTlv.to_tlv vs m).value ≡ ok vs
unfolding VendorSpecificTlv.from_value VendorSpecificTlv.to_tlv
VendorSpecificTlv_round_trip vs m h =
    rw (u32_at-append [] vs.body vs.vendor_id h, get_from-append (u32_be vs.vendor_id) vs.body) refl

-- An Intermediate-Result whose status is canonical and whose nested TLVs are encodable, at most
-- 4096 of them, is encoded, and whatever the Mandatory bit `from_value` reads the same one back.
IntermediateResultTlv_round_trip :
    (ir : IntermediateResultTlv) (m : Bool)
    → IsStatus ir.status
    → AreValid ir.tlvs
    → length ir.tlvs ≤ max_tlvs
    → (IntermediateResultTlv.to_tlv ir m >>= λ raw. IntermediateResultTlv.from_value raw.value)
      ≡ ok ir
unfolding IntermediateResultTlv.from_value IntermediateResultTlv.to_tlv
IntermediateResultTlv_round_trip ir m s v n =
    let w : ℕ = status_to_u16 ir.status in
    rw
      (
        encode_each_lem ir.tlvs (u16_be w) v,
        u16_at-append [] (frames ir.tlvs) w (status_to_u16-IsU16 ir.status s),
        get_from-append (u16_be w) (frames ir.tlvs),
        parse_all-frames ir.tlvs v n,
        status_from_u16-status_to_u16 ir.status s,
      )
      refl

-- A NAK with a vendor id of 32 bits and a type of 16 bits, and at most 4096 encodable TLVs, is
-- encoded, and whatever the Mandatory bit `from_value` reads the same one back.
NakTlv_round_trip :
    (k : NakTlv) (m : Bool)
    → IsU32 k.vendor_id
    → IsU16 k.nak_type
    → AreValid k.tlvs
    → length k.tlvs ≤ max_tlvs
    → (NakTlv.to_tlv k m >>= λ raw. NakTlv.from_value raw.value) ≡ ok k
unfolding NakTlv.from_value NakTlv.to_tlv
NakTlv_round_trip k m i t v n =
    rw
      (
        encode_each_lem k.tlvs (u32_be k.vendor_id ++ u16_be k.nak_type) v,
        u32_at-append [] (u16_be k.nak_type ++ frames k.tlvs) k.vendor_id i,
        u16_at-append (u32_be k.vendor_id) (frames k.tlvs) k.nak_type t,
        get_from-append (u32_be k.vendor_id ++ u16_be k.nak_type) (frames k.tlvs),
        parse_all-frames k.tlvs v n,
      )
      refl
