-- ===== src/Session/Flow.antt =====
-- The control flow of `step`: a stage either returns from the whole call, or goes on with the
-- TLVs to send so far (`out`).
use usg_supplicant.Common.{
  ℕ, Bool, true, false, not, List, [], ◌∷◌, ◌++◌, Option, none, some, Result, ok, ◌>>=◌, ◌==◌,
  if◌then◌else◌,
}
use usg_supplicant.KeySchedule.{TeapMac, KeySchedule}
use usg_supplicant.KeySchedule
use usg_supplicant.KeySchedule.Errors.{KeyScheduleError}
use usg_supplicant.Tlv.Raw.{RawTlv}
use usg_supplicant.Tlv.Body.Fields
use usg_supplicant.Tlv.Body.ResultTlv
use usg_supplicant.Session.Types.{SessionConfig, FailReason, failure, Answer, done, TeapSession}

pub data Flow : Type 0 where
  leave : Answer → Flow
  go_on : List RawTlv → Flow

abbrev pub then_stage {ℓ} : {S : Type ℓ} → Flow × S → (List RawTlv → S → Flow × S) → Flow × S
then_stage (leave a, s) k = (leave a, s)
then_stage (go_on out, s) k = k out s

unfoldable pub new :
    {I : Type 0} → SessionConfig → List ℕ → TeapMac → I → Result KeyScheduleError (TeapSession I)
new cfg session_key_seed mac inner = do
  ks ← KeySchedule.new session_key_seed
  ok (record {
    cfg = cfg;
    mac = mac;
    inner = inner;
    ks = ks;
    cmk = none;
    imsk = none;
    presented_mat = false;
    terminated = false;
  })

abbrev pub failure_tlv : RawTlv
failure_tlv = ResultTlv.to_tlv Fields.failure true

-- `fail_step`: terminate with a failure Result and the reason.
abbrev pub fail : {I : Type 0} → TeapSession I → List RawTlv → FailReason → Flow × TeapSession I
fail s out reason =
    (leave (ok (done (out ++ failure_tlv ∷ []) (failure reason))), record s { terminated = true })

-- First TLV of a type.
unfoldable pub find : List RawTlv → ℕ → Option RawTlv
find [] tlv_type = none
find (t ∷ ts) tlv_type = if t.tlv_type == tlv_type then some t else find ts tlv_type

-- The TLVs of a type, as `filter` gives them.
unfoldable pub of_type : ℕ → List RawTlv → List RawTlv
of_type tlv_type [] = []
of_type tlv_type (t ∷ ts) =
    let rest = of_type tlv_type ts in if t.tlv_type == tlv_type then t ∷ rest else rest

-- One round of the check on critical types: the first one is not mandatory, or there is a second.
abbrev pub is_malformed : List RawTlv → Bool
is_malformed [] = false
is_malformed (t ∷ []) = not t.mandatory
is_malformed (t ∷ u ∷ ts) = true

unfoldable pub any_malformed : List ℕ → List RawTlv → Bool
any_malformed [] inbound = false
any_malformed (t ∷ ts) inbound =
    if is_malformed (of_type t inbound) then true else any_malformed ts inbound
