-- ===== src/Outer/Reassembler.antt =====
-- crates/teap/src/outer.rs: `Reassembler`. `push` changes the state on its error paths too, so it
-- returns the state beside the result. Offsets and lengths are those of one buffer.
use usg_supplicant.Common.{
  ℕ, ◌+◌, Bool, false, not, List, [], ◌++◌, Option, none, some, Result, ok, err, unwrap_or, length,
  saturating_add, ltb, ◌==◌, if◌then◌else◌,
}
use usg_supplicant.Tlv.Error.{TlvError, truncated_value, too_many_tlvs}
use usg_supplicant.Outer.{TeapOuter, teap_eap_type}

abbrev pub max_fragments : ℕ
max_fragments = 1024

pub record Reassembler : Type 0 where
  pub buf : List ℕ
  pub expected_total : Option ℕ
  pub max_total : ℕ
  pub fragments : ℕ

unfoldable pub new : ℕ → Reassembler
new max_total = record { buf = []; expected_total = none; max_total = max_total; fragments = 0 }

-- The `match self.expected_total` of a fragment that declares a total.
abbrev pub record_total : Option ℕ → ℕ → Result TlvError (Option ℕ)
record_total none declared = ok (some declared)
record_total (some prev) declared =
    if prev == declared then ok (some prev) else err (truncated_value teap_eap_type declared prev)

-- The new `expected_total`.
abbrev pub note_total : Reassembler → Option ℕ → Result TlvError (Option ℕ)
note_total r none = ok r.expected_total
note_total r (some declared) =
    if ltb r.max_total declared
    then err (too_many_tlvs r.max_total)
    else record_total r.expected_total declared

abbrev pub total_differs : Option ℕ → ℕ → Bool
total_differs none len = false
total_differs (some total) len = not (len == total)

-- Behind the append, where the message is complete.
unfoldable pub finish_message : Reassembler → Result TlvError (Option (List ℕ)) × Reassembler
finish_message r =
    if total_differs r.expected_total (length r.buf)
    then (err (truncated_value teap_eap_type (unwrap_or r.expected_total 0) (length r.buf)), r)
    else (ok (some r.buf), record r { expected_total = none; fragments = 0; buf = [] })

unfoldable pub append_fragment :
    Reassembler → TeapOuter → Result TlvError (Option (List ℕ)) × Reassembler
append_fragment r o =
    let new_len = length r.buf + length o.body in
    let r' = record r { buf = r.buf ++ o.body } in
    if ltb r.max_total new_len
    then (err (too_many_tlvs r.max_total), r)
    else if o.more_fragments
    then (ok none, r')
    else finish_message r'

-- Behind the fragment count.
unfoldable pub push_counted :
    Result TlvError (Option ℕ)
    → Reassembler
    → TeapOuter
    → Result TlvError (Option (List ℕ)) × Reassembler
push_counted (err e) r o = (err e, r)
push_counted (ok total) r o = append_fragment (record r { expected_total = total }) o

unfoldable pub push : Reassembler → TeapOuter → Result TlvError (Option (List ℕ)) × Reassembler
push r o =
    let counted = record r { fragments = saturating_add r.fragments 1 } in
    if ltb max_fragments counted.fragments
    then (err (too_many_tlvs max_fragments), counted)
    else push_counted (note_total counted o.tls_message_length) counted o
