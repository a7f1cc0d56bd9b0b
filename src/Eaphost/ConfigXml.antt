-- ===== src/Eaphost/ConfigXml.antt =====
-- crates/eaphost/src/config_xml.rs: the connection data as hex text in one XML element.
pub mod RoundTrip
use usg_supplicant.Common.{
  ℕ, ◌+◌, ◌-◌, ◌*◌, ◌/◌, ◌%◌, Bool, true, false, not, ◌&&◌, ◌||◌, List, [], ◌∷◌, ◌++◌, Option, none,
  some, and_then, length, leb, ltb, ◌==◌, if◌then◌else◌, is_empty,
}
use usg_supplicant.Common.Text.{octets}

abbrev pub blob_element : List ℕ
blob_element = octets "UsgTeapConfigBlob"

-- One digit of `{b:02x}`.
abbrev pub lower_digit : ℕ → ℕ
lower_digit n = if ltb n 10 then 48 + n else 87 + n

unfoldable pub to_hex : List ℕ → List ℕ
to_hex [] = []
to_hex (b ∷ bytes) = lower_digit (b / 16) ∷ lower_digit (b % 16) ∷ to_hex bytes

-- `char::is_whitespace`
abbrev pub is_whitespace : ℕ → Bool
is_whitespace c =
    (c == 32 || (leb 9 c && leb c 13) || c == 0x85 || c == 0xa0)
    || (c == 0x1680 || (leb 0x2000 c && leb c 0x200a) || c == 0x2028 || c == 0x2029)
    || (c == 0x202f || c == 0x205f || c == 0x3000)

unfoldable pub trim_start : List ℕ → List ℕ
trim_start [] = []
trim_start (c ∷ cs) = let rest = trim_start cs in if is_whitespace c then rest else c ∷ cs

-- A white space character at the end stays only in front of what stays.
abbrev pub kept_before : ℕ → List ℕ → List ℕ
kept_before c [] = if is_whitespace c then [] else c ∷ []
kept_before c (d ∷ ds) = c ∷ d ∷ ds

unfoldable pub trim_end : List ℕ → List ℕ
trim_end [] = []
trim_end (c ∷ cs) = kept_before c (trim_end cs)

abbrev pub trim : List ℕ → List ℕ
trim s = trim_end (trim_start s)

-- `is_ascii_hexdigit` with the value that `from_str_radix` gives the digit.
unfoldable pub hex_value : ℕ → Option ℕ
hex_value c =
    if leb 48 c && leb c 57
    then some (c - 48)
    else if leb 65 c && leb c 70
    then some (c - 55)
    else if leb 97 c && leb c 102
    then some (c - 87)
    else none

-- The loop over `chunks_exact(2)`, on a text of even length. It takes characters in place of octets;
-- one that has more octets is no digit, nor is any of its octets.
unfoldable pub pairs : List ℕ → Option (List ℕ)
pairs [] = some []
pairs (c ∷ []) = some []
pairs (c ∷ d ∷ cs) = and_then (hex_value c) (λ high.
    and_then (hex_value d) (λ low. and_then (pairs cs) (λ rest. some ((high * 16 + low) ∷ rest))))

abbrev pub decode_trimmed : List ℕ → Option (List ℕ)
decode_trimmed s = if length s % 2 == 1 then none else pairs s

unfoldable pub from_hex : List ℕ → Option (List ℕ)
from_hex s = decode_trimmed (trim s)

-- `<` and `>` are 60 and 62, `/` is 47.
unfoldable pub blob_to_xml : List ℕ → List ℕ
blob_to_xml blob =
    (60 ∷ blob_element) ++ ((62 ∷ to_hex blob) ++ ((60 ∷ 47 ∷ blob_element) ++ 62 ∷ []))

abbrev pub not_empty : List ℕ → Option (List ℕ)
not_empty blob = if is_empty blob then none else some blob

unfoldable pub xml_text_to_blob : (doc_text : List ℕ) → Option (List ℕ)
xml_text_to_blob doc_text = and_then (from_hex doc_text) not_empty
