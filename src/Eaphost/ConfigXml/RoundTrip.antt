-- ===== src/Eaphost/ConfigXml/RoundTrip.antt =====
-- crates/eaphost/src/config_xml.rs: reading the hex text of the connection data.
use usg_supplicant.Common.{
  ℕ, ◌+◌, ◌*◌, ◌/◌, ◌%◌, ◌<◌, true, false, List, [], ◌∷◌, ◌++◌, some, length, ◌==◌, All, ◌≡◌, refl,
  ap, arith,
}
use usg_supplicant.Common.Bytes.{AreBytes}
use usg_supplicant.Eaphost.ConfigXml.{
  to_hex, from_hex, lower_digit, is_whitespace, trim_start, trim_end, kept_before, hex_value, pairs,
  not_empty, xml_text_to_blob,
}

hex_value-lower_digit : (n : ℕ) → n < 16 → hex_value (lower_digit n) ≡ some n
unfolding hex_value
hex_value-lower_digit n h = ground arith

digit_not_whitespace : (n : ℕ) → n < 16 → is_whitespace (lower_digit n) ≡ false
digit_not_whitespace n h = ground arith

length-to_hex : (bytes : List ℕ) → length (to_hex bytes) ≡ 2 * length bytes
unfolding to_hex
length-to_hex [] = refl
length-to_hex (b ∷ bytes) = omega (arith, length-to_hex bytes)

pairs-to_hex : (bytes : List ℕ) → AreBytes bytes → pairs (to_hex bytes) ≡ some bytes
unfolding to_hex pairs
pairs-to_hex [] h = refl
pairs-to_hex (b ∷ bytes) (lt, h) =
    let whole : b / 16 * 16 + b % 16 ≡ b = omega arith in
    rw
      (
        hex_value-lower_digit (b / 16) (omega arith),
        hex_value-lower_digit (b % 16) (omega arith),
        pairs-to_hex bytes h,
        whole,
      )
      refl

kept_some : (c : ℕ) (s : List ℕ) → is_whitespace c ≡ false → kept_before c s ≡ c ∷ s
kept_some c [] h = rw h refl
kept_some c (d ∷ ds) h = refl

trim_end-to_hex : (bytes : List ℕ) → AreBytes bytes → trim_end (to_hex bytes) ≡ to_hex bytes
unfolding to_hex trim_end
trim_end-to_hex [] h = refl
trim_end-to_hex (b ∷ bytes) (lt, h) =
    let low = digit_not_whitespace (b % 16) (omega arith) in
    let high = digit_not_whitespace (b / 16) (omega arith) in
    rw
      (
        trim_end-to_hex bytes h,
        kept_some (lower_digit (b % 16)) (to_hex bytes) low,
        kept_some (lower_digit (b / 16)) (lower_digit (b % 16) ∷ to_hex bytes) high,
      )
      refl

even-to_hex : (bytes : List ℕ) → (length (to_hex bytes) % 2 == 1) ≡ false
even-to_hex bytes = let e = length-to_hex bytes in rw e (ground arith)

abbrev pub AreSpaces : List ℕ → Type 0
AreSpaces s = All (λ c. is_whitespace c ≡ true) s

trim_start-append : (before s : List ℕ) → AreSpaces before → trim_start (before ++ s) ≡ trim_start s
unfolding trim_start
trim_start-append [] s h = refl
trim_start-append (c ∷ cs) s (w, h) = rw w (trim_start-append cs s h)

trim_end-spaces : (s : List ℕ) → AreSpaces s → trim_end s ≡ []
unfolding trim_end
trim_end-spaces [] h = refl
trim_end-spaces (c ∷ cs) (w, h) = rw (trim_end-spaces cs h, w) refl

trim_end-append : (s after : List ℕ) → AreSpaces after → trim_end (s ++ after) ≡ trim_end s
unfolding trim_end
trim_end-append [] after h = trim_end-spaces after h
trim_end-append (c ∷ cs) after h = ap (kept_before c) (trim_end-append cs after h)

-- A text that begins with a digit begins with no white space.
trim_start-digits :
    (bytes after : List ℕ)
    → AreBytes bytes
    → 0 < length bytes
    → trim_start (to_hex bytes ++ after) ≡ to_hex bytes ++ after
unfolding to_hex trim_start
trim_start-digits [] after h p = absurd (omega arith)
trim_start-digits (b ∷ bytes) after (lt, h) p =
    rw (digit_not_whitespace (b / 16) (omega arith)) refl

not_empty-eq-some : (bytes : List ℕ) → 0 < length bytes → not_empty bytes ≡ some bytes
not_empty-eq-some [] p = absurd (omega arith)
not_empty-eq-some (b ∷ bytes) p = refl

-- Connection data of at least one octet are read back from their hex text, whatever white space
-- stands around it.
pub xml_text_to_blob-to_hex :
    (before blob after : List ℕ)
    → AreBytes blob
    → 0 < length blob
    → AreSpaces before
    → AreSpaces after
    → xml_text_to_blob (before ++ (to_hex blob ++ after)) ≡ some blob
unfolding xml_text_to_blob from_hex
xml_text_to_blob-to_hex before blob after h p b a =
    rw
      (
        trim_start-append before (to_hex blob ++ after) b,
        trim_start-digits blob after h p,
        trim_end-append (to_hex blob) after a,
        trim_end-to_hex blob h,
        even-to_hex blob,
        pairs-to_hex blob h,
      )
      (not_empty-eq-some blob p)
