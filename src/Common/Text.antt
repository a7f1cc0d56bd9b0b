-- ===== src/Common/Text.antt =====
-- Byte strings: the octets of an ASCII literal.
use Prim.Native.Char.{code}
use Prim.Native.Nat.{ℕ}
use Prim.Native.String.{String}
use mathlib.Core.List.{List, [], ◌∷◌}

abbrev pub octets : String → List ℕ
octets String.[] = []
octets (String.◌∷◌ c s) = code c ∷ octets s
