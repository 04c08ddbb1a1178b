-- ===== src/Base/Text.antt =====
-- Native texts: their length in characters and their concatenation.
use Prim.Native.Nat.{ℕ, suc}
use Prim.Native.String.{String}

-- Python's `len`, which counts code points.
abbrev pub text_length : String → ℕ
text_length String.[] = 0
text_length (String.◌∷◌ c s) = suc (text_length s)
