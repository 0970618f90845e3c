-- ===== src/Prelude/Text.antt =====
-- Texts as they are compared and taken apart: Go's strings, read as native texts. The texts that
-- the program takes apart (phone numbers, routing values) are cut at ASCII characters only.
use Prim.Native.Char.{code}
use Prim.Native.Nat.{ℕ}
use Prim.Native.String.{String}
use mathlib.Core.Bool.{Bool}
use mathlib.Core.List.{List, [], ◌∷◌}
use text.Mathlib.Text.{◌==◌}

-- The code points of a text.
abbrev pub codes : String → List ℕ
codes String.[] = []
codes (String.◌∷◌ c s) = code c ∷ codes s

-- `s[1:]` of a text that begins with an ASCII character; the empty text stays empty.
abbrev pub rest_of : String → String
rest_of String.[] = ""
rest_of (String.◌∷◌ c s) = s

-- `s == ""`
abbrev pub is_empty : String → Bool
is_empty s = s == ""

infixr 65 ◌<>◌
-- Go's `+` on strings.
abbrev pub ◌<>◌ : String → String → String
s <> t = Prim.Native.String.◌++◌ s t
