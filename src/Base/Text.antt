-- ===== src/Base/Text.antt =====
-- Concatenation of texts; `+++` associates to the right, so a printed text keeps its pieces apart.
use Prim.Native.String.{String}
use Prim.Native.String as NativeString
use Prim.Native.Nat.{ℕ}
use Prim.Native.Char.{code}
use mathlib.Core.List.{List, [], ◌∷◌}

infixr 65 ◌+++◌
abbrev pub ◌+++◌ : String → String → String
s +++ t = NativeString.◌++◌ s t

-- the code points of a text
abbrev pub codes : String → List ℕ
codes NativeString.[] = []
codes (NativeString.◌∷◌ c s) = code c ∷ codes s
