-- ===== src/Config/Text.antt =====
-- A literal as the codes of its characters.
use Prim.Native.Nat.{ℕ}
use Prim.Native.Char.{code}
use Prim.Native.String.{String, [], ◌∷◌}
use mathlib.Core.List.{List, [] as []ᴸ, ◌∷◌ as ◌∷ᴸ◌}

unfoldable pub str : String → List ℕ
str [] = []ᴸ
str (c ∷ s) = code c ∷ᴸ str s
