-- ===== src/Common/Split.antt =====
-- `strings.Split` at a character.
use Prim.Native.Nat.{ℕ}
use Prim.Native.Char.{Char, code}
use Prim.Native.String.{String, [], ◌∷◌}
use mathlib.Core.List.{List, [] as empty, ◌∷◌ as cons}
use awp.Common.Tests.{eqb, if◌then◌else◌}

abbrev pub push : Char → List String → List String
push c empty = cons (c ∷ []) empty
push c (cons x xs) = cons (c ∷ x) xs

-- `strings.Split`
unfoldable pub split : ℕ → String → List String
split sep [] = cons [] empty
split sep (c ∷ s) = let rest = split sep s in if eqb (code c) sep then cons [] rest else push c rest
