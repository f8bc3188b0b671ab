-- ===== src/Prelude/Text.antt =====
-- Text: appending and joining, as strings.Join does.
use Prim.Native.String.{String, ◌++◌}
use mathlib.Core.List.{List, [], ◌∷◌}

infixl 40 ◌<>◌
abbrev pub ◌<>◌ : String → String → String
s <> t = s ++ t

abbrev pub join : String → List String → String
join sep [] = ""
join sep (s ∷ []) = s
join sep (s ∷ (t ∷ ts)) = s <> (sep <> join sep (t ∷ ts))
