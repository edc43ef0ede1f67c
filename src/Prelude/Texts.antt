-- ===== src/Prelude/Texts.antt =====
-- Python's `"".join(texts)` and `separator.join(texts)`.
use Prim.Native.String.{String, ◌++◌}
use mathlib.Core.List.{List, [], ◌∷◌}

unfoldable pub concat : List String → String
concat [] = ""
concat (t ∷ ts) = t ++ concat ts

unfoldable pub join : String → List String → String
join separator [] = ""
join separator (t ∷ []) = t
join separator (t ∷ u ∷ ts) = t ++ separator ++ join separator (u ∷ ts)
