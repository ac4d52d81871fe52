-- ===== src/Base/Concat.antt =====
-- Texts put one behind the other, as in a template.
use Prim.Native.String.{String, ◌++◌}
use mathlib.Core.List.{List, [], ◌∷◌}

abbrev pub concat : List String → String
concat [] = ""
concat (s ∷ rest) = s ++ concat rest
