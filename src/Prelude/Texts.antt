-- ===== src/Prelude/Texts.antt =====
-- Python's `word in text` on strings.
use Prim.Native.String.{String, [], ◌∷◌, ◌++◌}
use mathlib.Core.Bool.{Bool, true, false, ◌&&◌, ◌||◌}
use sagittarius_engine.Prelude.Tests.{string_eq, ◌==◌}

abbrev pub starts_with : String → String → Bool
starts_with [] text = true
starts_with (c ∷ word) [] = false
starts_with (c ∷ word) (d ∷ text) = (c ∷ []) == (d ∷ []) && starts_with word text

abbrev pub mentions : String → String → Bool
mentions word [] = starts_with word []
mentions word (d ∷ text) = starts_with word (d ∷ text) || mentions word text

abbrev pub join : String → String → String
join a b = a ++ b
