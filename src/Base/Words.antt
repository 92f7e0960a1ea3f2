-- ===== src/Base/Words.antt =====
-- `str.split()`, by which the interactive program cuts a line into words.
use Prim.Native.Char.{Char, code}
use Prim.Native.String.{String, [], ◌∷◌}
use mathlib.Core.Bool.{Bool, true, false, not}
use mathlib.Core.List.{List}
use xbridge_witness.Base.Tests.{◌=ℕ◌, if◌then◌else◌}
use xbridge_witness.Base.Text.{append, is_space}

-- Whether a text starts with a character of a word.
abbrev pub in_word : String → Bool
in_word [] = false
in_word (c ∷ s) = not (is_space (code c))

-- A character before the words of the rest: it joins the first of them if nothing is between.
abbrev pub attach : Char → Bool → List String → List String
attach c false ws = List.◌∷◌ (c ∷ []) ws
attach c true List.[] = List.◌∷◌ (c ∷ []) List.[]
attach c true (List.◌∷◌ w ws) = List.◌∷◌ (c ∷ w) ws

-- `s.split()`
unfoldable pub words : String → List String
words [] = List.[]
words (c ∷ s) = let rest = words s in if is_space (code c) then rest else attach c (in_word s) rest

-- `"".join(parts)`, and the value of an f-string
unfoldable pub concat : List String → String
concat List.[] = []
concat (List.◌∷◌ p ps) = append p (concat ps)

-- `sep.join(parts)`
unfoldable pub join : String → List String → String
join sep List.[] = []
join sep (List.◌∷◌ p List.[]) = p
join sep (List.◌∷◌ p (List.◌∷◌ q ps)) = append p (append sep (join sep (List.◌∷◌ q ps)))

-- `s.startswith(p)`
unfoldable pub has_prefix : String → String → Bool
has_prefix [] s = true
has_prefix (c ∷ p) [] = false
has_prefix (c ∷ p) (d ∷ s) = let rest = has_prefix p s in if code c =ℕ code d then rest else false
