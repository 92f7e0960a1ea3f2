-- ===== src/Base/Text.antt =====
-- Python's string methods that the program calls, over the characters of a text.
use Prim.Native.Nat.{ℕ}
use Prim.Native.Char.{Char, code}
use Prim.Native.String.{String, [], ◌∷◌}
use mathlib.Core.Bool.{Bool, true, false, ◌&&◌, ◌||◌}
use mathlib.Core.List.{List}
use mathlib.Core.Path.{◌≡◌, refl, ap}
use xbridge_witness.Base.Tests.{leb, ◌=ℕ◌, if◌then◌else◌}

-- `s + t`
abbrev pub append : String → String → String
append [] t = t
append (c ∷ s) t = c ∷ append s t

-- `bool(s)`
abbrev pub truthy : String → Bool
truthy [] = false
truthy (c ∷ s) = true

-- The characters that `str.strip` removes: those for which `str.isspace` holds.
abbrev pub is_space : ℕ → Bool
is_space c =
    leb 9 c && leb c 13
    || leb 28 c && leb c 32
    || c =ℕ 133
    || c =ℕ 160
    || c =ℕ 5760
    || leb 8192 c && leb c 8202
    || c =ℕ 8232
    || c =ℕ 8233
    || c =ℕ 8239
    || c =ℕ 8287
    || c =ℕ 12288

-- `s.lstrip()`
unfoldable pub lstrip : String → String
lstrip [] = []
lstrip (c ∷ s) = let rest = lstrip s in if is_space (code c) then rest else c ∷ s

abbrev pub keep : Char → String → String
keep c [] = if is_space (code c) then [] else c ∷ []
keep c (d ∷ s) = c ∷ d ∷ s

-- `s.rstrip()`: a character goes if it is a space and all behind it goes.
unfoldable pub rstrip : String → String
rstrip [] = []
rstrip (c ∷ s) = keep c (rstrip s)

-- `s.strip()`
unfoldable pub strip : String → String
unfolding lstrip rstrip
strip s = rstrip (lstrip s)

-- `s.endswith(c)` for one character
unfoldable pub ends_with : ℕ → String → Bool
ends_with k [] = false
ends_with k (c ∷ []) = code c =ℕ k
ends_with k (c ∷ d ∷ s) = ends_with k (d ∷ s)

-- `s.startswith(c)` for one character
abbrev pub starts_with : ℕ → String → Bool
starts_with k [] = false
starts_with k (c ∷ s) = code c =ℕ k

-- `s[:-1]`
unfoldable pub init : String → String
init [] = []
init (c ∷ []) = []
init (c ∷ d ∷ s) = c ∷ init (d ∷ s)

-- `s[1:-1]`
unfoldable pub inner : String → String
unfolding init
inner [] = []
inner (c ∷ s) = init s

-- The first part of a split grows by one character.
abbrev pub grow : Char → List String → List String
grow c List.[] = List.◌∷◌ (c ∷ []) List.[]
grow c (List.◌∷◌ p ps) = List.◌∷◌ (c ∷ p) ps

-- `s.split(sep)` for a separator of one character
unfoldable pub split : ℕ → String → List String
split sep [] = List.◌∷◌ [] List.[]
split sep (c ∷ s) =
    let rest = split sep s in if code c =ℕ sep then List.◌∷◌ [] rest else grow c rest

pub append-nil : (s : String) → append s [] ≡ s
append-nil [] = refl
append-nil (c ∷ s) = ap (λ t. c ∷ t) (append-nil s)

pub append_assoc : (s t u : String) → append (append s t) u ≡ append s (append t u)
append_assoc [] t u = refl
append_assoc (c ∷ s) t u = ap (λ r. c ∷ r) (append_assoc s t u)
