-- ===== src/Config/Render.antt =====
-- Sections written as the lines of a configuration file, and the sections that can be.
use xbridge_witness.Base.{
  ℕ, String, ◌≡◌, Bool, true, false, none, List, [], ◌∷◌, ◌++◌, map, All, ◌=ℕ◌, Option, some, ◌==◌,
  if◌then◌else◌,
}
use Prim.Native.Char.{code}
use xbridge_witness.Base.Text.{append, truthy, strip, starts_with, split}
use xbridge_witness.Base.Dict.{Dict, lookup}
use xbridge_witness.Config.Section.{Section, section_header}
use xbridge_witness.Config.File.{add_section, header_name}

-- The line of a header, and that of a pair.
abbrev pub header_line : String → String
header_line name = String.◌∷◌ "[" (append name "]")

abbrev pub pair_line : String × String → String
pair_line (k, v) = append k (String.◌∷◌ "=" v)

abbrev pub render_section : Section → List String
render_section s = header_line s.name ∷ (s.lines ++ map pair_line s.kv_pairs)

abbrev pub render : List Section → List String
render [] = []
render (s ∷ ss) = render_section s ++ render ss

-- No character of the text is `k`.
abbrev pub Lacks : ℕ → String → Type 0
Lacks k String.[] = Unit
Lacks k (String.◌∷◌ c s) = ((code c =ℕ k) ≡ false) × Lacks k s

-- A line of content: stripped, not empty, no comment, and no header.
pub record IsContent (l : String) : Type 0 where
  pub stripped : strip l ≡ l
  pub not_empty : truthy l ≡ true
  pub no_comment : starts_with b'#' l ≡ false
  pub no_header : header_name (section_header l) ≡ none

-- A line with one `=` would be read as a pair.
abbrev pub is_pair : List String → Bool
is_pair (k ∷ v ∷ []) = true
is_pair _ = false

pub record IsPlain (l : String) : Type 0 where
  pub content : IsContent l
  pub no_pair : is_pair (split b'=' l) ≡ false

pub record IsPair (p : String × String) : Type 0 where
  pub content : IsContent (pair_line p)
  pub key_stripped : strip p.0 ≡ p.0
  pub value_stripped : strip p.1 ≡ p.1
  pub key_lacks : Lacks b'=' p.0
  pub value_lacks : Lacks b'=' p.1

-- No key stands twice.
abbrev pub Distinct : Dict String → Type 0
Distinct [] = Unit
Distinct ((k, v) ∷ d) = (lookup k d ≡ none) × Distinct d

pub record IsWritable (s : Section) : Type 0 where
  pub named : truthy s.name ≡ true
  pub plain_lines : All IsPlain s.lines
  pub pairs : All IsPair s.kv_pairs
  pub distinct : Distinct s.kv_pairs

-- The sections as the file holds them: a later section of a name takes the place of an earlier one.
abbrev pub collect : List Section → Dict Section → Dict Section
collect [] d = d
collect (s ∷ ss) d = collect ss (add_section s d)

-- The first of two options that there is.
abbrev pub prefer : {A : Type 0} → Option A → Option A → Option A
prefer none y = y
prefer (some x) y = some x

-- The last of the sections of a name.
abbrev pub last_named : String → List Section → Option Section
last_named name [] = none
last_named name (s ∷ ss) = prefer (last_named name ss) (if s.name == name then some s else none)
