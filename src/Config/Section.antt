-- ===== src/Config/Section.antt =====
-- `class Section` of bin/python/config_file.py.
use xbridge_witness.Base.{
  String, ◌&&◌, Option, none, some, List, [], ◌∷◌, ◌++◌, ◌==◌, if◌then◌else◌, Result, require,
  attribute_error,
}
use xbridge_witness.Base.Text.{starts_with, ends_with, inner, split, strip}
use xbridge_witness.Base.Dict.{Dict, lookup, insert}

pub record Section : Type 0 where
  pub name : String
  -- the lines that are no pair of a key and a value
  pub lines : List String
  pub kv_pairs : Dict String

-- `Section.section_header`: a line in square brackets.
unfoldable pub section_header : String → Option String
unfolding ends_with inner
section_header l = if starts_with b'[' l && ends_with b']' l then some (inner l) else none

-- `Section.__init__`
abbrev pub init_section : String → Section
init_section name = record { name = name; lines = []; kv_pairs = [] }

abbrev pub add_parts : Section → String → List String → Section
add_parts s l (k ∷ v ∷ []) = record s { kv_pairs = insert (strip k) (strip v) s.kv_pairs }
add_parts s l [] = record s { lines = s.lines ++ l ∷ [] }
add_parts s l (k ∷ []) = record s { lines = s.lines ++ l ∷ [] }
add_parts s l (k ∷ v ∷ w ∷ rest) = record s { lines = s.lines ++ l ∷ [] }

-- `Section.add_line`: one `=` makes a pair.
unfoldable pub add_line : String → Section → Section
unfolding split strip insert
add_line l s = add_parts s l (split b'=' l)

-- `Section.get_line`
unfoldable pub get_line : Section → Option String
get_line s = elim s.lines [ [] ↦ none | l ∷ ls ↦ some l ]

-- `Section.__getattr__`, for a name that is no attribute of the object
unfoldable pub get_attr : String → Section → Result String
unfolding lookup
get_attr k s = require attribute_error (lookup k s.kv_pairs)

-- `Section.__setattr__` on texts: the object's own `_name` is no key. (Its `_lines` and `_kv_pairs`
-- take no text.)
unfoldable pub set_attr : String → String → Section → Section
unfolding insert
set_attr k v s =
    if k == "_name" then record s { name = v } else record s { kv_pairs = insert k v s.kv_pairs }
