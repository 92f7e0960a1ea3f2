-- ===== src/Config/File.antt =====
-- `class ConfigFile` of bin/python/config_file.py, on the lines of the file.
use xbridge_witness.Base.{
  ℕ, ◌+◌, String, Bool, true, ◌||◌, not, Option, none, some, List, [], ◌∷◌, if◌then◌else◌, Result,
  ok, err, value_error, attribute_error, require, ◌>>=◌,
}
use xbridge_witness.Base.Text.{append, truthy, strip, starts_with}
use xbridge_witness.Base.Decimal.{show_ℕ}
use xbridge_witness.Base.Dict.{Dict, lookup, insert}
use xbridge_witness.Config.Section.{Section, section_header, init_section, add_line}

pub record ConfigFile : Type 0 where
  pub file_name : Option String
  pub sections : Dict Section

-- The variables of the loop.
pub record Loop : Type 0 where
  pub sections : Dict Section
  pub cur_section : Option Section

-- `ConfigFile.add_section`
unfoldable pub add_section : Section → Dict Section → Dict Section
unfolding insert
add_section s d = insert s.name s d

-- `if cur_section: self.add_section(cur_section)`
abbrev pub flush : Loop → Dict Section
flush st = elim st.cur_section [ none ↦ st.sections | some s ↦ add_section s st.sections ]

abbrev pub parse_error : String → ℕ → String → String
parse_error file n l =
    append "Error parsing config file: "
      (append file (append " line_num: " (append (show_ℕ n) (append " line: " l))))

-- `section_name := Section.section_header(l)`, where an empty name counts as none.
abbrev pub header_name : Option String → Option String
header_name none = none
header_name (some s) = if truthy s then some s else none

abbrev pub into_section : String → ℕ → String → Loop → Result Loop
into_section file n l st = elim st.cur_section [
  | none ↦ err (value_error (parse_error file n l))
  | some s ↦ ok (record st { cur_section = some (add_line l s) })
]

abbrev pub open_section : String → Loop → Loop
open_section name st = record { sections = flush st; cur_section = some (init_section name) }

-- One round of the loop on a stripped line.
unfoldable pub parse_line : String → ℕ → String → Loop → Result Loop
unfolding section_header add_section add_line
parse_line file n l st =
    if starts_with b'#' l || not (truthy l) then ok st else (elim (header_name (section_header l)) [
      | some name ↦ ok (open_section name st)
      | none ↦ into_section file n l st
    ])

-- The loop over the lines, counted from `n`.
unfoldable pub parse_lines : String → ℕ → List String → Loop → Result Loop
unfolding parse_line strip
parse_lines file n [] st = ok st
parse_lines file n (l ∷ ls) st = parse_line file n (strip l) st >>= parse_lines file (n + 1) ls

abbrev pub no_sections : Loop
no_sections = record { sections = []; cur_section = none }

-- The constructor for a file name, with the lines that the file has.
unfoldable pub parse_file : String → List String → Result (Dict Section)
unfolding parse_lines
parse_file file ls = parse_lines file 0 ls no_sections >>= λ st. ok (flush st)

abbrev no_name : Option String → Bool
no_name none = true
no_name (some f) = not (truthy f)

abbrev text_of : Option String → String
text_of none = ""
text_of (some f) = f

-- `ConfigFile.__init__`: without a file name there are no sections.
unfoldable pub init_config : Option String → List String → Result ConfigFile
unfolding parse_file
init_config file ls =
    if no_name file
    then ok (record { file_name = file; sections = [] })
    else parse_file (text_of file) ls >>= λ d. ok (record { file_name = file; sections = d })

-- `ConfigFile.__getattr__`, for a name that is no attribute of the object
unfoldable pub get_section : String → ConfigFile → Result Section
unfolding lookup
get_section k c = require attribute_error (lookup k c.sections)
