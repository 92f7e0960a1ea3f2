-- ===== src/Config/Errors.antt =====
-- Files that the parser refuses.
use xbridge_witness.Base.{
  ℕ, ◌+◌, String, ◌≡◌, ap, ◌∙◌, true, ◌||◌, not, none, List, [], ◌∷◌, ◌++◌, err, value_error, All,
  length, ◌>>=◌, arith, false, Result, ok,
}
use xbridge_witness.Base.Text.{truthy, strip, starts_with}
use xbridge_witness.Config.Section.{section_header}
use xbridge_witness.Config.File.{
  no_sections, header_name, parse_error, Loop, flush, parse_line, parse_lines, parse_file,
}

-- A line that the loop passes over: blank, or a comment.
abbrev pub IsIgnored : String → Type 0
IsIgnored l = (starts_with b'#' (strip l) || not (truthy (strip l))) ≡ true

-- A line that is neither passed over nor the header of a section with a name.
pub record IsOrphan (l : String) : Type 0 where
  pub read : (starts_with b'#' (strip l) || not (truthy (strip l))) ≡ false
  pub no_header : header_name (section_header (strip l)) ≡ none

abbrev refused : String → Result Loop
refused e = err (value_error e)

error_at :
    (file : String) (l : String) (n m : ℕ)
    → n ≡ m
    → refused (parse_error file n l) ≡ refused (parse_error file m l)
error_at file l n m e = cc

parse_lines_orphan :
    (file : String) (before : List String) (l : String) (rest : List String) (n : ℕ)
    → All IsIgnored before
    → IsOrphan l
    → parse_lines file n (before ++ l ∷ rest) no_sections
      ≡ err (value_error (parse_error file (n + length before) (strip l)))
unfolding parse_lines parse_line
parse_lines_orphan file [] l rest n h o =
    rw (o.read, o.no_header) (error_at file (strip l) n (n + 0) (omega arith))
parse_lines_orphan file (b ∷ before) l rest n h o = rw (h.0) (
    parse_lines_orphan file before l rest (n + 1) h.1 o
    ∙ error_at file (strip l) (n + 1 + length before) (n + length (b ∷ before)) (omega arith))

-- If the first line that is not passed over is no header, the parser raises a ValueError that names
-- the file, the line, and the line's number counted from 0, whatever follows.
pub parse_file_orphan :
    (file : String) (before : List String) (l : String) (rest : List String)
    → All IsIgnored before
    → IsOrphan l
    → parse_file file (before ++ l ∷ rest)
      ≡ err (value_error (parse_error file (length before) (strip l)))
unfolding parse_file
parse_file_orphan file before l rest h o =
    ap (λ r. r >>= λ st. ok (flush st))
      (parse_lines_orphan file before l rest 0 h o
        ∙ error_at file (strip l) (0 + length before) (length before) (omega arith))
