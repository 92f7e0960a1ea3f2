-- ===== src/Setup/CfgRead.antt =====
-- How `ConfigFile` of bin/python/config_file.py reads lines that open no section of a given name, and the line
-- of a port.
use xbridge_witness.Base.{
  ℕ, ◌+◌, String, true, false, ◌||◌, not, Option, some, List, [], ◌∷◌, ◌≡◌, refl, ◌∙◌, ◌==◌, ok,
  ◌>>=◌, arith, Bool-cases, Option-cases, inl, inr,
}
use xbridge_witness.Base.Text.{strip, starts_with, truthy, split}
use xbridge_witness.Base.Dict.{Dict, lookup, lookup-insert}
use xbridge_witness.Config.Section.{Section, section_header, init_section, add_line, add_parts}
use xbridge_witness.Config.File.{Loop, add_section, header_name, flush, parse_line, parse_lines}
use xbridge_witness.Setup.CfgLines.{opens, quiet_lines}

name-add_parts : (s : Section) (l : String) (ps : List String) → (add_parts s l ps).name ≡ s.name
name-add_parts s l [] = refl
name-add_parts s l (k ∷ []) = refl
name-add_parts s l (k ∷ v ∷ []) = refl
name-add_parts s l (k ∷ v ∷ w ∷ rest) = refl

name-add_line : (l : String) (s : Section) → (add_line l s).name ≡ s.name
unfolding add_line
name-add_line l s = name-add_parts s l (split b'=' l)

abbrev pub inside : Dict Section → Section → Loop
inside d s = record { sections = d; cur_section = some s }

-- After a line, the section that is open is not `k`, and what is kept under `k` is `kept`.
pub record Keeps (k : String) (kept : Option Section) (st : Loop) : Type 0 where
  pub sections : Dict Section
  pub section : Section
  pub is_inside : st ≡ inside sections section
  pub other : (section.name == k) ≡ false
  pub keeps : lookup k sections ≡ kept

module _ (file k : String) where
  lookup-add_section :
      (s : Section) (d : Dict Section)
      → (s.name == k) ≡ false
      → lookup k (add_section s d) ≡ lookup k d
  unfolding add_section
  lookup-add_section s d h = rw (lookup-insert s.name k s d, h)

  parse_line-Keeps :
      (n : ℕ) (l : String) (d : Dict Section) (s : Section)
      → (s.name == k) ≡ false
      → opens k l ≡ false
      → (st : Loop) × (parse_line file n (strip l) (inside d s) ≡ ok st) × Keeps k (lookup k d) st
  unfolding parse_line opens
  parse_line-Keeps n l d s h q =
      elim (Bool-cases (starts_with b'#' (strip l) || not (truthy (strip l)))) [
        | inl e ↦ (
          inside d s,
          rw e,
          record { sections = d; section = s; is_inside = refl; other = h; keeps = refl },
        )
        | inr e ↦ elim (Option-cases (header_name (section_header (strip l)))) [
          | inl f ↦ (
            inside d (add_line (strip l) s),
            rw (e, f),
            record {
              sections = d;
              section = add_line (strip l) s;
              is_inside = refl;
              other = rw (name-add_line (strip l) s, h);
              keeps = refl;
            },
          )
          | inr (name, f) ↦ (
            inside (add_section s d) (init_section name),
            rw (e, f),
            record {
              sections = add_section s d;
              section = init_section name;
              is_inside = refl;
              other = rw f at q;
              keeps = lookup-add_section s d h;
            },
          )
        ]
      ]

  -- Lines that do not open `k` are read without an error, and what is kept under `k` stays.
  pub parse_lines-quiet :
      (ls : List String) (n : ℕ) (d : Dict Section) (s : Section)
      → (s.name == k) ≡ false
      → quiet_lines k ls ≡ true
      → (r : Dict Section) × ((parse_lines file n ls (inside d s) >>= λ st. ok (flush st)) ≡ ok r)
        × (lookup k r ≡ lookup k d)
  unfolding parse_lines quiet_lines
  parse_lines-quiet [] n d s h q = (add_section s d, refl, lookup-add_section s d h)
  parse_lines-quiet (l ∷ ls) n d s h q =
      let (p, later) : (opens k l ≡ false) × (quiet_lines k ls ≡ true) = ground arith in
      let (st, e, kept) = parse_line-Keeps n l d s h p in
      let (r, f, g) = parse_lines-quiet ls (n + 1) kept.sections kept.section kept.other later in
      (r, rw (e, kept.is_inside, f), g ∙ kept.keeps)
