-- ===== src/Config/RoundTrip.antt =====
-- A file that is written from sections is parsed into those sections.
use xbridge_witness.Base.{
  ℕ, ◌+◌, String, ◌≡◌, refl, ap, sym, ◌∙◌, true, false, none, some, List, [], ◌∷◌, ◌++◌, map, ok,
  ◌>>=◌, All, arith, length, ◌==◌, eq_iff, Option, Bool, if◌then◌else◌,
}
use mathlib.Core.List.{append_assoc, append-nil}
use xbridge_witness.Base.Text.{append, truthy, strip, rstrip, ends_with, init, split}
use xbridge_witness.Base.Dict.{Dict, lookup, insert, lookup-insert}
use xbridge_witness.Config.Section.{Section, section_header, init_section, add_line, add_parts}
use xbridge_witness.Config.File.{
  Loop, no_sections, flush, open_section, parse_line, parse_lines, parse_file, add_section,
}
use xbridge_witness.Config.Render.{
  header_line, pair_line, render_section, render, Lacks, IsContent, is_pair, IsPlain, IsPair,
  Distinct, IsWritable, collect, prefer, last_named,
}

split-Lacks : (s : String) → Lacks b'=' s → split b'=' s ≡ s ∷ []
unfolding split
split-Lacks String.[] h = refl
split-Lacks (String.◌∷◌ c s) h = rw (h.0, split-Lacks s h.1)

split-pair_line :
    (k v : String) → Lacks b'=' k → Lacks b'=' v → split b'=' (pair_line (k, v)) ≡ k ∷ v ∷ []
unfolding split
split-pair_line String.[] v hk hv = rw (split-Lacks v hv)
split-pair_line (String.◌∷◌ c k) v hk hv = rw (hk.0, split-pair_line k v hk.1 hv)

rstrip_bracket : (s : String) → rstrip (append s "]") ≡ append s "]"
unfolding rstrip
rstrip_bracket String.[] = refl
rstrip_bracket (String.◌∷◌ c String.[]) = refl
rstrip_bracket (String.◌∷◌ c (String.◌∷◌ d s)) = rw (rstrip_bracket (String.◌∷◌ d s))

strip-header_line : (name : String) → strip (header_line name) ≡ header_line name
unfolding strip
strip-header_line name = rstrip_bracket (String.◌∷◌ "[" name)

ends_with_bracket : (s : String) → ends_with b']' (append s "]") ≡ true
unfolding ends_with
ends_with_bracket String.[] = refl
ends_with_bracket (String.◌∷◌ c String.[]) = refl
ends_with_bracket (String.◌∷◌ c (String.◌∷◌ d s)) = ends_with_bracket (String.◌∷◌ d s)

init_bracket : (s : String) → init (append s "]") ≡ s
unfolding init
init_bracket String.[] = refl
init_bracket (String.◌∷◌ c String.[]) = refl
init_bracket (String.◌∷◌ c (String.◌∷◌ d s)) = ap (String.◌∷◌ c) (init_bracket (String.◌∷◌ d s))

section_header-header_line : (name : String) → section_header (header_line name) ≡ some name
unfolding section_header
section_header-header_line name =
    rw (ends_with_bracket (String.◌∷◌ "[" name)) (ap some (init_bracket name))

module _ (file : String) where
  parse_line-header_line :
      (n : ℕ) (name : String) (st : Loop)
      → truthy name ≡ true
      → parse_line file n (strip (header_line name)) st ≡ ok (open_section name st)
  unfolding parse_line
  parse_line-header_line n name st h =
      rw (strip-header_line name, section_header-header_line name, h)

  parse_line_content :
      (n : ℕ) (l : String) (d : Dict Section) (s : Section)
      → IsContent l
      → parse_line file n (strip l) (record { sections = d; cur_section = some s })
        ≡ ok (record { sections = d; cur_section = some (add_line l s) })
  unfolding parse_line
  parse_line_content n l d s c = rw (c.stripped, c.no_comment, c.not_empty, c.no_header, c.stripped)

add_line_plain :
    (l : String) (s : Section)
    → is_pair (split b'=' l) ≡ false
    → add_line l s ≡ record s { lines = s.lines ++ l ∷ [] }
unfolding add_line
add_line_plain l s h = go (split b'=' l) h
  where
    go :
        (ps : List String)
        → is_pair ps ≡ false
        → add_parts s l ps ≡ record s { lines = s.lines ++ l ∷ [] }
    go [] h = refl
    go (k ∷ []) h = refl
    go (k ∷ v ∷ []) h = cc
    go (k ∷ v ∷ w ∷ rest) h = refl

insert_fresh {ℓ} :
    {V : Type ℓ} (k : String) (v : V) (d : Dict V)
    → lookup k d ≡ none
    → insert k v d ≡ d ++ (k, v) ∷ []
unfolding insert lookup
insert_fresh k v [] h = refl
insert_fresh k v ((j, w) ∷ d) h = ground (arith, insert_fresh k v d)

later_ne :
    (j k v : String) (d r : Dict String) → lookup j (d ++ (k, v) ∷ r) ≡ none → (j == k) ≡ false
unfolding lookup
later_ne j k v [] r h = ground (arith, eq_iff j k, eq_iff k j)
later_ne j k v ((i, w) ∷ d) r h = ground (arith, later_ne j k v d r)

fresh_of_Distinct :
    (k v : String) (d r : Dict String) → Distinct (d ++ (k, v) ∷ r) → lookup k d ≡ none
unfolding lookup
fresh_of_Distinct k v [] r h = refl
fresh_of_Distinct k v ((j, w) ∷ d) r h = rw (later_ne j k v d r h.0) (fresh_of_Distinct k v d r h.1)

add_line_pair :
    (p : String × String) (s : Section) (r : Dict String)
    → IsPair p
    → Distinct (s.kv_pairs ++ p ∷ r)
    → add_line (pair_line p) s ≡ record s { kv_pairs = s.kv_pairs ++ p ∷ [] }
unfolding add_line
add_line_pair (k, v) s r c h = rw (
  split-pair_line k v c.key_lacks c.value_lacks,
  c.key_stripped,
  c.value_stripped,
  insert_fresh k v s.kv_pairs (fresh_of_Distinct k v s.kv_pairs r h),
)

module _ (file : String) (d : Dict Section) where
  abbrev at_section : Section → Loop
  at_section s = record { sections = d; cur_section = some s }

  at_same :
      (n m : ℕ) (rest : List String) (a b : Section)
      → n ≡ m
      → a ≡ b
      → parse_lines file n rest (at_section a) ≡ parse_lines file m rest (at_section b)
  at_same n m rest a b p q = cc

  parse_lines_plain :
      (ls rest : List String) (n : ℕ) (s : Section)
      → All IsPlain ls
      → parse_lines file n (ls ++ rest) (at_section s)
        ≡ parse_lines file (n + length ls) rest (at_section (record s { lines = s.lines ++ ls }))
  unfolding parse_lines
  parse_lines_plain [] rest n s h =
      at_same n (n + 0) rest s _ (omega arith)
        (ap (λ l. record s { lines = l }) (sym (append-nil s.lines)))
  parse_lines_plain (l ∷ ls) rest n s h =
      rw (parse_line_content file n l d s h.0.content, add_line_plain l s h.0.no_pair)
        (parse_lines_plain ls rest (n + 1) (record s { lines = s.lines ++ l ∷ [] }) h.1
          ∙ at_same _ _ rest _ _ (omega arith)
              (ap (λ t. record s { lines = t }) (append_assoc s.lines (l ∷ []) ls)))

  parse_lines_pairs :
      (ps : Dict String) (rest : List String) (n : ℕ) (s : Section)
      → All IsPair ps
      → Distinct (s.kv_pairs ++ ps)
      → parse_lines file n (map pair_line ps ++ rest) (at_section s)
        ≡ parse_lines file
            (n + length ps)
            rest
            (at_section (record s { kv_pairs = s.kv_pairs ++ ps }))
  unfolding parse_lines
  parse_lines_pairs [] rest n s h u =
      at_same n (n + 0) rest s _ (omega arith)
        (ap (λ l. record s { kv_pairs = l }) (sym (append-nil s.kv_pairs)))
  parse_lines_pairs (p ∷ ps) rest n s h u =
      rw (parse_line_content file n (pair_line p) d s h.0.content, add_line_pair p s ps h.0 u)
        (parse_lines_pairs ps rest (n + 1) (record s { kv_pairs = s.kv_pairs ++ p ∷ [] }) h.1
            (rw append_assoc u)
          ∙ at_same _ _ rest _ _ (omega arith)
              (ap (λ t. record s { kv_pairs = t }) (append_assoc s.kv_pairs (p ∷ []) ps)))

parse_lines_section :
    (file : String) (n : ℕ) (s : Section) (rest : List String) (st : Loop)
    → IsWritable s
    → (m : ℕ) × (parse_lines file n (render_section s ++ rest) st
        ≡ parse_lines file m rest (record { sections = flush st; cur_section = some s }))
unfolding parse_lines
parse_lines_section file n s rest st w = (
  n + 1 + length s.lines + length s.kv_pairs,
  rw (parse_line-header_line file n s.name st w.named, append_assoc)
      (parse_lines_plain file (flush st) s.lines (map pair_line s.kv_pairs ++ rest) (n + 1)
          (init_section s.name) w.plain_lines
        ∙ parse_lines_pairs file (flush st) s.kv_pairs rest (n + 1 + length s.lines)
            (record { name = s.name; lines = s.lines; kv_pairs = [] }) w.pairs w.distinct),
)

parse_lines-render :
    (file : String) (ss : List Section) (n : ℕ) (st : Loop)
    → All IsWritable ss
    → (parse_lines file n (render ss) st >>= λ r. ok (flush r)) ≡ ok (collect ss (flush st))
parse_lines-render file [] n st h = unfold parse_lines in refl
parse_lines-render file (s ∷ ss) n st h =
    let (m, e) = parse_lines_section file n s (render ss) st h.0 in
    rw e (parse_lines-render file ss m (record { sections = flush st; cur_section = some s }) h.1)

prefer-or :
    {A : Type 0} (x y : Option A) (b : Bool) (a : A)
    → prefer x (if b then some a else y) ≡ prefer (prefer x (if b then some a else none)) y
prefer-or (some x) y b a = refl
prefer-or none y true a = refl
prefer-or none y false a = refl

lookup-collect :
    (name : String) (ss : List Section) (d : Dict Section)
    → lookup name (collect ss d) ≡ prefer (last_named name ss) (lookup name d)
unfolding add_section
lookup-collect name [] d = refl
lookup-collect name (s ∷ ss) d =
    lookup-collect name ss (add_section s d)
    ∙ ap (prefer (last_named name ss)) (lookup-insert s.name name s d)
    ∙ prefer-or (last_named name ss) (lookup name d) (s.name == name) s

prefer-none : {A : Type 0} (x : Option A) → prefer x none ≡ x
prefer-none none = refl
prefer-none (some x) = refl

-- Parsing the lines that writable sections are written as returns a dictionary that has, under every name,
-- the last of the sections of that name, with its lines in order and its pairs, and nothing under the
-- names of none.
pub parse_file-render :
    (file : String) (ss : List Section)
    → All IsWritable ss
    → (d : Dict Section) × (parse_file file (render ss) ≡ ok d)
      × ((name : String) → lookup name d ≡ last_named name ss)
unfolding parse_file lookup
parse_file-render file ss h = (
  collect ss [],
  parse_lines-render file ss 0 no_sections h,
  λ name. lookup-collect name ss [] ∙ prefer-none (last_named name ss),
)
