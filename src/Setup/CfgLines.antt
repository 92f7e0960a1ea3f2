-- ===== src/Setup/CfgLines.antt =====
-- The lines of a configuration text, and which of them open a section of a given name.
use Prim.Native.Char.{Char, code}
use xbridge_witness.Base.{
  ℕ, String, Bool, true, false, ◌&&◌, not, Option, none, some, List, [], ◌∷◌, ◌++◌, ◌≡◌, refl, sym,
  ap, ◌∙◌, ◌=ℕ◌, ◌==◌, arith, Bool-cases, inl, inr,
}
use mathlib.Core.List.{append_assoc}
use xbridge_witness.Base.Text.{append, split, strip, lstrip, rstrip, starts_with, keep, is_space}
use xbridge_witness.Base.Words.{join}
use xbridge_witness.Config.Section.{section_header}
use xbridge_witness.Config.File.{header_name}
use xbridge_witness.Config.Render.{Lacks}

-- The lines of a text without carriage returns, as a loop over its file goes through them; a text that ends
-- with a newline has an empty one at its end, which the loop passes over.
abbrev pub lines_of : String → List String
lines_of text = split b'\n' text

abbrev pub lines_of_all : List String → List String
lines_of_all [] = []
lines_of_all (t ∷ ts) = lines_of t ++ lines_of_all ts

split_cons : (s : String) → (p : String) × (ps : List String) × (split b'\n' s ≡ p ∷ ps)
unfolding split
split_cons String.[] = ("", [], refl)
split_cons (String.◌∷◌ c s) =
    let (p, ps, e) = split_cons s in
    elim (Bool-cases (code c =ℕ b'\n')) [
      | inl h ↦ ("", p ∷ ps, rw (h, e))
      | inr h ↦ (String.◌∷◌ c p, ps, rw (h, e))
    ]

pub split-append :
    (s t : String) → split b'\n' (append s (append "\n" t)) ≡ split b'\n' s ++ split b'\n' t
unfolding split
split-append String.[] t = refl
split-append (String.◌∷◌ c s) t =
    let (p, ps, e) = split_cons s in
    elim (Bool-cases (code c =ℕ b'\n')) [
      | inl h ↦ rw (h, split-append s t)
      | inr h ↦ rw (h, split-append s t, e)
    ]

pub lines_of-join :
    (t : String) (ts : List String) → lines_of (join "\n" (t ∷ ts)) ≡ lines_of_all (t ∷ ts)
unfolding join
lines_of-join t [] = sym (mathlib.Core.List.append-nil (lines_of t))
lines_of-join t (u ∷ ts) =
    split-append t (join "\n" (u ∷ ts)) ∙ ap (λ ls. lines_of t ++ ls) (lines_of-join u ts)

pub split-Lacks : (s : String) → Lacks b'\n' s → lines_of s ≡ s ∷ []
unfolding split
split-Lacks String.[] h = refl
split-Lacks (String.◌∷◌ c s) h = rw (h.0, split-Lacks s h.1)

abbrev pub is_name : String → Option String → Bool
is_name k none = false
is_name k (some n) = n == k

-- Whether a line opens the section `k`.
unfoldable pub opens : String → String → Bool
opens k l = is_name k (header_name (section_header (strip l)))

unfoldable pub quiet_lines : String → List String → Bool
quiet_lines k [] = true
quiet_lines k (l ∷ ls) = not (opens k l) && quiet_lines k ls

-- No line of the text opens the section.
abbrev pub quiet : String → String → Bool
quiet k text = quiet_lines k (lines_of text)

unfoldable pub all_quiet : String → List String → Bool
all_quiet k [] = true
all_quiet k (t ∷ ts) = quiet k t && all_quiet k ts

pub quiet_lines-append :
    (k : String) (ls ms : List String)
    → quiet_lines k (ls ++ ms) ≡ (quiet_lines k ls && quiet_lines k ms)
unfolding quiet_lines
quiet_lines-append k [] ms = refl
quiet_lines-append k (l ∷ ls) ms = ground (arith, quiet_lines-append k ls ms)

pub all_quiet-append :
    (k : String) (ls ms : List String) → all_quiet k (ls ++ ms) ≡ (all_quiet k ls && all_quiet k ms)
unfolding all_quiet
all_quiet-append k [] ms = refl
all_quiet-append k (l ∷ ls) ms = ground (arith, all_quiet-append k ls ms)

pub quiet_lines-lines_of_all :
    (k : String) (ts : List String) → quiet_lines k (lines_of_all ts) ≡ all_quiet k ts
unfolding quiet_lines all_quiet
quiet_lines-lines_of_all k [] = refl
quiet_lines-lines_of_all k (t ∷ ts) =
    quiet_lines-append k (lines_of t) (lines_of_all ts)
    ∙ ap (λ b. quiet k t && b) (quiet_lines-lines_of_all k ts)

starts_with-keep :
    (c : Char) (s : String) → (code c =ℕ b'[') ≡ false → starts_with b'[' (keep c s) ≡ false
starts_with-keep c String.[] h = elim (Bool-cases (is_space (code c))) [
  | inl e ↦ rw e
  | inr e ↦ rw (e, h)
]
starts_with-keep c (String.◌∷◌ d s) h = h

starts_with-rstrip : (s : String) → starts_with b'[' s ≡ false → starts_with b'[' (rstrip s) ≡ false
unfolding rstrip
starts_with-rstrip String.[] h = refl
starts_with-rstrip (String.◌∷◌ c s) h = starts_with-keep c (rstrip s) h

section_header-eq-none : (l : String) → starts_with b'[' l ≡ false → section_header l ≡ none
unfolding section_header
section_header-eq-none l h = rw h

-- A line that does not start with a bracket opens no section.
pub opens-eq-false : (k l : String) → starts_with b'[' (lstrip l) ≡ false → opens k l ≡ false
unfolding opens
opens-eq-false k l h =
    ap (λ o. is_name k (header_name o))
      (section_header-eq-none (strip l) (unfold strip in starts_with-rstrip (lstrip l) h))

pub quiet_of_line :
    (k l : String) → Lacks b'\n' l → starts_with b'[' (lstrip l) ≡ false → quiet k l ≡ true
unfolding quiet_lines
quiet_of_line k l n h = rw (split-Lacks l n, opens-eq-false k l h)

pub starts_with-lstrip-append :
    (s t : String)
    → starts_with b'[' (lstrip s) ≡ false
    → starts_with b'[' (lstrip t) ≡ false
    → starts_with b'[' (lstrip (append s t)) ≡ false
unfolding lstrip
starts_with-lstrip-append String.[] t h g = g
starts_with-lstrip-append (String.◌∷◌ c s) t h g = ground (arith, starts_with-lstrip-append s t)

pub Lacks-append : (k : ℕ) (s t : String) → Lacks k s → Lacks k t → Lacks k (append s t)
Lacks-append k String.[] t h g = g
Lacks-append k (String.◌∷◌ c s) t h g = (h.0, Lacks-append k s t h.1 g)
