-- ===== src/Repl/BatchLaws.antt =====
-- `do_load_batch` of bin/python/interactive.py: which lines it runs.
use Prim.Native.Char.{Char, code}
use xbridge_witness.Base.{
  ◌≡◌, refl, ap, ◌∙◌, String, Bool, true, List, [], ◌∷◌, if◌then◌else◌, Bool-cases, inl, inr, ◌=ℕ◌,
}
use xbridge_witness.Base.Text.{truthy, strip, split, grow}
use xbridge_witness.Base.Words.{concat}
use xbridge_witness.Repl.State.{Repl, Flow, go, done, raise, Step, next, ◌>>=◌, ◌>>◌, pure, print}
use xbridge_witness.Repl.Batch.{without_comment, run_line, run_lines, onecmd, first_part}

-- What stands before the first `#`.
abbrev pub before_hash : String → String
before_hash String.[] = ""
before_hash (String.◌∷◌ c s) =
    let rest = before_hash s in if code c =ℕ b'#' then "" else String.◌∷◌ c rest

-- The commands of a file: what its lines have before a `#`, without the spaces at its ends, but where that
-- is empty.
unfoldable pub commands : List String → List String
commands [] = []
commands (l ∷ ls) =
    let rest = commands ls in let c = strip (before_hash l) in if truthy c then c ∷ rest else rest

first_part-grow :
    (c : Char) (ps : List String) → first_part (grow c ps) ≡ String.◌∷◌ c (first_part ps)
first_part-grow c [] = refl
first_part-grow c (p ∷ ps) = refl

first_part-split : (s : String) → first_part (split b'#' s) ≡ before_hash s
unfolding split
first_part-split String.[] = refl
first_part-split (String.◌∷◌ c s) = elim (Bool-cases (code c =ℕ b'#')) [
  | inl e ↦ rw e refl
  | inr e ↦ rw (e, first_part-grow c (split b'#' s), first_part-split s) refl
]

without_comment_lem : (l : String) → without_comment l ≡ strip (before_hash l)
unfolding without_comment
without_comment_lem l = ap strip (first_part-split l)

-- The commands one after another, each announced, until one raises.
unfoldable pub run_all : {W : Type 0} → (String → Step W Bool) → List String → Step W (Unit {0})
run_all onecmd [] = pure tt
run_all onecmd (c ∷ cs) = do
  print (concat ("Running: `" ∷ c ∷ "`" ∷ []))
  _ ← onecmd c
  run_all onecmd cs

after :
    {W : Type 0} (o : Flow Bool × Repl × W) (k k' : Step W (Unit {0}))
    → ((r : Repl) (w : W) → k r w ≡ k' r w)
    → next (next o (λ stop. pure tt)) (λ u. k) ≡ next o (λ stop. k')
after (go b, r, w) k k' h = h r w
after (done b, r, w) k k' h = refl
after (raise e, r, w) k k' h = refl

run_line-then :
    {W : Type 0} (run : String → Step W Bool) (l : String) (k k' : Step W (Unit {0})) (r : Repl)
    (w : W)
    → ((r : Repl) (w : W) → k r w ≡ k' r w)
    → (run_line run l true >> k) r w
      ≡ ((print (concat ("Running: `" ∷ l ∷ "`" ∷ []))) >> (run l >>= λ stop. k')) r w
unfolding ◌>>=◌ ◌>>◌
run_line-then run l k k' r w h = after _ k k' h

skipped : {W : Type 0} (k : Step W (Unit {0})) (r : Repl) (w : W) → (pure tt >> k) r w ≡ k r w
unfolding ◌>>=◌ ◌>>◌
skipped k r w = refl

-- The loop of `do_load_batch` runs the commands of the file in their order, each announced: what stands in
-- a line from a `#` on is cut off, lines with nothing else than spaces are skipped, and what a command returns
-- does not matter, so that the lines behind a `quit` are run; a command that raises is the last.
pub run_lines-commands :
    {W : Type 0} (onecmd : String → Step W Bool) (lines : List String) (r : Repl) (w : W)
    → run_lines onecmd lines r w ≡ run_all onecmd (commands lines) r w
unfolding run_lines run_all commands
run_lines-commands onecmd [] r w = refl
run_lines-commands onecmd (l ∷ ls) r w = elim (Bool-cases (truthy (strip (before_hash l)))) [
  | inl e ↦
      rw (without_comment_lem l, e)
        (run_line-then onecmd (strip (before_hash l)) _ _ r w (run_lines-commands onecmd ls))
  | inr e ↦ rw (without_comment_lem l, e) (skipped _ r w ∙ run_lines-commands onecmd ls r w)
]
