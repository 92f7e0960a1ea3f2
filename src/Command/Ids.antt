-- ===== src/Command/Ids.antt =====
-- `Command.next_cmd_id`: every constructor takes a fresh id, also one whose assertion fails.
use xbridge_witness.Base.{
  ℕ, ◌+◌, ◌≤◌, ◌≡◌, List, [], ◌∷◌, Result, ok, err, arith, length, OnOk, OnOk-bind, OnOk-ok, refl,
}
use xbridge_witness.Command.Types.{Body, Command, check_body, init_command}

abbrev kept : Result Command → List Command → List Command
kept (ok c) cs = c ∷ cs
kept (err e) cs = cs

-- The commands that a program has built by calls of constructors, and the counter after them.
unfoldable pub build : List Body → ℕ → List Command × ℕ
build [] next = ([], next)
build (b ∷ bs) next =
    let (r, next') = init_command b next in let (cs, last) = build bs next' in (kept r cs, last)

-- The ids are at least `n` and grow along the list.
abbrev pub Ascending : ℕ → List Command → Type 0
Ascending n [] = Unit
Ascending n (c ∷ cs) = (n ≤ c.cmd_id) × Ascending (c.cmd_id + 1) cs

Ascending-le : (m n : ℕ) (cs : List Command) → m ≤ n → Ascending n cs → Ascending m cs
Ascending-le m n [] h a = tt
Ascending-le m n (c ∷ cs) h a = (omega arith, a.1)

pub next-init_command : (b : Body) (n : ℕ) → (init_command b n).1 ≡ n + 1
unfolding init_command
next-init_command b n = refl

pub id-init_command : (b : Body) (n : ℕ) (c : Command) → (init_command b n).0 ≡ ok c → c.cmd_id ≡ n
unfolding init_command
id-init_command b n c e =
    OnOk.at (OnOk-bind {P = λ (c : Command). c.cmd_id ≡ n} (check_body b) _ (λ _. OnOk-ok _ refl)) c
      e

Ascending-kept :
    (n : ℕ) (r : Result Command) (cs : List Command)
    → ((c : Command) → r ≡ ok c → c.cmd_id ≡ n)
    → Ascending (n + 1) cs
    → Ascending n (kept r cs)
Ascending-kept n (ok c) cs h a = rw (h c refl) (omega arith, a)
Ascending-kept n (err e) cs h a = Ascending-le n (n + 1) cs (omega arith) a

build-Ascending : (bs : List Body) (n : ℕ) → Ascending n (build bs n).0
unfolding build init_command
build-Ascending [] n = tt
build-Ascending (b ∷ bs) n =
    Ascending-kept n (init_command b n).0 _ (id-init_command b n)
      (rw (next-init_command b n) at (build-Ascending bs (init_command b n).1))

next-build : (bs : List Body) (n : ℕ) → (build bs n).1 ≡ n + length bs
unfolding build
next-build [] n = omega arith
next-build (b ∷ bs) n = rw (next-init_command b n) (omega (arith, next-build bs (n + 1)))

-- The commands that a program builds, from any value of the counter on, have ids that grow strictly,
-- so no two of them share one, and the counter ends past all of them: it has moved by one for each
-- constructor that was called, also for those whose assertion failed.
build_ids : (bs : List Body) (n : ℕ) → Ascending n (build bs n).0 × ((build bs n).1 ≡ n + length bs)
build_ids bs n = (build-Ascending bs n, next-build bs n)
