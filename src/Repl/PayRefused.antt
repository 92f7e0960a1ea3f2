-- ===== src/Repl/PayRefused.antt =====
-- Which lines `do_pay` of bin/python/interactive.py refuses, and what it prints then.
use xbridge_witness.Base.{
  ℕ, ◌≡◌, refl, arith, String, Bool, true, false, List, [], ◌∷◌, ◌==◌, ok, none, ltb, length, ◌++◌,
}
use xbridge_witness.Base.Words.{words, concat}
use xbridge_witness.Value.{Account}
use xbridge_witness.Value.Floats.{Floats}
use xbridge_witness.Keys.KeyManager.{account_from_alias, is_alias}
use xbridge_witness.Repl.State.{Chain, Repl, Shell, done, ◌>>=◌, ◌>>◌, app_of}
use xbridge_witness.Repl.Args.{
  take_chain, first_chain, known_account, take_amount, read_amount, chain_of, not_known,
}
use xbridge_witness.Repl.Show.{chain_name}
use xbridge_witness.Repl.Pay.{read_pay, do_pay}
use xbridge_witness.Repl.PayLaws.{known_account-known, take_chain-name, take_unit-text, unit_text}

-- Why a line of words is refused, and what is printed then: too few or too many words, or five words
-- with a unit, of which the first is no chain, the second, which is not `door`, no alias of the chain's
-- address book, the third `door` or no alias, or the fourth no amount.
pub data Refusal (F : Floats) (r : Repl) (ws : List String) : String → Type 0 where
  too_few :
      ltb (length ws) 4 ≡ true
      → Refusal F r ws "Error: Too few arguments to pay command. Type \"help\" for help."
  too_many :
      ltb 5 (length ws) ≡ true
      → Refusal F r ws "Error: Too many arguments to pay command. Type \"help\" for help."
  no_chain :
      (a s d v : String) (in_drops : Bool)
      → ws ≡ a ∷ s ∷ d ∷ v ∷ unit_text in_drops ∷ []
      → (a == "mainchain") ≡ false
      → (a == "sidechain") ≡ false
      → Refusal F r ws "Error: First argument must specify the chain. Type \"help\" for help."
  unknown_source :
      (c : Chain) (s d v : String) (in_drops : Bool)
      → ws ≡ chain_name c ∷ s ∷ d ∷ v ∷ unit_text in_drops ∷ []
      → (s == "door") ≡ false
      → is_alias s (app_of c r).key_manager ≡ false
      → Refusal F r ws (concat ("Error: " ∷ s ∷ " is not in the address book" ∷ []))
  to_door :
      (c : Chain) (s v : String) (in_drops : Bool) (source : Account)
      → ws ≡ chain_name c ∷ s ∷ "door" ∷ v ∷ unit_text in_drops ∷ []
      → (s == "door") ≡ false
      → account_from_alias s (app_of c r).key_manager ≡ ok source
      → Refusal F r ws
          "Error: \"pay\" cannot be used for cross chain transactions. Use the \"xchain\" command instead."
  unknown_dst :
      (c : Chain) (s d v : String) (in_drops : Bool) (source : Account)
      → ws ≡ chain_name c ∷ s ∷ d ∷ v ∷ unit_text in_drops ∷ []
      → (s == "door") ≡ false
      → (d == "door") ≡ false
      → account_from_alias s (app_of c r).key_manager ≡ ok source
      → is_alias d (app_of c r).key_manager ≡ false
      → Refusal F r ws (concat ("Error: " ∷ d ∷ " is not in the address book" ∷ []))
  bad_number :
      (c : Chain) (s d v : String) (in_drops : Bool) (source dst : Account)
      → ws ≡ chain_name c ∷ s ∷ d ∷ v ∷ unit_text in_drops ∷ []
      → (s == "door") ≡ false
      → (d == "door") ≡ false
      → account_from_alias s (app_of c r).key_manager ≡ ok source
      → account_from_alias d (app_of c r).key_manager ≡ ok dst
      → read_amount F in_drops v ≡ none
      → Refusal F r ws (concat ("Error: " ∷ v ∷ " is an invalid amount." ∷ []))

known_account-unknown :
    {W : Type 0} (message : String → String) (c : Chain) (n : String) (r : Repl) (w : W)
    → is_alias n (app_of c r).key_manager ≡ false
    → known_account message c n r w
      ≡ (done false, record r { printed = r.printed ++ message n ∷ [] }, w)
unfolding known_account ◌>>=◌ ◌>>◌
known_account-unknown message c n r w e = rw e refl

long_enough : (n : ℕ) → ltb 5 n ≡ true → ltb n 4 ≡ false
long_enough n e = ground arith

take_chain-none :
    {W : Type 0} (message a : String) (args : List String) (r : Repl) (w : W)
    → (a == "mainchain") ≡ false
    → (a == "sidechain") ≡ false
    → take_chain message (a ∷ args) r w
      ≡ (done false, record r { printed = r.printed ++ message ∷ [] }, w)
unfolding take_chain chain_of ◌>>=◌ ◌>>◌
take_chain-none message a args r w m s = rw (m, s) refl

take_amount-none :
    {W : Type 0} (F : Floats) (in_drops : Bool) (v : String) (args : List String) (r : Repl) (w : W)
    → read_amount F in_drops v ≡ none
    → take_amount F in_drops (v ∷ args) r w ≡ (
      done false,
      record r {
        printed = r.printed ++ concat ("Error: " ∷ v ∷ " is an invalid amount." ∷ []) ∷ [];
      },
      w,
    )
unfolding take_amount ◌>>=◌ ◌>>◌
take_amount-none F in_drops v args r w e = rw e refl

-- A line of `do_pay` with too few or too many words, or with a unit and a word for the chain that is none, a
-- source, other than `door`, or a destination that is no alias, the destination `door`, or an amount that
-- is none, is refused with the message for that, which is printed: nothing is sent, and nothing else changes.
pub do_pay-refused :
    {W : Type 0} (shell : Shell W) (line message : String) (r : Repl) (w : W)
    → Refusal shell.floats r (words line) message
    → do_pay shell line r w ≡ (done false, record r { printed = r.printed ++ message ∷ [] }, w)
unfolding do_pay read_pay ◌>>=◌ ◌>>◌ concat
do_pay-refused shell line _ r w (too_few e) = rw e refl
do_pay-refused shell line _ r w (too_many e) = rw (long_enough (length (words line)) e, e) refl
do_pay-refused shell line _ r w (no_chain a s d v in_drops e m n) =
    rw (e, take_unit-text a s d v in_drops, take_chain-none first_chain a (s ∷ d ∷ v ∷ []) r w m n)
      refl
do_pay-refused shell line _ r w (unknown_source c s d v in_drops e sd n) =
    rw
      (
        e,
        take_unit-text (chain_name c) s d v in_drops,
        take_chain-name c (s ∷ d ∷ v ∷ []) r w,
        sd,
        known_account-unknown not_known c s r w n,
      )
      refl
do_pay-refused shell line _ r w (to_door c s v in_drops source e sd h) =
    rw
      (
        e,
        take_unit-text (chain_name c) s "door" v in_drops,
        take_chain-name c (s ∷ "door" ∷ v ∷ []) r w,
        sd,
        known_account-known not_known c s source r w h,
      )
      refl
do_pay-refused shell line _ r w (unknown_dst c s d v in_drops source e sd dd h n) =
    rw
      (
        e,
        take_unit-text (chain_name c) s d v in_drops,
        take_chain-name c (s ∷ d ∷ v ∷ []) r w,
        sd,
        known_account-known not_known c s source r w h,
        dd,
        known_account-unknown not_known c d r w n,
      )
      refl
do_pay-refused shell line _ r w (bad_number c s d v in_drops source dst e sd dd h g n) =
    rw
      (
        e,
        take_unit-text (chain_name c) s d v in_drops,
        take_chain-name c (s ∷ d ∷ v ∷ []) r w,
        sd,
        known_account-known not_known c s source r w h,
        dd,
        known_account-known not_known c d dst r w g,
        take_amount-none shell.floats in_drops v [] r w n,
      )
      refl
