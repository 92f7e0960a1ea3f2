-- ===== src/Repl/PayLaws.antt =====
-- What a line of `do_pay` of bin/python/interactive.py sends, where it is a payment.
use xbridge_witness.Transaction.Types.{Transaction, payment, init_payment}
use xbridge_witness.Base.{
  ℕ, ◌*◌, ◌≡◌, refl, arith, String, Bool, true, false, List, [], ◌∷◌, ◌==◌, ok, Option, none, some,
}
use xbridge_witness.Base.Int.{pos, ◌*ℤ◌}
use xbridge_witness.Base.Words.{words}
use xbridge_witness.Base.Decimal.{show, parse-show}
use xbridge_witness.Value.{Account, int, Asset, Value}
use xbridge_witness.Value.Floats.{Floats, mul_number}
use xbridge_witness.Common.Asset.{init_asset}
use xbridge_witness.Keys.KeyManager.{account_from_alias}
use xbridge_witness.Session.Aliases.{is_alias-known}
use xbridge_witness.Repl.State.{
  Chain, mainchain, sidechain, Repl, Shell, go, next, ◌>>=◌, ◌>>◌, app_of, send, accept_ledger,
}
use xbridge_witness.Repl.Args.{
  take_unit, take_chain, first_chain, known_account, take_amount, read_amount, scale, take_asset,
  amount_of, zero_xrp, chain_of, not_known,
}
use xbridge_witness.Repl.Show.{chain_name}
use xbridge_witness.Repl.Scenarios.{xrp_drops}
use xbridge_witness.Repl.Pay.{read_pay, send_pay, do_pay}
use xbridge_witness.Repl.Keeps.{Prints}

-- Nothing but what was printed has changed.
abbrev pub OnlyPrinted : {W : Type 0} → Repl → W → Repl → W → Type 0
OnlyPrinted r w r' w' = (w' ≡ w) × (record r' { printed = [] } ≡ record r { printed = [] })

pub printing : {W : Type 0} (r : Repl) (w : W) → Prints (OnlyPrinted r w)
printing r w = record { printed = λ s r' w' h. h }

pub known_account-known :
    {W : Type 0} (message : String → String) (c : Chain) (n : String) (a : Account) (r : Repl)
    (w : W)
    → account_from_alias n (app_of c r).key_manager ≡ ok a
    → known_account message c n r w ≡ (go a, r, w)
unfolding known_account ◌>>=◌ ◌>>◌
known_account-known message c n a r w e = rw (is_alias-known n (app_of c r).key_manager a e, e) refl

pub take_amount-show :
    {W : Type 0} (F : Floats) (in_drops : Bool) (n : ℕ) (args : List String) (r : Repl) (w : W)
    → take_amount F in_drops (show (pos n) ∷ args) r w ≡ (go (int (pos n), args), r, w)
unfolding take_amount read_amount ◌>>=◌
take_amount-show F in_drops n args r w = rw (parse-show (pos n)) refl

-- How many drops the unit of a payment is.
abbrev pub unit_size : Bool → ℕ
unit_size true = 1
unit_size false = 1000000

abbrev pub unit_text : Bool → String
unit_text true = "drops"
unit_text false = "xrp"

times_pos : (m n : ℕ) → pos m *ℤ pos n ≡ pos (m * n)
unfolding ◌*ℤ◌
times_pos m n = ground arith

pub amount_of-xrp :
    {W : Type 0} (F : Floats) (in_drops : Bool) (n : ℕ) (r : Repl) (w : W)
    → amount_of F in_drops zero_xrp (int (pos n)) r w
      ≡ (go (xrp_drops (pos (n * unit_size in_drops))), r, w)
unfolding amount_of scale ◌>>=◌ init_asset mul_number
amount_of-xrp F true n r w = let e : n * 1 ≡ n = omega arith in rw e refl
amount_of-xrp F false n r w = rw (times_pos n 1000000) refl

pub take_chain-name :
    {W : Type 0} (c : Chain) (args : List String) (r : Repl) (w : W)
    → take_chain first_chain (chain_name c ∷ args) r w ≡ (go (c, args), r, w)
unfolding take_chain chain_of ◌>>=◌
take_chain-name mainchain args r w = refl
take_chain-name sidechain args r w = refl

pub take_unit-text :
    (a b c d : String) (in_drops : Bool)
    → take_unit (a ∷ b ∷ c ∷ d ∷ unit_text in_drops ∷ []) ≡ (in_drops, a ∷ b ∷ c ∷ d ∷ [])
unfolding take_unit
take_unit-text a b c d true = refl
take_unit-text a b c d false = refl

-- A payment of an account with no other fields than memos.
abbrev pub plain_payment : Account → Account → Asset → Option Value → Transaction
plain_payment source dst amt memos = record {
  header = record {
    account = source;
    flags = none;
    fee = none;
    sequence = none;
    account_txn_id = none;
    last_ledger_sequence = none;
    src_tag = none;
    memos = memos;
  };
  body = payment (record {
    dst = dst;
    amt = amt;
    send_max = none;
    paths = none;
    dst_tag = none;
    deliver_min = none;
  });
}

-- An amount of drops.
abbrev pub drops : ℕ → Asset
drops n = record { value = some (int (pos n)); currency = "XRP"; issuer = none }

-- A line of a chain, two aliases of its address book that are not `door`, a whole number and a unit
-- sends that chain a payment from the first account to the second, of that many XRP or drops, in
-- drops, with no other field; then, if that did not raise, it asks the same chain to close its ledger,
-- and does nothing else.
pub do_pay-sends :
    {W : Type 0} (shell : Shell W) (line : String) (c : Chain) (s d : String) (n : ℕ)
    (in_drops : Bool) (source dst : Account) (r : Repl) (w : W)
    → words line ≡ chain_name c ∷ s ∷ d ∷ show (pos n) ∷ unit_text in_drops ∷ []
    → (s == "door") ≡ false
    → (d == "door") ≡ false
    → account_from_alias s (app_of c r).key_manager ≡ ok source
    → account_from_alias d (app_of c r).key_manager ≡ ok dst
    → do_pay shell line r w
      ≡ next
          (send shell c (plain_payment source dst (drops (n * unit_size in_drops)) none) r w)
          (λ answer. accept_ledger shell c)
unfolding do_pay read_pay send_pay ◌>>=◌ ◌>>◌ take_asset init_payment
do_pay-sends shell line c s d n in_drops source dst r w e sd dd hs hd =
    rw
      (
        e,
        take_unit-text (chain_name c) s d (show (pos n)) in_drops,
        take_chain-name c (s ∷ d ∷ show (pos n) ∷ []) r w,
        sd,
        known_account-known not_known c s source r w hs,
        dd,
        known_account-known not_known c d dst r w hd,
        take_amount-show shell.floats in_drops n [] r w,
        amount_of-xrp shell.floats in_drops n r w,
      )
      refl
