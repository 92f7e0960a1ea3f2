-- ===== src/Repl/XchainLaws.antt =====
-- What a line of `do_xchain` of bin/python/interactive.py sends.
use xbridge_witness.Base.{
  ℕ, ◌*◌, ◌≡◌, refl, String, Bool, false, some, [], ◌∷◌, ◌==◌, ok, if◌then◌else◌, Bool-cases, inl,
  inr,
}
use xbridge_witness.Base.Int.{pos}
use xbridge_witness.Base.Hex.{hexlify, unhexlify, unhexlify-hexlify}
use xbridge_witness.Base.Words.{words}
use xbridge_witness.Base.Decimal.{show}
use xbridge_witness.Value.{Account, list, cons, nil, dict, str, field, end, Value}
use xbridge_witness.Common.Account.{account_id_str_as_hex}
use xbridge_witness.Common.Hex.{codes, IsAscii, encode-IsAscii, Bytes-codes}
use xbridge_witness.Keys.KeyManager.{account_from_alias}
use xbridge_witness.Transaction.Types.{init_payment, Transaction}
use xbridge_witness.Repl.State.{
  Chain, Repl, Shell, Step, ◌>>=◌, ◌>>◌, app_of, other, send, accept_ledger, next, Flow, go, done,
  raise, wait,
}
use xbridge_witness.Repl.Args.{take_asset, not_known}
use xbridge_witness.Repl.Show.{chain_name}
use xbridge_witness.Repl.Scenarios.{xrp_drops}
use xbridge_witness.Repl.Pay.{read_xchain, close_other, send_xchain, do_xchain}
use xbridge_witness.Repl.PayLaws.{
  known_account-known, take_amount-show, amount_of-xrp, take_chain-name, take_unit-text, unit_size,
  unit_text, plain_payment, drops,
}

module _ {W : Type 0} (shell : Shell W) where
  -- A chain that stands alone closes its ledger after two seconds.
  abbrev pub close_alone : Chain → Step W (Unit {0})
  close_alone c r w =
      if (app_of c r).standalone then accept_ledger shell c r (shell.sleep 2 w) else (go tt, r, w)

  -- The memos of a payment, one with a text as its data.
  abbrev one_memo : String → Value
  one_memo s = list (cons (dict (field "Memo" (dict (field "MemoData" (str s) end)) end)) nil)

  abbrev door_payment : Account → Account → ℕ → String → Transaction
  door_payment source door n s = plain_payment source door (drops n) (some (one_memo s))

  -- A payment to the door with a text in its memo, and the closing of the ledgers of both chains.
  abbrev pub pay_door : Chain → Account → Account → ℕ → String → Step W (Unit {0})
  pay_door c source door n s r w =
      next (send shell c (door_payment source door n s) r w)
        λ answer r w. next (accept_ledger shell c r w) λ u. close_alone (other c)

  close_other-alone :
      (c : Chain) (r : Repl) (w : W)
      → close_other shell c (app_of (other c) r).standalone r w ≡ close_alone (other c) r w
  unfolding ◌>>◌ ◌>>=◌ wait
  close_other-alone c r w = elim (Bool-cases (app_of (other c) r).standalone) [
    | inl e ↦ rw e refl
    | inr e ↦ rw e refl
  ]

  next-ext :
      {A B : Type 0} (o : Flow A × Repl × W) (f g : A → Step W B)
      → ((a : A) (r : Repl) (w : W) → f a r w ≡ g a r w)
      → next o f ≡ next o g
  next-ext (go a, r, w) f g h = h a r w
  next-ext (done b, r, w) f g h = refl
  next-ext (raise e, r, w) f g h = refl

  account_id_str_as_hex-ascii :
      (a : Account) (id : String)
      → a.account_id ≡ some id
      → IsAscii id
      → account_id_str_as_hex a ≡ ok (hexlify (codes id))
  unfolding account_id_str_as_hex
  account_id_str_as_hex-ascii a id e h = rw (e, encode-IsAscii id h) refl

  send_xchain-door :
      (c : Chain) (source dst door : Account) (n : ℕ) (id : String) (r : Repl) (w : W)
      → account_from_alias "door" (app_of c r).key_manager ≡ ok door
      → dst.account_id ≡ some id
      → IsAscii id
      → send_xchain shell
          (record { chain = c; source = source; dst = dst; amt = xrp_drops (pos n) })
          r
          w
        ≡ pay_door c source door n (hexlify (codes id)) r w
  unfolding send_xchain ◌>>=◌ ◌>>◌ init_payment
  send_xchain-door c source dst door n id r w hd e h =
      rw (account_id_str_as_hex-ascii dst id e h, hd)
        (next-ext {A = Value} (send shell c (door_payment source door n (hexlify (codes id))) r w) _
          _ λ answer r w. next-ext (accept_ledger shell c r w) _ _ λ u r w. close_other-alone c r w)

-- A line of a chain, an alias of its address book, an alias of the other chain's, neither of them `door`,
-- a whole number and a unit sends that chain a payment of the first account to its door, of that many
-- XRP or drops, in drops, with no other field than a memo, which holds a text that is read back as the
-- id of the second account, where that id is ASCII; then, as long as nothing raises, the same chain is
-- asked to close its ledger, and, if the other chain stands alone, that one too, two seconds later.
pub do_xchain-sends :
    {W : Type 0} (shell : Shell W) (line : String) (c : Chain) (s d : String) (n : ℕ)
    (in_drops : Bool) (source dst door : Account) (id : String) (r : Repl) (w : W)
    → words line ≡ chain_name c ∷ s ∷ d ∷ show (pos n) ∷ unit_text in_drops ∷ []
    → (s == "door") ≡ false
    → (d == "door") ≡ false
    → account_from_alias s (app_of c r).key_manager ≡ ok source
    → account_from_alias d (app_of (other c) r).key_manager ≡ ok dst
    → account_from_alias "door" (app_of c r).key_manager ≡ ok door
    → dst.account_id ≡ some id
    → IsAscii id
    → (h : String) × (do_xchain shell line r w
        ≡ pay_door shell c source door (n * unit_size in_drops) h r w)
      × (unhexlify h ≡ some (codes id))
unfolding do_xchain read_xchain ◌>>=◌ ◌>>◌ take_asset
do_xchain-sends shell line c s d n in_drops source dst door id r w e sd dd hs hd hr i a = (
  hexlify (codes id),
  rw
      (
        e,
        take_unit-text (chain_name c) s d (show (pos n)) in_drops,
        take_chain-name c (s ∷ d ∷ show (pos n) ∷ []) r w,
        sd,
        known_account-known not_known c s source r w hs,
        dd,
        known_account-known not_known (other c) d dst r w hd,
        take_amount-show shell.floats in_drops n [] r w,
        amount_of-xrp shell.floats in_drops n r w,
      )
      (send_xchain-door shell c source dst door _ id r w hr i a),
  unhexlify-hexlify (codes id) (Bytes-codes id a),
)
