-- ===== src/Repl/Keeps/Pay.antt =====
-- What `do_pay` and `do_xchain` keep.
use xbridge_witness.Base.{String, Bool, true, false, List}
use xbridge_witness.Repl.State.{Chain, Repl, Shell}
use xbridge_witness.Repl.Pay.{
  four_or_five, warn_if, PayArgs, read_pay, send_pay, do_pay, read_xchain, close_other, send_xchain,
  do_xchain,
}
use xbridge_witness.Repl.Keeps.{
  Stable, Prints, Keeps, ◌▹=◌, ◌▹◌, Keeps-pure, Keeps-get_state, Keeps-lift, Keeps-no_more,
  Keeps-print, Keeps-unless, Keeps-wait, Keeps-send, Keeps-accept_ledger,
}
use xbridge_witness.Repl.Keeps.Args.{
  Keeps-pop, Keeps-take_chain, Keeps-known_account, Keeps-take_amount, Keeps-take_asset,
  Keeps-amount_of,
}

module _ {W : Type 0} {P : Repl → W → Type 0} (prints : Prints P) where
  Keeps-four_or_five : (args : List String) → Keeps P (four_or_five args)
  Keeps-four_or_five args = Keeps-unless prints _ _ ▹ Keeps-unless prints _ _

  Keeps-warn_if : (b : Bool) (s : String) → Keeps P (warn_if b s)
  Keeps-warn_if true s = Keeps-print prints s
  Keeps-warn_if false s = Keeps-pure

  pub Keeps-read_pay : (shell : Shell W) (line : String) → Keeps P (read_pay shell line)
  unfolding read_pay
  Keeps-read_pay shell line = Keeps-four_or_five _ ▹ Keeps-take_chain prints _ _ ▹= λ (c, args).
      Keeps-pop prints args ▹= λ (n, args).
      Keeps-warn_if _ _ ▹ Keeps-known_account prints _ _ _ ▹= λ source.
      Keeps-pop prints args ▹= λ (n, args).
      Keeps-unless prints _ _ ▹ Keeps-known_account prints _ _ _ ▹= λ dst.
      Keeps-take_amount prints _ _ args ▹= λ (v, args).
      Keeps-take_asset prints c args
        (λ alias args. Keeps-pop prints args ▹= λ (a, rest). Keeps-pure)
      ▹= λ (asset, args). Keeps-no_more args ▹ Keeps-amount_of prints _ _ _ _ ▹= λ amt. Keeps-pure

  pub Keeps-read_xchain : (shell : Shell W) (line : String) → Keeps P (read_xchain shell line)
  unfolding read_xchain
  Keeps-read_xchain shell line = Keeps-four_or_five _ ▹ Keeps-take_chain prints _ _ ▹= λ (c, args).
      Keeps-pop prints args ▹= λ (n, args).
      Keeps-unless prints _ _ ▹ Keeps-known_account prints _ _ _ ▹= λ source.
      Keeps-pop prints args ▹= λ (n, args).
      Keeps-unless prints _ _ ▹ Keeps-known_account prints _ _ _ ▹= λ dst.
      Keeps-take_amount prints _ _ args ▹= λ (v, args).
      Keeps-take_asset prints c args (λ alias args. Keeps-pure) ▹= λ (asset, args).
      Keeps-no_more args ▹ Keeps-amount_of prints _ _ _ _ ▹= λ amt. Keeps-pure

module _ {W : Type 0} {shell : Shell W} {P : Repl → W → Type 0} (stable : Stable shell P) where
  pub Keeps-send_pay : (p : PayArgs) → Keeps P (send_pay shell p)
  unfolding send_pay
  Keeps-send_pay p = Keeps-send stable _ _ ▹= λ r. Keeps-accept_ledger stable _

  pub Keeps-do_pay : (line : String) → Keeps P (do_pay shell line)
  unfolding do_pay
  Keeps-do_pay line = Keeps-read_pay stable.prints shell line ▹= Keeps-send_pay

  Keeps-close_other : (c : Chain) (alone : Bool) → Keeps P (close_other shell c alone)
  Keeps-close_other c true = Keeps-wait stable 2 ▹ Keeps-accept_ledger stable _
  Keeps-close_other c false = Keeps-pure

  pub Keeps-send_xchain : (p : PayArgs) → Keeps P (send_xchain shell p)
  unfolding send_xchain
  Keeps-send_xchain p = Keeps-lift _ ▹= λ hex. Keeps-get_state ▹= λ r. Keeps-lift _ ▹= λ door.
      Keeps-send stable _ _ ▹= λ v.
      Keeps-accept_ledger stable _ ▹ (Keeps-get_state ▹= λ r. Keeps-pure) ▹= λ alone.
      Keeps-close_other _ alone

  pub Keeps-do_xchain : (line : String) → Keeps P (do_xchain shell line)
  unfolding do_xchain
  Keeps-do_xchain line = Keeps-read_xchain stable.prints shell line ▹= Keeps-send_xchain
