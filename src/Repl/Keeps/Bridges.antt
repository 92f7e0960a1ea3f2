-- ===== src/Repl/Keeps/Bridges.antt =====
-- What the commands on bridges keep.
use xbridge_witness.Transaction.Types.{init_xchain_claim}
use xbridge_witness.Base.{String, Option, none, some, List, [], ◌∷◌, Exn}
use xbridge_witness.Base.Int.{ℤ}
use xbridge_witness.Base.Dict.{insert}
use xbridge_witness.Value.{Fields, Value, Account}
use xbridge_witness.Common.Bridge.{Bridge}
use xbridge_witness.Repl.State.{Chain, Repl, Shell, outside, ◌>>=◌}
use xbridge_witness.Repl.Bridges.{
  put_bridge, no_bridge, do_new_bridge, show_aliases, do_bridge_aliases, do_bridge_create,
}
use xbridge_witness.Repl.Transfers.{
  found_id, name_or, do_xchain_claimid_create, take_destination, commit, do_xchain_commit,
  account_create, do_xchain_account_create, claim_with, do_xchain_claim,
}
use xbridge_witness.Repl.Keeps.{
  Stable, Prints, Keeps, ◌▹=◌, ◌▹◌, Keeps-pure, Keeps-fail, Keeps-get_state, Keeps-lift, Keeps-if,
  Keeps-no_more, Keeps-catch, Keeps-print, Keeps-refuse, Keeps-unless, Keeps-send,
  Keeps-accept_ledger,
}
use xbridge_witness.Repl.Keeps.Args.{
  Keeps-pop, Keeps-found_chain, Keeps-take_chain, Keeps-known_account, Keeps-take_account,
  Keeps-take_amount, Keeps-take_asset, Keeps-amount_of, Keeps-known_bridge,
}
use xbridge_witness.Repl.Keeps.Accounts.{Keeps-exactly}

module _ {W : Type 0} {shell : Shell W} {P : Repl → W → Type 0} (stable : Stable shell P) where
  Keeps-load : (f : String) → Keeps P (outside shell (shell.load_json f))
  Keeps-load f = record { at = stable.json_loaded f }

  Keeps-put_bridge : (alias : String) (b : Bridge) → Keeps P (put_bridge alias b)
  Keeps-put_bridge alias b = record {
    at = λ r w p. stable.bridges (insert alias b r.bridge_aliases) r w p;
  }

  Keeps-no_bridge : (d : Fields) (e : Exn) → Keeps P (no_bridge shell d e)
  Keeps-no_bridge d e = Keeps-lift _ ▹= λ v. Keeps-refuse stable.prints _

  pub Keeps-do_new_bridge : (line : String) → Keeps P (do_new_bridge shell line)
  unfolding do_new_bridge
  Keeps-do_new_bridge line =
      Keeps-exactly stable.prints _ _ _ ▹ Keeps-pop stable.prints _ ▹= λ (alias, args).
      Keeps-pop stable.prints args ▹= λ (file, args).
      Keeps-catch (Keeps-load file) (λ e. Keeps-refuse stable.prints _) ▹= λ d.
      Keeps-catch (Keeps-lift _ ▹= λ v. Keeps-lift _) (Keeps-no_bridge d) ▹= λ b.
      Keeps-put_bridge alias b

  Keeps-show_aliases : (args : List String) (s : Repl) → Keeps P (show_aliases shell args s)
  Keeps-show_aliases [] s = Keeps-print stable.prints _
  Keeps-show_aliases (a ∷ args) s = Keeps-lift _ ▹= λ b. Keeps-print stable.prints _

  pub Keeps-do_bridge_aliases : (line : String) → Keeps P (do_bridge_aliases shell line)
  unfolding do_bridge_aliases
  Keeps-do_bridge_aliases line =
      Keeps-unless stable.prints _ _ ▹ Keeps-get_state ▹= λ r. Keeps-show_aliases _ r

  pub Keeps-do_bridge_create : (line : String) → Keeps P (do_bridge_create shell line)
  unfolding do_bridge_create
  Keeps-do_bridge_create line =
      Keeps-unless stable.prints _ _
      ▹ Keeps-unless stable.prints _ _
      ▹ Keeps-take_chain stable.prints _ _
      ▹= λ (c, args). Keeps-take_account stable.prints c args ▹= λ (source, args).
          Keeps-take_amount stable.prints _ _ args ▹= λ (v, args). Keeps-lift _ ▹= λ reward.
          Keeps-pop stable.prints args ▹= λ (a, args). Keeps-lift _ ▹= λ min_create.
          Keeps-pop stable.prints _ ▹= λ (alias, args).
          Keeps-known_bridge stable.prints _ alias ▹= λ bridge.
          Keeps-no_more args ▹ Keeps-lift _ ▹= λ reward.
          Keeps-lift _ ▹= λ min_create. Keeps-send stable _ _ ▹= λ r. Keeps-accept_ledger stable _

  Keeps-name_or : (b : Option Bridge) → Keeps P (name_or shell b)
  Keeps-name_or none = Keeps-fail
  Keeps-name_or (some b) = Keeps-pure

  pub Keeps-do_xchain_claimid_create :
      (line : String) → Keeps P (do_xchain_claimid_create shell line)
  unfolding do_xchain_claimid_create
  Keeps-do_xchain_claimid_create line =
      Keeps-unless stable.prints _ _ ▹ Keeps-pop stable.prints _ ▹= λ (a, rest).
      Keeps-found_chain stable.prints _ _ ▹= λ found.
      Keeps-take_chain stable.prints _ _ ▹= λ (c, args).
      Keeps-take_account stable.prints c args ▹= λ (source, args).
      Keeps-take_account stable.prints _ args ▹= λ (other_account, args).
      Keeps-take_amount stable.prints _ _ args ▹= λ (v, args). Keeps-lift _ ▹= λ reward.
      Keeps-pop stable.prints args ▹= λ (alias, args). Keeps-get_state ▹= λ r.
      Keeps-name_or _ ▹= λ bridge. Keeps-no_more args ▹ Keeps-lift _ ▹= λ reward.
      Keeps-send stable _ _ ▹= λ answer. Keeps-print stable.prints _ ▹ Keeps-accept_ledger stable _

  Keeps-take_destination :
      (c : Chain) (args : List String) → Keeps P (take_destination shell c args)
  Keeps-take_destination c args = Keeps-pop stable.prints args ▹= λ (n, args).
      Keeps-if _ Keeps-pure (Keeps-known_account stable.prints _ _ _ ▹= λ a. Keeps-pure)

  Keeps-found_id : (a : String) (z : Option ℤ) → Keeps P (found_id a z)
  Keeps-found_id a none = Keeps-refuse stable.prints _
  Keeps-found_id a (some z) = Keeps-pure

  Keeps-commit : (line : String) → Keeps P (commit shell line)
  Keeps-commit line =
      Keeps-unless stable.prints _ _
      ▹ Keeps-unless stable.prints _ _
      ▹ Keeps-take_chain stable.prints _ _
      ▹= λ (c, args). Keeps-take_account stable.prints c args ▹= λ (source, args).
          Keeps-take_destination _ args ▹= λ (dst, args).
          Keeps-pop stable.prints args ▹= λ (alias, args).
          Keeps-known_bridge stable.prints _ alias ▹= λ bridge.
          Keeps-pop stable.prints args ▹= λ (a, args). Keeps-found_id a _ ▹= λ claim_id.
          Keeps-take_amount stable.prints _ _ args ▹= λ (v, args).
          Keeps-take_asset stable.prints c args (λ alias args. Keeps-pure) ▹= λ (asset, args).
          Keeps-no_more args ▹ Keeps-amount_of stable.prints _ _ _ _ ▹= λ amt.
          Keeps-send stable _ _ ▹= λ r. Keeps-accept_ledger stable _

  pub Keeps-do_xchain_commit : (line : String) → Keeps P (do_xchain_commit shell line)
  unfolding do_xchain_commit
  Keeps-do_xchain_commit line = Keeps-catch (Keeps-commit line) λ e. Keeps-print stable.prints _

  Keeps-account_create : (line : String) → Keeps P (account_create shell line)
  Keeps-account_create line =
      Keeps-exactly stable.prints _ _ _ ▹ Keeps-take_chain stable.prints _ _ ▹= λ (c, args).
      Keeps-take_account stable.prints c args ▹= λ (source, args).
      Keeps-take_account stable.prints _ args ▹= λ (dst, args).
      Keeps-pop stable.prints args ▹= λ (alias, args).
      Keeps-known_bridge stable.prints _ alias ▹= λ bridge.
      Keeps-take_amount stable.prints _ _ args ▹= λ (v, args). Keeps-lift _ ▹= λ v.
      Keeps-lift _ ▹= λ amt. Keeps-take_amount stable.prints _ _ args ▹= λ (v, args).
      Keeps-lift _ ▹= λ v. Keeps-lift _ ▹= λ reward.
      Keeps-no_more args ▹ Keeps-send stable _ _ ▹= λ r. Keeps-accept_ledger stable _

  pub Keeps-do_xchain_account_create :
      (line : String) → Keeps P (do_xchain_account_create shell line)
  unfolding do_xchain_account_create
  Keeps-do_xchain_account_create line =
      Keeps-catch (Keeps-account_create line) λ e. Keeps-print stable.prints _

module _ {W : Type 0} {P : Repl → W → Type 0} (prints : Prints P) where
  -- The constructor refuses the proof, so that nothing is sent.
  Keeps-claim_with :
      (shell : Shell W) (c : Chain) (source dst : Account) (proof : Option Value)
      → Keeps P (claim_with shell c source dst proof)
  unfolding claim_with init_xchain_claim ◌>>=◌
  Keeps-claim_with shell c source dst none = Keeps-fail
  Keeps-claim_with shell c source dst (some proof) = record { at = λ r w h. h }

  pub Keeps-do_xchain_claim :
      (shell : Shell W) (line : String) → Keeps P (do_xchain_claim shell line)
  unfolding do_xchain_claim
  Keeps-do_xchain_claim shell line =
      Keeps-catch
        (Keeps-exactly prints _ _ _ ▹ Keeps-take_chain prints _ _ ▹= λ (c, args).
          Keeps-take_account prints c args ▹= λ (source, args).
          Keeps-take_account prints c args ▹= λ (dst, args).
          Keeps-pop prints args ▹= λ (alias, args).
          Keeps-get_state ▹= λ r. Keeps-claim_with shell c source dst _)
        λ e. Keeps-pure
