-- ===== src/Repl/Bridges.antt =====
-- The commands of bin/python/interactive.py on bridges: `do_new_bridge`, `do_bridge_aliases` and
-- `do_bridge_create`.
use xbridge_witness.Base.{
  String, not, Option, none, some, List, [], ◌∷◌, length, ltb, Exn, type_error, key_error, require,
  map_option, Result, err,
}
use xbridge_witness.Base.Dict.{lookup, insert}
use xbridge_witness.Base.Words.{words, concat}
use xbridge_witness.Value.{Number, Value, dict, Fields, get}
use xbridge_witness.Common.Asset.{xrp}
use xbridge_witness.Common.Bridge.{Bridge, init_bridge}
use xbridge_witness.Transaction.Types.{xchain_create_bridge}
use xbridge_witness.Repl.State.{
  Repl, Shell, Step, ◌>>=◌, ◌>>◌, print, refuse, unless, get_state, lift, catch, no_more, outside,
  send, accept_ledger, go,
}
use xbridge_witness.Repl.Args.{
  take_unit, pop, first_chain, take_chain, take_account, read_amount, take_amount, scale,
  known_bridge, txn_of, usage,
}
use xbridge_witness.Repl.Accounts.{exactly}

unfoldable pub bridge_of_fields : Fields → Result Bridge
unfolding init_bridge
bridge_of_fields d = init_bridge (record {
  locking_chain_door = none;
  locking_chain_issue = none;
  issuing_chain_door = none;
  issuing_chain_issue = none;
  from_rpc_result = some d;
})

-- `Bridge(from_rpc_result=v)` on what the file has, which is to be a dictionary.
abbrev pub bridge_of : Value → Result Bridge
bridge_of (dict d) = bridge_of_fields d
bridge_of v = err type_error

abbrev pub put_bridge : {W : Type 0} → String → Bridge → Step W (Unit {0})
put_bridge alias b r w = (go tt, record r { bridge_aliases = insert alias b r.bridge_aliases }, w)

-- An amount that may be missing: then the word is left.
abbrev take_optional : Option Number → String → List String → Option Number × List String
take_optional none a args = (none, a ∷ args)
take_optional (some n) a args = (some n, args)

module _ {W : Type 0} (shell : Shell W) where
  abbrev pub unread : String → Exn → Step W Fields
  unread file e = refuse (concat ("Could not read json file: " ∷ file ∷ []))

  -- The message shows the entry again, so a file without it raises.
  abbrev pub no_bridge : Fields → Exn → Step W Bridge
  no_bridge d e = do
    v ← lift (require key_error (get "XChainBridge" d))
    refuse (
        concat (
          "Could not create bridge from dict: "
          ∷ shell.show_value v
          ∷ "\ne="
          ∷ shell.repr_exn e
          ∷ []))

  -- `BridgeRepl.do_new_bridge`
  unfoldable pub do_new_bridge : String → Step W (Unit {0})
  do_new_bridge line = do
    let args = words line
    exactly 2 "new_bridge command exactly two arguments." args
    (alias, args) ← pop args
    (file, args) ← pop args
    d ← catch (outside shell (shell.load_json file)) (unread file)
    b ←
        catch (lift (require key_error (get "XChainBridge" d)) >>= λ v. lift (bridge_of v))
          (no_bridge d)
    put_bridge alias b

  abbrev pub show_aliases : List String → Repl → Step W (Unit {0})
  show_aliases [] r = print (shell.show_bridges r.bridge_aliases)
  show_aliases (a ∷ args) r = do
    b ← lift (require key_error (lookup a r.bridge_aliases))
    print (shell.show_bridge b)

  -- `BridgeRepl.do_bridge_aliases`
  unfoldable pub do_bridge_aliases : String → Step W (Unit {0})
  do_bridge_aliases line = do
    let args = words line
    unless (not (ltb 1 (length args))) (usage "bridge_aliases at most one argument.")
    r ← get_state
    show_aliases args r

  -- `BridgeRepl.do_bridge_create`
  unfoldable pub do_bridge_create : String → Step W (Unit {0})
  do_bridge_create line = do
    let args = words line
    unless (not (ltb 6 (length args))) (usage "bridge_create at most five arguments.")
    unless (not (ltb (length args) 4)) (usage "bridge_create at least four arguments.")
    let (in_drops, args) = take_unit args
    (c, args) ← take_chain first_chain args
    (source, args) ← take_account c args
    (reward, args) ← take_amount shell.floats in_drops args
    reward ← lift (scale shell.floats in_drops reward)
    (a, args) ← pop args
    let (min_create, args) = take_optional (read_amount shell.floats in_drops a) a args
    min_create ← lift (map_option (scale shell.floats in_drops) min_create)
    (alias, args) ← pop args
    bridge ← known_bridge (concat ("Error: " ∷ alias ∷ " is an unknown bridge alias" ∷ [])) alias
    no_more args
    reward ← lift (xrp shell.floats reward)
    min_create ← lift (map_option (xrp shell.floats) min_create)
    _ ← send shell c (
        txn_of source (
          xchain_create_bridge
            (record { bridge = bridge; reward = reward; min_account_create = min_create })))
    accept_ledger shell c
