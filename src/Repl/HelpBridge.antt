-- ===== src/Repl/HelpBridge.antt =====
-- The help texts `help_...` of `class BridgeRepl` of bin/python/interactive.py, from server_stop on.
use xbridge_witness.Base.{[], ◌∷◌}
use xbridge_witness.Base.Words.{join}
use xbridge_witness.Repl.State.{Step, print}

module _ {W : Type 0} where
  abbrev help_server_stop : Step W (Unit {0})
  help_server_stop =
      print (join "\n" ("server_stop index [index...] | all" ∷ "Stop a running server" ∷ []))

  abbrev help_hook : Step W (Unit {0})
  help_hook =
      print (join "\n" ("hook account hook_name" ∷ "Set a hook on a sidechain account" ∷ []))

  abbrev help_quit : Step W (Unit {0})
  help_quit = print "Exit the program."

  abbrev help_q : Step W (Unit {0})
  help_q = help_quit

  abbrev help_account_tx : Step W (Unit {0})
  help_account_tx = print (
      join "\n" (
        "account_tx (mainchain | sidechain) account [filename]" ∷ "Return the account transactions"
        ∷ []))

  abbrev help_subscribe : Step W (Unit {0})
  help_subscribe = print (
      join "\n" (
        "subscribe (mainchain | sidechain) account filename"
        ∷ "Subscribe to the stream and write the results to filename"
        ∷ "Note: The file is not updated until the user types a new command" ∷ []))

  abbrev help_new_bridge : Step W (Unit {0})
  help_new_bridge = print (
      join "\n" (
        "new_bridge alias json_file_with_sidechain_field" ∷ "Add a new account to the address book"
        ∷ []))

  abbrev help_bridge_aliases : Step W (Unit {0})
  help_bridge_aliases =
      print (join "\n" ("bridge_aliases [alias]" ∷ "Show the sidechain json definition" ∷ []))

  abbrev help_bridge_create : Step W (Unit {0})
  help_bridge_create = print (
      join "\n" (
        "bridge_create (mainchain | sidechain) account reward_amt [min_create_amt] bridge_alias [xrp | drops]"
        ∷ "Create a new bridge on the given chain" ∷ []))

  abbrev help_xchain_claimid_create : Step W (Unit {0})
  help_xchain_claimid_create = print (
      join "\n" (
        "xchain_claimid_create (sidechain | mainchain) src_account other_chain_account reward bridge_alias [xrp | drops]"
        ∷ "Create a sidechain sequence number (use get_last_txn_metadata to get the value)" ∷ []))

  abbrev help_xchain_commit : Step W (Unit {0})
  help_xchain_commit = print (
      join "\n" (
        "xchain_commit (sidechain | mainchain) src_account bridge_alias claimid amount [xrp | drops | iou_alias]"
        ∷ "Initiate a sidechain transfer. Use xchain_claim to complete the transfer" ∷ []))

  abbrev help_xchain_account_create : Step W (Unit {0})
  help_xchain_account_create = print (
      join "\n" (
        "xchain_account_create (sidechain | mainchain) src_account dst_account bridge_alias amount reward_amount [xrp | drops]"
        ∷ "Initiate a sidechain account create." ∷ []))

  abbrev help_xchain_claim : Step W (Unit {0})
  help_xchain_claim = print (
      join "\n" (
        "xchain_claim (sidechain | mainchain) src_account dst_account proof_alias"
        ∷ "Claim a sidechain transfer. The account must own the xchain seq num" ∷ []))

  abbrev help_load_batch : Step W (Unit {0})
  help_load_batch =
      print (join "\n" ("load_batch file_name" ∷ "Run the commands in the specified file" ∷ []))

  abbrev help_eof : Step W (Unit {0})
  help_eof = print "Exit the program by typing control-d."
