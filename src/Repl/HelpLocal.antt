-- ===== src/Repl/HelpLocal.antt =====
-- The help texts `help_...` of `class BridgeRepl` of bin/python/interactive.py, from addressbook to server_start.
use xbridge_witness.Base.{[], ◌∷◌}
use xbridge_witness.Base.Words.{join}
use xbridge_witness.Repl.State.{Step, print}

module _ {W : Type 0} where
  abbrev help_addressbook : Step W (Unit {0})
  help_addressbook = print (
      join "\n" (
        "addressbook [mainchain | sidechain] [account]"
        ∷ "Show the address book for the specified chain and account."
        ∷ "If a chain is not specified, show both address books."
        ∷ "If the account is not specified, show all addresses." ∷ "" ∷ []))

  abbrev help_balance : Step W (Unit {0})
  help_balance = print (
      join "\n" (
        "balance [sidechain | mainchain] [account_name] [xrp | drops | asset_alias]"
        ∷ "Show the balance the specified account.If no account is specified, show the balance for all accounts in the addressbook."
        ∷ "If no chain is specified, show the balances for both chains."
        ∷ "If no asset alias is specified, show balances for all known asset aliases." ∷ []))

  abbrev help_account_info : Step W (Unit {0})
  help_account_info = print (
      join "\n" (
        "account_info [sidechain | mainchain] [account_name]"
        ∷ "Show the account_info the specified account.If no account is specified, show the account_info for all accounts in the addressbook."
        ∷ "If no chain is specified, show the account_info for both chains." ∷ []))

  abbrev help_pay : Step W (Unit {0})
  help_pay = print (
      join "\n" (
        "pay (sidechain | mainchain) src_account dst_account amount [xrp | drops | iou_alias]"
        ∷ "Send xrp from the src account to the dst account.Note: the door account can not be used as the src or dst."
        ∷ "Cross chain transactions should use the xchain command instead of this." ∷ "" ∷ []))

  abbrev help_xchain : Step W (Unit {0})
  help_xchain = print (
      join "\n" (
        "xchain (sidechain | mainchain) this_chain_account other_chain_account amount [xrp | drops | iou_alias]"
        ∷ "Send xrp from the specified chain to the other chain.Note: the door account can not be used as the account."
        ∷ "" ∷ []))

  abbrev help_server_info : Step W (Unit {0})
  help_server_info = print (
      join "\n" (
        "server_info [mainchain | sidechain]"
        ∷ "Show the process ids and config files for the rippled servers running for the specified chain."
        ∷ "If a chain is not specified, show info for both chains." ∷ []))

  abbrev help_federator_info : Step W (Unit {0})
  help_federator_info = print (
      join "\n" (
        "federator_info [server_index...] [verbose | raw]"
        ∷ "Show the state of the federators queues and startup synchronization."
        ∷ "If a server index is not specified, show info for all running federators." ∷ []))

  abbrev help_new_account : Step W (Unit {0})
  help_new_account = print (
      join "\n" (
        "new_account (mainchain | sidechain) alias [alias...]"
        ∷ "Add a new account to the address book" ∷ []))

  abbrev help_wallet_propose : Step W (Unit {0})
  help_wallet_propose = print (
      join "\n" (
        "wallet_propose (mainchain | sidechain) alias seed key_type"
        ∷ "Add a new account to the address book using a seed" ∷ []))

  abbrev help_new_iou : Step W (Unit {0})
  help_new_iou = print (
      join "\n"
        ("new_iou (mainchain | sidechain) alias currency issuer" ∷ "Add a new iou alias" ∷ []))

  abbrev help_ious : Step W (Unit {0})
  help_ious = print (
      join "\n" (
        "ious [mainchain | sidechain] [alias]"
        ∷ "Show the iou aliases for the specified chain and alias."
        ∷ "If a chain is not specified, show aliases for both chains."
        ∷ "If the alias is not specified, show all aliases." ∷ "" ∷ []))

  abbrev help_set_trust : Step W (Unit {0})
  help_set_trust = print (
      join "\n" (
        "set_trust (mainchain | sidechain) iou_alias account amount"
        ∷ "Set trust amount for account's side of the iou trust line to amount" ∷ []))

  abbrev help_ledger_accept : Step W (Unit {0})
  help_ledger_accept = print (
      join "\n" (
        "ledger_accept (mainchain | sidechain)"
        ∷ "Force a ledger_accept if the chain is running in stand alone mode." ∷ []))

  abbrev help_server_start : Step W (Unit {0})
  help_server_start =
      print (join "\n" ("server_start index [index...] | all" ∷ "Start a running server" ∷ []))
