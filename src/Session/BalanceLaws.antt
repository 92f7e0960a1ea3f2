-- ===== src/Session/BalanceLaws.antt =====
-- The balance that `get_balance` of bin/python/app.py reads of an account's ledger entry.
use xbridge_witness.Base.{Result, ◌≡◌, ap, Option, none, some}
use xbridge_witness.Base
use xbridge_witness.Base.Int.{ℤ}
use xbridge_witness.Base.Decimal.{show}
use xbridge_witness.Value.{Asset, Value, Fields, str, get}
use xbridge_witness.Value.Floats.{Floats}
use xbridge_witness.Session.App.{App}
use xbridge_witness.Session.Requests
use xbridge_witness.Session.Queries.{rename}

-- A ledger entry of an account, with a balance of so many drops.
pub record IsEntry (info : Fields) (z : ℤ) : Type 0 where
  pub kind : Value
  pub has_kind : get "LedgerEntryType" info ≡ some kind
  pub index : Value
  pub has_index : get "index" info ≡ some index
  pub account : Value
  pub has_account : get "Account" info ≡ some account
  pub has_balance : get "Balance" info ≡ some (str (show z))
  pub new_account : get "account" info ≡ none
  pub new_balance : get "balance" info ≡ none

-- The last five columns that get a new name.
abbrev other_columns : Fields → Fields
other_columns d = rename "Sequence" "sequence" (
    rename "PreviousTxnLgrSeq" "previous_txn_lgr_seq" (
      rename "PreviousTxnID" "previous_txn_id"
        (rename "OwnerCount" "owner_count" (rename "Flags" "flags" d))))

-- The row of an entry, and what it has.
record IsRow (row : Fields) (z : ℤ) : Type 0 where
  account : Value
  has_account : get "account" row ≡ some account
  has_balance : get "balance" row ≡ some (str (show z))
