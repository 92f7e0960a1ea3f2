-- ===== src/Tests/Command.antt =====
-- The theorems on commands at concrete inputs.
use xbridge_witness.Base.{◌≡◌, refl, none, some, [], ◌∷◌, List, ok}
use xbridge_witness.Base.Int.{pos}
use xbridge_witness.Value.{Fields, num, int, str, get}
use xbridge_witness.Command.Types.{
  LedgerIndex, AccountInfo, Body, Command, account_info, server_info, init_command, cmd_name,
}
use xbridge_witness.Command.Websocket.{
  own_dict, account_info_dict, add_websocket_fields, get_websocket_dict,
}
use xbridge_witness.Command.Tagged.{get_websocket_dict-tagged, OneLedger, init_command-OneLedger}
use xbridge_witness.Tests.Samples.{alice}

abbrev info : AccountInfo
info = record {
  account = alice;
  strict = none;
  ledger_hash = none;
  ledger_index = some (LedgerIndex.number (pos 9));
  queue = none;
  signers_list = none;
}

-- As `info`, with a hash too, which the constructor refuses.
abbrev both_ledgers : AccountInfo
both_ledgers = record info { ledger_hash = some "AB" }

abbrev bodies : List Body
bodies = account_info info ∷ account_info both_ledgers ∷ server_info ∷ []

abbrev info_command : Command
info_command = record { cmd_id = 4; body = account_info info }

info_dict : Fields
unfolding account_info_dict
info_dict = account_info_dict info

sent_dict : Fields
unfolding info_dict add_websocket_fields
sent_dict = add_websocket_fields info_command info_dict

get_websocket_dict-tagged_example :
    (own : Fields) × (own_dict (account_info info) ≡ ok own)
    × (get "id" sent_dict ≡ some (num (int (pos 4))))
    × (get "command" sent_dict ≡ some (str (cmd_name (account_info info))))
    × (get "account" sent_dict ≡ get "account" own)
unfolding sent_dict get_websocket_dict own_dict
get_websocket_dict-tagged_example =
    get_websocket_dict-tagged info_command sent_dict "account" refl refl

init_command-OneLedger_example : OneLedger info_dict
unfolding info_dict init_command own_dict
init_command-OneLedger_example =
    init_command-OneLedger (account_info info) 4 info_command info_dict refl refl refl
