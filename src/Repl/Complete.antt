-- ===== src/Repl/Complete.antt =====
-- The completions `complete_...` of `class BridgeRepl` of bin/python/interactive.py, from the words of the line so
-- far. The second branch for four words of complete_xchain_account_create is never taken, and left out.
use xbridge_witness.Base.{
  String, none, some, List, [], ◌∷◌, ◌=ℕ◌, ok, err, ◌>>=◌, name_error, type_error, index_error,
  length, if◌then◌else◌,
}
use xbridge_witness.Base.Words.{words, has_prefix}
use xbridge_witness.Repl.State.{Repl}
use xbridge_witness.Repl.Offers.{
  Offers, matching_names, complete_chain, complete_unit, complete_account, complete_asset,
  hook_names, both_offers, chain_word, arg_num, other_chain_name, other_name,
}

abbrev pub complete_addressbook : String → List String → Repl → Offers
complete_addressbook text args r =
    let n = length args in
    if n =ℕ 2
    then both_offers (complete_chain text) (complete_account text none r)
    else if n =ℕ 3
    then (chain_word args >>= λ c. complete_account text (some c) r)
    else ok []

abbrev pub complete_balance : String → List String → Repl → Offers
complete_balance text args r =
    let n = length args in
    if n =ℕ 2
    then both_offers (complete_chain text) (complete_account text none r)
    else if n =ℕ 3
    then both_offers (complete_account text none r) (err type_error)
    else if n =ℕ 4
    then both_offers (complete_unit text) (chain_word args >>= λ c. complete_asset text (some c) r)
    else ok []

abbrev pub complete_account_info : String → List String → Repl → Offers
complete_account_info text args r =
    let n = length args in
    if n =ℕ 2
    then both_offers (complete_chain text) (complete_account text none r)
    else if n =ℕ 3
    then complete_account text none r
    else ok []

abbrev pub complete_pay : String → List String → Repl → Offers
complete_pay text args r =
    let n = arg_num text args in
    if n =ℕ 2
    then complete_chain text
    else if n =ℕ 3
    then (chain_word args >>= λ c. complete_account text (some c) r)
    else if n =ℕ 4
    then (chain_word args >>= λ c. complete_account text (some c) r)
    else if n =ℕ 6
    then both_offers (complete_unit text) (chain_word args >>= λ c. complete_asset text (some c) r)
    else ok []

abbrev pub complete_xchain : String → List String → Repl → Offers
complete_xchain text args r =
    let n = arg_num text args in
    if n =ℕ 2
    then complete_chain text
    else if n =ℕ 3
    then (chain_word args >>= λ c. complete_account text (some c) r)
    else if n =ℕ 4
    then (chain_word args >>= λ c. complete_account text (other_name c) r)
    else if n =ℕ 6
    then both_offers (complete_unit text) (err name_error)
    else ok []

abbrev pub complete_server_info : String → List String → Repl → Offers
complete_server_info text args r =
    let n = length args in if n =ℕ 2 then complete_chain text else ok []

abbrev pub complete_new_account : String → List String → Repl → Offers
complete_new_account text args r =
    let n = length args in if n =ℕ 2 then complete_chain text else ok []

abbrev pub complete_wallet_propose : String → List String → Repl → Offers
complete_wallet_propose text args r =
    let n = length args in if n =ℕ 2 then complete_chain text else ok []

abbrev pub complete_new_iou : String → List String → Repl → Offers
complete_new_iou text args r =
    let n = length args in
    if n =ℕ 2 then complete_chain text else if n =ℕ 5 then complete_account text none r else ok []

abbrev pub complete_ious : String → List String → Repl → Offers
complete_ious text args r =
    let n = length args in
    if n =ℕ 2
    then both_offers (complete_chain text) (complete_asset text none r)
    else if n =ℕ 3
    then (chain_word args >>= λ c. complete_asset text (some c) r)
    else ok []

abbrev pub complete_set_trust : String → List String → Repl → Offers
complete_set_trust text args r =
    let n = length args in
    if n =ℕ 2
    then complete_chain text
    else if n =ℕ 3
    then (chain_word args >>= λ c. complete_asset text (some c) r)
    else if n =ℕ 4
    then (chain_word args >>= λ c. complete_account text (some c) r)
    else ok []

abbrev pub complete_ledger_accept : String → List String → Repl → Offers
complete_ledger_accept text args r =
    let n = length args in if n =ℕ 2 then complete_chain text else ok []

abbrev pub complete_hook : String → List String → Repl → Offers
complete_hook text args r =
    let n = arg_num text args in
    if n =ℕ 2
    then complete_account text (some "sidechain") r
    else if n =ℕ 3
    then matching_names text hook_names
    else ok []

abbrev pub complete_account_tx : String → List String → Repl → Offers
complete_account_tx text args r =
    let n = arg_num text args in
    if n =ℕ 2
    then complete_chain text
    else if n =ℕ 3
    then (chain_word args >>= λ c. complete_account text (some c) r)
    else ok []

abbrev pub complete_subscribe : String → List String → Repl → Offers
complete_subscribe text args r =
    let n = arg_num text args in
    if n =ℕ 2
    then complete_chain text
    else if n =ℕ 3
    then (chain_word args >>= λ c. complete_account text (some c) r)
    else ok []

abbrev pub complete_bridge_aliases : String → List String → Repl → Offers
complete_bridge_aliases text args r = let n = length args in err type_error

abbrev pub complete_bridge_create : String → List String → Repl → Offers
complete_bridge_create text args r =
    let n = length args in
    if n =ℕ 2
    then both_offers (complete_chain text) (complete_account text none r)
    else if n =ℕ 3
    then (chain_word args >>= λ c. complete_account text (some c) r)
    else err type_error

abbrev pub complete_xchain_claimid_create : String → List String → Repl → Offers
complete_xchain_claimid_create text args r =
    let n = arg_num text args in
    if n =ℕ 2
    then complete_chain text
    else if n =ℕ 3
    then (chain_word args >>= λ c. complete_account text (some c) r)
    else if n =ℕ 4
    then (chain_word args >>= λ c. complete_account text (some (other_chain_name c)) r)
    else if n =ℕ 6
    then err type_error
    else ok []

abbrev pub complete_xchain_commit : String → List String → Repl → Offers
complete_xchain_commit text args r =
    let n = arg_num text args in
    if n =ℕ 2
    then complete_chain text
    else if n =ℕ 3
    then (chain_word args >>= λ c. complete_account text (some c) r)
    else if n =ℕ 4
    then (chain_word args >>= λ c. complete_account text (some (other_chain_name c)) r)
    else if n =ℕ 5
    then err type_error
    else if n =ℕ 8
    then both_offers (complete_unit text) (chain_word args >>= λ c. complete_asset text (some c) r)
    else ok []

abbrev pub complete_xchain_account_create : String → List String → Repl → Offers
complete_xchain_account_create text args r =
    let n = arg_num text args in
    if n =ℕ 2
    then complete_chain text
    else if n =ℕ 3
    then (chain_word args >>= λ c. complete_account text (some c) r)
    else if n =ℕ 4
    then (chain_word args >>= λ c. complete_account text (some (other_chain_name c)) r)
    else if n =ℕ 8
    then both_offers (complete_unit text) (chain_word args >>= λ c. complete_asset text (some c) r)
    else ok []

abbrev pub complete_xchain_claim : String → List String → Repl → Offers
complete_xchain_claim text args r =
    let n = arg_num text args in
    if n =ℕ 2
    then complete_chain text
    else if n =ℕ 3
    then (chain_word args >>= λ c. complete_account text (some c) r)
    else if n =ℕ 4
    then (chain_word args >>= λ c. complete_account text (some c) r)
    else ok []

-- The commands with completions that are modelled
pub data Completion : Type 0 where
  addressbook balance account_info pay xchain server_info new_account wallet_propose new_iou ious
        set_trust ledger_accept hook account_tx subscribe bridge_aliases bridge_create
        xchain_claimid_create xchain_commit xchain_account_create xchain_claim :
      Completion
  federator_info server_start server_stop : Completion

-- `sc_app` is no variable, so these raise, but for words that `verbose` or `raw` starts with.
abbrev pub complete_federator_info : List String → Offers
complete_federator_info [] = err index_error
complete_federator_info (a ∷ []) =
    if has_prefix a "verbose"
    then ok (some "verbose" ∷ [])
    else if has_prefix a "raw"
    then ok (some "raw" ∷ [])
    else err name_error
complete_federator_info (a ∷ b ∷ args) = complete_federator_info (b ∷ args)

-- `complete_...(text, line, begidx, endidx)`
unfoldable pub complete : Completion → String → String → Repl → Offers
complete addressbook text line r = complete_addressbook text (words line) r
complete balance text line r = complete_balance text (words line) r
complete account_info text line r = complete_account_info text (words line) r
complete pay text line r = complete_pay text (words line) r
complete xchain text line r = complete_xchain text (words line) r
complete server_info text line r = complete_server_info text (words line) r
complete new_account text line r = complete_new_account text (words line) r
complete wallet_propose text line r = complete_wallet_propose text (words line) r
complete new_iou text line r = complete_new_iou text (words line) r
complete ious text line r = complete_ious text (words line) r
complete set_trust text line r = complete_set_trust text (words line) r
complete ledger_accept text line r = complete_ledger_accept text (words line) r
complete hook text line r = complete_hook text (words line) r
complete account_tx text line r = complete_account_tx text (words line) r
complete subscribe text line r = complete_subscribe text (words line) r
complete bridge_aliases text line r = complete_bridge_aliases text (words line) r
complete bridge_create text line r = complete_bridge_create text (words line) r
complete xchain_claimid_create text line r = complete_xchain_claimid_create text (words line) r
complete xchain_commit text line r = complete_xchain_commit text (words line) r
complete xchain_account_create text line r = complete_xchain_account_create text (words line) r
complete xchain_claim text line r = complete_xchain_claim text (words line) r
complete federator_info text line r = complete_federator_info (words line)
complete server_start text line r = err name_error
complete server_stop text line r = err name_error
