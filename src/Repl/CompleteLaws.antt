-- ===== src/Repl/CompleteLaws.antt =====
-- The completions of bin/python/interactive.py that return: they offer names that start with what is typed.
use xbridge_witness.Base.{String, Bool, true, false, none, some, List, ◌=ℕ◌, ◌≡◌, length, arith}
use xbridge_witness.Base.Words.{words}
use xbridge_witness.Repl.State.{Repl}
use xbridge_witness.Repl.Offers.{hook_names, arg_num}
use xbridge_witness.Repl.Complete.{
  Completion, complete, addressbook, balance, account_info, pay, xchain, server_info, new_account,
  wallet_propose, new_iou, ious, set_trust, ledger_accept, hook, account_tx, subscribe,
  bridge_aliases, bridge_create, xchain_claimid_create, xchain_commit, xchain_account_create,
  xchain_claim, complete_addressbook, complete_account_info, complete_pay, complete_server_info,
  complete_new_account, complete_wallet_propose, complete_new_iou, complete_ious,
  complete_set_trust, complete_ledger_accept, complete_hook, complete_account_tx,
  complete_subscribe, complete_xchain_claim, federator_info, server_start, server_stop,
}
use xbridge_witness.Repl.OffersLaws.{
  Gives, IsNamed, Gives-matching_names, Gives-account, Gives-asset, Gives-chain, Gives-unit,
  Gives-nothing, Gives-both_offers, Gives-if, Gives-chain_word, two_words, two_args,
}

-- The commands whose completions never make a call that raises.
abbrev pub is_reliable : Completion → Bool
is_reliable addressbook = true
is_reliable account_info = true
is_reliable pay = true
is_reliable server_info = true
is_reliable new_account = true
is_reliable wallet_propose = true
is_reliable new_iou = true
is_reliable ious = true
is_reliable set_trust = true
is_reliable ledger_accept = true
is_reliable hook = true
is_reliable account_tx = true
is_reliable subscribe = true
is_reliable xchain_claim = true
is_reliable _ = false

module _ (text : String) (args : List String) (r : Repl) (h : IsNamed r) where
  Gives-complete_addressbook : Gives text (complete_addressbook text args r)
  Gives-complete_addressbook =
      Gives-if text (length args =ℕ 2) _ _
        (λ e. Gives-both_offers text _ _ (Gives-chain text) (Gives-account text none r h))
        (Gives-if text (length args =ℕ 3) _ _
          (λ e.
            Gives-chain_word text args _ (two_args args 3 e (omega arith))
              λ c. Gives-account text (some c) r h)
          (Gives-nothing text))

  Gives-complete_account_info : Gives text (complete_account_info text args r)
  Gives-complete_account_info =
      Gives-if text (length args =ℕ 2) _ _
        (λ e. Gives-both_offers text _ _ (Gives-chain text) (Gives-account text none r h))
        (Gives-if text (length args =ℕ 3) _ _ (λ e. Gives-account text none r h)
          (Gives-nothing text))

  Gives-complete_pay : Gives text (complete_pay text args r)
  Gives-complete_pay =
      Gives-if text (arg_num text args =ℕ 2) _ _ (λ e. Gives-chain text)
        (Gives-if text (arg_num text args =ℕ 3) _ _
          (λ e.
            Gives-chain_word text args _ (two_words text args 3 e (omega arith))
              λ c. Gives-account text (some c) r h)
          (Gives-if text (arg_num text args =ℕ 4) _ _
            (λ e.
              Gives-chain_word text args _ (two_words text args 4 e (omega arith))
                λ c. Gives-account text (some c) r h)
            (Gives-if text (arg_num text args =ℕ 6) _ _
              (λ e. Gives-both_offers text _ _ (Gives-unit text) (
                Gives-chain_word text args _ (two_words text args 6 e (omega arith))
                  λ c. Gives-asset text (some c) r))
              (Gives-nothing text))))

  Gives-complete_server_info : Gives text (complete_server_info text args r)
  Gives-complete_server_info =
      Gives-if text (length args =ℕ 2) _ _ (λ e. Gives-chain text) (Gives-nothing text)

  Gives-complete_new_account : Gives text (complete_new_account text args r)
  Gives-complete_new_account =
      Gives-if text (length args =ℕ 2) _ _ (λ e. Gives-chain text) (Gives-nothing text)

  Gives-complete_wallet_propose : Gives text (complete_wallet_propose text args r)
  Gives-complete_wallet_propose =
      Gives-if text (length args =ℕ 2) _ _ (λ e. Gives-chain text) (Gives-nothing text)

  Gives-complete_new_iou : Gives text (complete_new_iou text args r)
  Gives-complete_new_iou =
      Gives-if text (length args =ℕ 2) _ _ (λ e. Gives-chain text)
        (Gives-if text (length args =ℕ 5) _ _ (λ e. Gives-account text none r h)
          (Gives-nothing text))

  Gives-complete_ious : Gives text (complete_ious text args r)
  Gives-complete_ious =
      Gives-if text (length args =ℕ 2) _ _
        (λ e. Gives-both_offers text _ _ (Gives-chain text) (Gives-asset text none r))
        (Gives-if text (length args =ℕ 3) _ _
          (λ e.
            Gives-chain_word text args _ (two_args args 3 e (omega arith))
              λ c. Gives-asset text (some c) r)
          (Gives-nothing text))

  Gives-complete_set_trust : Gives text (complete_set_trust text args r)
  Gives-complete_set_trust =
      Gives-if text (length args =ℕ 2) _ _ (λ e. Gives-chain text)
        (Gives-if text (length args =ℕ 3) _ _
          (λ e.
            Gives-chain_word text args _ (two_args args 3 e (omega arith))
              λ c. Gives-asset text (some c) r)
          (Gives-if text (length args =ℕ 4) _ _
            (λ e.
              Gives-chain_word text args _ (two_args args 4 e (omega arith))
                λ c. Gives-account text (some c) r h)
            (Gives-nothing text)))

  Gives-complete_ledger_accept : Gives text (complete_ledger_accept text args r)
  Gives-complete_ledger_accept =
      Gives-if text (length args =ℕ 2) _ _ (λ e. Gives-chain text) (Gives-nothing text)

  Gives-complete_hook : Gives text (complete_hook text args r)
  Gives-complete_hook =
      Gives-if text (arg_num text args =ℕ 2) _ _ (λ e. Gives-account text (some "sidechain") r h)
        (Gives-if text (arg_num text args =ℕ 3) _ _
          (λ e. Gives-matching_names text hook_names (tt, (tt, tt))) (Gives-nothing text))

  Gives-complete_account_tx : Gives text (complete_account_tx text args r)
  Gives-complete_account_tx =
      Gives-if text (arg_num text args =ℕ 2) _ _ (λ e. Gives-chain text)
        (Gives-if text (arg_num text args =ℕ 3) _ _
          (λ e.
            Gives-chain_word text args _ (two_words text args 3 e (omega arith))
              λ c. Gives-account text (some c) r h)
          (Gives-nothing text))

  Gives-complete_subscribe : Gives text (complete_subscribe text args r)
  Gives-complete_subscribe =
      Gives-if text (arg_num text args =ℕ 2) _ _ (λ e. Gives-chain text)
        (Gives-if text (arg_num text args =ℕ 3) _ _
          (λ e.
            Gives-chain_word text args _ (two_words text args 3 e (omega arith))
              λ c. Gives-account text (some c) r h)
          (Gives-nothing text))

  Gives-complete_xchain_claim : Gives text (complete_xchain_claim text args r)
  Gives-complete_xchain_claim =
      Gives-if text (arg_num text args =ℕ 2) _ _ (λ e. Gives-chain text)
        (Gives-if text (arg_num text args =ℕ 3) _ _
          (λ e.
            Gives-chain_word text args _ (two_words text args 3 e (omega arith))
              λ c. Gives-account text (some c) r h)
          (Gives-if text (arg_num text args =ℕ 4) _ _
            (λ e.
              Gives-chain_word text args _ (two_words text args 4 e (omega arith))
                λ c. Gives-account text (some c) r h)
            (Gives-nothing text)))

-- The completions of the commands that are listed as reliable return, where every known account has a nickname,
-- whatever the line is, and each name that they offer starts with the text that is typed.
pub complete-Gives :
    (m : Completion) (text line : String) (r : Repl)
    → is_reliable m ≡ true
    → IsNamed r
    → Gives text (complete m text line r)
unfolding complete
complete-Gives addressbook text line r e h = Gives-complete_addressbook text (words line) r h
complete-Gives account_info text line r e h = Gives-complete_account_info text (words line) r h
complete-Gives pay text line r e h = Gives-complete_pay text (words line) r h
complete-Gives server_info text line r e h = Gives-complete_server_info text (words line) r h
complete-Gives new_account text line r e h = Gives-complete_new_account text (words line) r h
complete-Gives wallet_propose text line r e h = Gives-complete_wallet_propose text (words line) r h
complete-Gives new_iou text line r e h = Gives-complete_new_iou text (words line) r h
complete-Gives ious text line r e h = Gives-complete_ious text (words line) r h
complete-Gives set_trust text line r e h = Gives-complete_set_trust text (words line) r h
complete-Gives ledger_accept text line r e h = Gives-complete_ledger_accept text (words line) r h
complete-Gives hook text line r e h = Gives-complete_hook text (words line) r h
complete-Gives account_tx text line r e h = Gives-complete_account_tx text (words line) r h
complete-Gives subscribe text line r e h = Gives-complete_subscribe text (words line) r h
complete-Gives xchain_claim text line r e h = Gives-complete_xchain_claim text (words line) r h
complete-Gives balance text line r e h = ground arith
complete-Gives xchain text line r e h = ground arith
complete-Gives bridge_aliases text line r e h = ground arith
complete-Gives bridge_create text line r e h = ground arith
complete-Gives xchain_claimid_create text line r e h = ground arith
complete-Gives xchain_commit text line r e h = ground arith
complete-Gives xchain_account_create text line r e h = ground arith
complete-Gives federator_info text line r e h = ground arith
complete-Gives server_start text line r e h = ground arith
complete-Gives server_stop text line r e h = ground arith
