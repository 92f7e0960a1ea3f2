-- ===== src/Tests/Transaction.antt =====
-- The theorems on transactions at concrete inputs.
use xbridge_witness.Base.{
  ◌⊎◌, ℕ, true, ◌>>=◌, is_some, name_error, type_error, if◌then◌else◌, ◌≡◌, refl, none, some, ok,
  err, [], ◌∷◌, length, Exn, ◌&&◌,
}
use xbridge_witness.Base.Int.{pos}
use xbridge_witness.Value.{Fields, end, str, get}
use xbridge_witness.Common.Asset.{asset_to_cmd_obj}
use xbridge_witness.Transaction.Types.{
  Header, Transaction, payment, xchain_commit, SignerListSet, init_signer_list_set,
}
use xbridge_witness.Transaction.Encode.{to_cmd_obj, signer_entries}
use xbridge_witness.Transaction.Setters.{set_flag}
use xbridge_witness.Transaction.Flags.{set_flag-to_cmd_obj}
use xbridge_witness.Transaction.Sent.{IsSent, to_cmd_obj-IsSent}
use xbridge_witness.Transaction.Complete.{is_ok, complete_header, complete_body, is_ok-to_cmd_obj}
use xbridge_witness.Transaction.Signers.{count_items, Misfits, init_signer_list_set-cases, given}
use xbridge_witness.Tests.Samples.{alice, bob, ten_drops, bridge}

abbrev header : Header
header = record {
  account = alice;
  flags = none;
  fee = none;
  sequence = some (pos 7);
  account_txn_id = none;
  last_ledger_sequence = none;
  src_tag = none;
  memos = none;
}

abbrev a_payment : Transaction
a_payment = record {
  header = header;
  body = payment (record {
    dst = bob;
    amt = ten_drops;
    send_max = none;
    paths = none;
    dst_tag = none;
    deliver_min = none;
  });
}

abbrev a_commit : Transaction
a_commit = record {
  header = header;
  body = xchain_commit (record {
    bridge = bridge;
    claim_id = pos 1;
    amount = ten_drops;
    other_chain_destination = some bob;
  });
}

payment_dict : Fields
unfolding to_cmd_obj
payment_dict = elim (to_cmd_obj a_payment) [ ok d ↦ d | err e ↦ end ]

to_cmd_obj-IsSent_example :
    IsSent header payment_dict × (get "TransactionType" payment_dict ≡ some (str "Payment"))
unfolding payment_dict asset_to_cmd_obj
to_cmd_obj-IsSent_example = to_cmd_obj-IsSent a_payment payment_dict refl

is_ok-to_cmd_obj_example :
    is_ok (to_cmd_obj a_commit) ≡ (complete_header header && complete_body a_commit.body)
is_ok-to_cmd_obj_example = is_ok-to_cmd_obj a_commit

init_signer_list_set-cases_example :
    ((s : SignerListSet) × (init_signer_list_set
          ("rA" ∷ "rB" ∷ [])
          (some (pos 3 ∷ pos 1 ∷ []))
          (pos 2)
        ≡ ok s)
      × (s.keys ≡ "rA" ∷ "rB" ∷ [])
      × (s.quorum ≡ pos 2)
      × (s.weights ≡ given ("rA" ∷ "rB" ∷ []) (some (pos 3 ∷ pos 1 ∷ [])))
      × (length s.weights ≡ length s.keys)
      × (count_items (signer_entries s.keys s.weights) ≡ 2))
    ⊎ ((e : Exn) × (init_signer_list_set ("rA" ∷ "rB" ∷ []) (some (pos 3 ∷ pos 1 ∷ [])) (pos 2)
          ≡ err e)
        × Misfits ("rA" ∷ "rB" ∷ []) (some (pos 3 ∷ pos 1 ∷ [])))
init_signer_list_set-cases_example =
    init_signer_list_set-cases ("rA" ∷ "rB" ∷ []) (some (pos 3 ∷ pos 1 ∷ [])) (pos 2)

set_flag-to_cmd_obj_example :
    (set_flag 131072 true (record header { flags = some 1 }) >>= λ h.
    to_cmd_obj (record { header = h; body = a_payment.body }))
    ≡ err (if is_some {A = ℕ} (some 1) then name_error else type_error)
set_flag-to_cmd_obj_example =
    set_flag-to_cmd_obj 131072 true (record header { flags = some 1 }) a_payment.body
