-- ===== src/Transaction/Encode.antt =====
-- `to_cmd_obj` of the classes of bin/python/transaction.py.
use xbridge_witness.Base.{
  String, Option, none, some, List, [], ◌∷◌, Result, ok, err, name_error, attribute_error, require,
  map_option, ◌>>=◌, ◌>>◌,
}
use xbridge_witness.Base.Int.{ℤ}
use xbridge_witness.Base.Decimal.{show}
use xbridge_witness.Value.{
  Account, Asset, Value, num, str, list, dict, asset_object, int, Fields, Items, nil, cons, end,
  put, put_some, opt_str,
}
use xbridge_witness.Common.Asset.{asset_to_cmd_obj}
use xbridge_witness.Common.Path.{path_list_to_cmd_obj}
use xbridge_witness.Common.Bridge.{bridge_to_cmd_obj}
use xbridge_witness.Transaction.Types.{
  Fee, drops_fee, asset_fee, Header, Payment, Trust, SignerListSet, AccountSet, Offer,
  XchainCreateBridge, XchainCreateClaimId, XchainCommit, XchainAccountCreate, Body, payment, trust,
  set_regular_key, signer_list_set, account_set, offer, ticket, set_hook, xchain_create_bridge,
  xchain_create_claim_id, xchain_commit, xchain_claim, xchain_account_create, Transaction,
}

-- An optional number as a value.
abbrev pub opt_int : Option ℤ → Option Value
opt_int none = none
opt_int (some z) = some (num (int z))

abbrev pub opt_text : Option String → Option Value
opt_text none = none
opt_text (some s) = some (str s)

abbrev pub fee_to_cmd_obj : Fee → Result Value
fee_to_cmd_obj (drops_fee z) = ok (str (show z))
fee_to_cmd_obj (asset_fee a) = asset_to_cmd_obj a

-- `Transaction.to_cmd_obj`: with flags it reads `flags`, a name that is not bound.
unfoldable pub header_to_cmd_obj : Header → Result Fields
header_to_cmd_obj h = do
  elim h.flags [ none ↦ ok tt | some flags ↦ err name_error ]
  fee ← map_option fee_to_cmd_obj h.fee
  ok (
      put_some "Memos" h.memos (
        put_some "SourceTag" (opt_int h.src_tag) (
          put_some "LastLedgerSequence" (opt_int h.last_ledger_sequence) (
            put_some "AccountTxnID" (opt_text h.account_txn_id) (
              put_some "Sequence" (opt_int h.sequence)
                (put_some "Fee" fee (put "Account" (opt_str h.account.account_id) end)))))))

abbrev typed : String → Fields → Fields
typed name d = put "TransactionType" (str name) d

-- `deliver_min` is sent as the object that it is.
abbrev opt_asset_object : Option Asset → Option Value
opt_asset_object none = none
opt_asset_object (some a) = some (asset_object a)

unfoldable pub payment_fields : Payment → Fields → Result Fields
payment_fields p d = do
  amt ← asset_to_cmd_obj p.amt
  paths ← map_option path_list_to_cmd_obj p.paths
  send_max ← map_option asset_to_cmd_obj p.send_max
  ok (
      put_some "DeliverMin" (opt_asset_object p.deliver_min) (
        put_some "DestinationTag" (opt_int p.dst_tag) (
          put_some "SendMax" send_max (
            put_some "Paths" paths (
              put "Amount" amt
                (put "Destination" (opt_str p.dst.account_id) (typed "Payment" d)))))))

unfoldable pub trust_fields : Trust → Fields → Result Fields
trust_fields t d = do
  limit ← require attribute_error t.limit_amt
  amt ← asset_to_cmd_obj limit
  ok (
      put_some "QualityOut" (opt_int t.qout)
        (put_some "QualityIn" (opt_int t.qin) (put "LimitAmount" amt (typed "TrustSet" d))))

-- `zip(keys, weights)`, each pair as an entry
unfoldable pub signer_entries : List String → List ℤ → Items
signer_entries [] ws = nil
signer_entries (k ∷ ks) [] = nil
signer_entries (k ∷ ks) (w ∷ ws) =
    cons
      (dict (
        put "SignerEntry" (dict (put "SignerWeight" (num (int w)) (put "Account" (str k) end)))
          end))
      (signer_entries ks ws)

unfoldable pub signer_list_set_fields : SignerListSet → Fields → Result Fields
unfolding signer_entries
signer_list_set_fields s d = ok (
    put "SignerEntries" (list (signer_entries s.keys s.weights))
      (put "SignerQuorum" (num (int s.quorum)) (typed "SignerListSet" d)))

unfoldable pub account_set_fields : AccountSet → Fields → Result Fields
account_set_fields a d = ok (
    put_some "TickSize" (opt_int a.tick_size) (
      put_some "TransferRate" (opt_int a.transfer_rate) (
        put_some "SetFlag" (opt_int a.set_flag)
          (put_some "ClearFlag" (opt_int a.clear_flag) (typed "AccountSet" d)))))

unfoldable pub offer_fields : Offer → Fields → Result Fields
offer_fields o d = do
  pays ← asset_to_cmd_obj o.taker_pays
  gets ← asset_to_cmd_obj o.taker_gets
  ok (
      put_some "OfferSequence" (opt_int o.offer_sequence) (
        put_some "Expiration" (opt_int o.expiration)
          (put "TakerGets" gets (put "TakerPays" pays (typed "OfferCreate" d)))))

unfoldable pub create_bridge_fields : XchainCreateBridge → Fields → Result Fields
create_bridge_fields x d = do
  bridge ← bridge_to_cmd_obj x.bridge
  reward ← asset_to_cmd_obj x.reward
  min_create ← map_option asset_to_cmd_obj x.min_account_create
  ok (
      put_some "MinAccountCreateAmount" min_create (
        put "SignatureReward" reward
          (put "XChainBridge" (dict bridge) (typed "XChainCreateBridge" d))))

unfoldable pub create_claim_id_fields : XchainCreateClaimId → Fields → Result Fields
create_claim_id_fields x d = do
  bridge ← bridge_to_cmd_obj x.bridge
  reward ← asset_to_cmd_obj x.reward
  ok (
      put "OtherChainSource" (opt_str x.other_chain_account.account_id) (
        put "SignatureReward" reward
          (put "XChainBridge" (dict bridge) (typed "XChainCreateClaimID" d))))

abbrev opt_id : Option Account → Option Value
opt_id none = none
opt_id (some a) = some (opt_str a.account_id)

unfoldable pub commit_fields : XchainCommit → Fields → Result Fields
commit_fields x d = do
  bridge ← bridge_to_cmd_obj x.bridge
  amount ← asset_to_cmd_obj x.amount
  ok (
      put_some "OtherChainDestination" (opt_id x.other_chain_destination) (
        put "XChainClaimID" (num (int x.claim_id))
          (put "Amount" amount (put "XChainBridge" (dict bridge) (typed "XChainCommit" d)))))

unfoldable pub account_create_fields : XchainAccountCreate → Fields → Result Fields
account_create_fields x d = do
  bridge ← bridge_to_cmd_obj x.bridge
  amount ← asset_to_cmd_obj x.amount
  reward ← asset_to_cmd_obj x.signature_reward
  ok (
      put "SignatureReward" reward (
        put "Amount" amount (
          put "Destination" (opt_str x.dst.account_id)
            (put "XChainBridge" (dict bridge) (typed "XChainAccountCreateCommit" d)))))

-- What each class adds to the dictionary of its parent. `XChainClaim` reads `dst_tag`, a name that
-- is not bound.
unfoldable pub body_fields : Body → Fields → Result Fields
unfolding payment_fields trust_fields signer_list_set_fields account_set_fields offer_fields
    create_bridge_fields create_claim_id_fields commit_fields account_create_fields
body_fields (payment p) d = payment_fields p d
body_fields (trust t) d = trust_fields t d
body_fields (set_regular_key key) d = ok (put "RegularKey" (str key) (typed "SetRegularKey" d))
body_fields (signer_list_set s) d = signer_list_set_fields s d
body_fields (account_set a) d = account_set_fields a d
body_fields (offer o) d = offer_fields o d
body_fields (ticket count) d = ok (put "TicketCount" (num (int count)) (typed "TicketCreate" d))
body_fields (set_hook h) d =
    ok (put "HookOn" (str h.hook_on) (put "CreateCode" (str h.create_code) (typed "SetHook" d)))
body_fields (xchain_create_bridge x) d = create_bridge_fields x d
body_fields (xchain_create_claim_id x) d = create_claim_id_fields x d
body_fields (xchain_commit x) d = commit_fields x d
body_fields (xchain_claim dst) d = err name_error
body_fields (xchain_account_create x) d = account_create_fields x d

-- `to_cmd_obj` of a transaction
unfoldable pub to_cmd_obj : Transaction → Result Fields
unfolding header_to_cmd_obj body_fields
to_cmd_obj t = do d ← header_to_cmd_obj t.header; body_fields t.body d
