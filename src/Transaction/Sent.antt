-- ===== src/Transaction/Sent.antt =====
-- What the dictionary of a transaction holds, and when there is none.
use xbridge_witness.Base.{
  String, ◌≡◌, refl, Option, none, some, ok, >>=-eq-ok, name_error, map_option, require,
  attribute_error, ◌∙◌, Option-cases, or_else-none, inl, inr, OnOk, OnOk-ok, OnOk-err, OnOk-bind,
  OnOk-bind_eq,
}
use xbridge_witness.Value.{Value, str, Fields, get, opt_str}
use xbridge_witness.Common.Asset.{asset_to_cmd_obj}
use xbridge_witness.Common.Path.{path_list_to_cmd_obj}
use xbridge_witness.Common.Bridge.{bridge_to_cmd_obj}
use xbridge_witness.Value.Laws.{field_laws}
use xbridge_witness.Transaction.Types.{
  Header, Payment, Trust, SignerListSet, AccountSet, Offer, XchainCreateBridge, XchainCreateClaimId,
  XchainCommit, XchainAccountCreate, Body, payment, trust, set_regular_key, signer_list_set,
  account_set, offer, ticket, set_hook, xchain_create_bridge, xchain_create_claim_id, xchain_commit,
  xchain_claim, xchain_account_create, Transaction,
}
use xbridge_witness.Transaction.Encode.{
  opt_int, opt_text, fee_to_cmd_obj, header_to_cmd_obj, body_fields, to_cmd_obj, payment_fields,
  trust_fields, signer_list_set_fields, account_set_fields, offer_fields, create_bridge_fields,
  create_claim_id_fields, commit_fields, account_create_fields,
}

-- The keys that every transaction shares.
pub record Shared : Type 0 where
  pub account : Option Value
  pub flags : Option Value
  pub fee : Option Value
  pub sequence : Option Value
  pub account_txn_id : Option Value
  pub last_ledger_sequence : Option Value
  pub src_tag : Option Value
  pub memos : Option Value

abbrev pub shared : Fields → Shared
shared d = record {
  account = get "Account" d;
  flags = get "Flags" d;
  fee = get "Fee" d;
  sequence = get "Sequence" d;
  account_txn_id = get "AccountTxnID" d;
  last_ledger_sequence = get "LastLedgerSequence" d;
  src_tag = get "SourceTag" d;
  memos = get "Memos" d;
}

-- What they hold for a transaction with no flags.
abbrev pub shared_of : Header → Option Value → Shared
shared_of h fee = record {
  account = some (opt_str h.account.account_id);
  flags = none;
  fee = fee;
  sequence = opt_int h.sequence;
  account_txn_id = opt_text h.account_txn_id;
  last_ledger_sequence = opt_int h.last_ledger_sequence;
  src_tag = opt_int h.src_tag;
  memos = h.memos;
}

-- The name of a transaction type on the ledger.
abbrev pub type_name : Body → String
type_name (payment _) = "Payment"
type_name (trust _) = "TrustSet"
type_name (set_regular_key _) = "SetRegularKey"
type_name (signer_list_set _) = "SignerListSet"
type_name (account_set _) = "AccountSet"
type_name (offer _) = "OfferCreate"
type_name (ticket _) = "TicketCreate"
type_name (set_hook _) = "SetHook"
type_name (xchain_create_bridge _) = "XChainCreateBridge"
type_name (xchain_create_claim_id _) = "XChainCreateClaimID"
type_name (xchain_commit _) = "XChainCommit"
type_name (xchain_claim _) = "XChainClaim"
type_name (xchain_account_create _) = "XChainAccountCreateCommit"

-- A header with no flags is sent with all its fields, and one with flags is not sent.
abbrev pub IsSent : Header → Fields → Type 0
IsSent h d =
    (h.flags ≡ none)
    × (fee : Option Value) × (map_option fee_to_cmd_obj h.fee ≡ ok fee)
    × (shared d ≡ shared_of h fee)

header-IsSent : (h : Header) → OnOk (IsSent h) (header_to_cmd_obj h)
unfolding header_to_cmd_obj get
header-IsSent h = elim (Option-cases h.flags) [
  | inl e ↦
      rw e (OnOk-bind_eq _ _ λ fee p. OnOk-ok _ (refl, fee, p, simp (field_laws, or_else-none)))
  | inr (f, e) ↦ rw e (OnOk-err name_error)
]

abbrev Extends : String → Fields → Fields → Type 0
Extends name d d' = (get "TransactionType" d' ≡ some (str name)) × (shared d' ≡ shared d)

payment_Extends : (p : Payment) (d : Fields) → OnOk (Extends "Payment" d) (payment_fields p d)
unfolding payment_fields
payment_Extends p d = OnOk-bind (asset_to_cmd_obj p.amt) _ λ v.
    OnOk-bind (map_option path_list_to_cmd_obj p.paths) _ λ w.
      OnOk-bind (map_option asset_to_cmd_obj p.send_max) _
        λ x. OnOk-ok _ (simp field_laws, simp field_laws)

trust_Extends : (t : Trust) (d : Fields) → OnOk (Extends "TrustSet" d) (trust_fields t d)
unfolding trust_fields
trust_Extends t d =
    OnOk-bind (require attribute_error t.limit_amt) _
      λ l. OnOk-bind (asset_to_cmd_obj l) _ λ v. OnOk-ok _ (simp field_laws, simp field_laws)

signer_list_set_Extends :
    (s : SignerListSet) (d : Fields) → OnOk (Extends "SignerListSet" d) (signer_list_set_fields s d)
unfolding signer_list_set_fields
signer_list_set_Extends s d = OnOk-ok _ (simp field_laws, simp field_laws)

account_set_Extends :
    (a : AccountSet) (d : Fields) → OnOk (Extends "AccountSet" d) (account_set_fields a d)
unfolding account_set_fields
account_set_Extends a d = OnOk-ok _ (simp field_laws, simp field_laws)

offer_Extends : (o : Offer) (d : Fields) → OnOk (Extends "OfferCreate" d) (offer_fields o d)
unfolding offer_fields
offer_Extends o d = OnOk-bind (asset_to_cmd_obj o.taker_pays) _ λ v.
    OnOk-bind (asset_to_cmd_obj o.taker_gets) _ λ w. OnOk-ok _ (simp field_laws, simp field_laws)

create_bridge_Extends :
    (x : XchainCreateBridge) (d : Fields)
    → OnOk (Extends "XChainCreateBridge" d) (create_bridge_fields x d)
unfolding create_bridge_fields
create_bridge_Extends x d = OnOk-bind (bridge_to_cmd_obj x.bridge) _ λ b.
    OnOk-bind (asset_to_cmd_obj x.reward) _ λ r.
      OnOk-bind (map_option asset_to_cmd_obj x.min_account_create) _
        λ m. OnOk-ok _ (simp field_laws, simp field_laws)

create_claim_id_Extends :
    (x : XchainCreateClaimId) (d : Fields)
    → OnOk (Extends "XChainCreateClaimID" d) (create_claim_id_fields x d)
unfolding create_claim_id_fields
create_claim_id_Extends x d =
    OnOk-bind (bridge_to_cmd_obj x.bridge) _
      λ b. OnOk-bind (asset_to_cmd_obj x.reward) _ λ r. OnOk-ok _ (simp field_laws, simp field_laws)

commit_Extends :
    (x : XchainCommit) (d : Fields) → OnOk (Extends "XChainCommit" d) (commit_fields x d)
unfolding commit_fields
commit_Extends x d =
    OnOk-bind (bridge_to_cmd_obj x.bridge) _
      λ b. OnOk-bind (asset_to_cmd_obj x.amount) _ λ r. OnOk-ok _ (simp field_laws, simp field_laws)

account_create_Extends :
    (x : XchainAccountCreate) (d : Fields)
    → OnOk (Extends "XChainAccountCreateCommit" d) (account_create_fields x d)
unfolding account_create_fields
account_create_Extends x d = OnOk-bind (bridge_to_cmd_obj x.bridge) _ λ b.
    OnOk-bind (asset_to_cmd_obj x.amount) _ λ a.
      OnOk-bind (asset_to_cmd_obj x.signature_reward) _
        λ r. OnOk-ok _ (simp field_laws, simp field_laws)

body_Extends : (b : Body) (d : Fields) → OnOk (Extends (type_name b) d) (body_fields b d)
unfolding body_fields
body_Extends (payment p) d = payment_Extends p d
body_Extends (trust t) d = trust_Extends t d
body_Extends (set_regular_key key) d = OnOk-ok _ (simp field_laws, simp field_laws)
body_Extends (signer_list_set s) d = signer_list_set_Extends s d
body_Extends (account_set a) d = account_set_Extends a d
body_Extends (offer o) d = offer_Extends o d
body_Extends (ticket count) d = OnOk-ok _ (simp field_laws, simp field_laws)
body_Extends (set_hook h) d = OnOk-ok _ (simp field_laws, simp field_laws)
body_Extends (xchain_create_bridge x) d = create_bridge_Extends x d
body_Extends (xchain_create_claim_id x) d = create_claim_id_Extends x d
body_Extends (xchain_commit x) d = commit_Extends x d
body_Extends (xchain_claim dst) d = OnOk-err name_error
body_Extends (xchain_account_create x) d = account_create_Extends x d

-- The dictionary that a transaction is sent as names its type, and holds the account, the fee, the
-- sequence and the other shared fields exactly as the transaction has them: a subclass writes over
-- none of them. There is such a dictionary only for a transaction with no flags.
pub to_cmd_obj-IsSent :
    (t : Transaction) (d : Fields)
    → to_cmd_obj t ≡ ok d
    → IsSent t.header d × (get "TransactionType" d ≡ some (str (type_name t.body)))
unfolding to_cmd_obj
to_cmd_obj-IsSent t d e =
    let (b, p, q) = >>=-eq-ok (header_to_cmd_obj t.header) (body_fields t.body) e in
    let (no_flags, fee, r, s) = (header-IsSent t.header).at b p in
    let (u, v) = (body_Extends t.body b).at d q in ((no_flags, fee, r, v ∙ s), u)
