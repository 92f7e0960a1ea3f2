-- ===== src/Transaction/Types.antt =====
-- The classes of bin/python/transaction.py with their constructors.
use xbridge_witness.Base.{
  ℕ, String, Option, none, some, List, [], ◌∷◌, ◌=ℕ◌, Result, ok, err, Exn, value_error, length,
  replicate, if◌then◌else◌, Bool, true, ◌==◌, ◌||◌, ◌&&◌, type_error,
}
use xbridge_witness.Base.Int.{ℤ, pos}
use xbridge_witness.Value.{Account, Asset, Value}
use xbridge_witness.Common.Path.{PaymentPath, PathList}
use xbridge_witness.Common.Bridge.{Bridge}

-- A fee is an asset or a number of drops.
pub data Fee : Type 0 where
  drops_fee : ℤ → Fee
  asset_fee : Asset → Fee

-- The fields of `class Transaction`. Flags are not negative.
pub record Header : Type 0 where
  pub account : Account
  pub flags : Option ℕ
  pub fee : Option Fee
  pub sequence : Option ℤ
  pub account_txn_id : Option String
  pub last_ledger_sequence : Option ℤ
  pub src_tag : Option ℤ
  pub memos : Option Value

pub record Payment : Type 0 where
  pub dst : Account
  pub amt : Asset
  pub send_max : Option Asset
  pub paths : Option PathList
  pub dst_tag : Option ℤ
  pub deliver_min : Option Asset

-- `paths` may be one path.
pub data PathsArg : Type 0 where
  one_path : PaymentPath → PathsArg
  path_list : PathList → PathsArg

abbrev paths_of : Option PathsArg → Option PathList
paths_of none = none
paths_of (some (one_path p)) = some (record { paths = some (p ∷ []) })
paths_of (some (path_list l)) = some l

-- `Payment.__init__`
unfoldable pub init_payment :
    Account → Asset → Option Asset → Option PathsArg → Option ℤ → Option Asset → Payment
init_payment dst amt send_max paths dst_tag deliver_min = record {
  dst = dst;
  amt = amt;
  send_max = send_max;
  paths = paths_of paths;
  dst_tag = dst_tag;
  deliver_min = deliver_min;
}

pub record Trust : Type 0 where
  pub limit_amt : Option Asset
  pub qin : Option ℤ
  pub qout : Option ℤ

pub record SignerListSet : Type 0 where
  pub keys : List String
  pub weights : List ℤ
  pub quorum : ℤ

abbrev given_weights : Option (List ℤ) → List ℤ
given_weights none = []
given_weights (some ws) = ws

-- The message, without the weights and the keys that it goes on to show.
abbrev pub weights_error : Exn
weights_error =
    value_error "SignerSetList number of weights must equal number of keys (or be empty)."

abbrev choose_weights : List String → ℤ → List ℤ → Result SignerListSet
choose_weights keys quorum [] =
    ok (record { keys = keys; weights = replicate (length keys) (pos 1); quorum = quorum })
choose_weights keys quorum (w ∷ ws) =
    if length (w ∷ ws) =ℕ length keys
    then ok (record { keys = keys; weights = w ∷ ws; quorum = quorum })
    else err weights_error

-- `SignerListSet.__init__`
unfoldable pub init_signer_list_set : List String → Option (List ℤ) → ℤ → Result SignerListSet
init_signer_list_set keys weights quorum = choose_weights keys quorum (given_weights weights)

pub record AccountSet : Type 0 where
  pub clear_flag : Option ℤ
  pub set_flag : Option ℤ
  pub transfer_rate : Option ℤ
  pub tick_size : Option ℤ

-- `AccountSet.__init__`
abbrev pub init_account_set : AccountSet
init_account_set = record {
  clear_flag = none;
  set_flag = none;
  transfer_rate = none;
  tick_size = none;
}

pub record Offer : Type 0 where
  pub taker_pays : Asset
  pub taker_gets : Asset
  pub expiration : Option ℤ
  pub offer_sequence : Option ℤ

pub record SetHook : Type 0 where
  pub create_code : String
  pub hook_on : String

pub record XchainCreateBridge : Type 0 where
  pub bridge : Bridge
  pub reward : Asset
  pub min_account_create : Option Asset

pub record XchainCreateClaimId : Type 0 where
  pub bridge : Bridge
  pub reward : Asset
  pub other_chain_account : Account

pub record XchainCommit : Type 0 where
  pub bridge : Bridge
  pub claim_id : ℤ
  pub amount : Asset
  pub other_chain_destination : Option Account

pub record XchainAccountCreate : Type 0 where
  pub bridge : Bridge
  pub amount : Asset
  pub signature_reward : Asset
  pub dst : Account

-- The subclasses of `Transaction`, by what each adds.
pub data Body : Type 0 where
  payment : Payment → Body
  trust : Trust → Body
  set_regular_key : String → Body
  signer_list_set : SignerListSet → Body
  account_set : AccountSet → Body
  offer : Offer → Body
  ticket : ℤ → Body
  set_hook : SetHook → Body
  xchain_create_bridge : XchainCreateBridge → Body
  xchain_create_claim_id : XchainCreateClaimId → Body
  xchain_commit : XchainCommit → Body
  -- its constructor drops `dst_tag`
  xchain_claim : Account → Body
  xchain_account_create : XchainAccountCreate → Body

pub record Transaction : Type 0 where
  pub header : Header
  pub body : Body

-- The keyword arguments that `Transaction.__init__` takes.
abbrev is_keyword : String → Bool
is_keyword k =
    k == "account"
    || k == "flags"
    || k == "fee"
    || k == "sequence"
    || k == "account_txn_id"
    || k == "last_ledger_sequence"
    || k == "src_tag"
    || k == "memos"

abbrev all_keywords : List String → Bool
all_keywords [] = true
all_keywords (k ∷ ks) = is_keyword k && all_keywords ks

-- `XChainClaim.__init__`, with the names of the arguments that it hands on to `Transaction.__init__`,
-- which refuses others than its own, and the header that they make.
unfoldable pub init_xchain_claim : Account → List String → Header → Result Transaction
init_xchain_claim dst rest header =
    if all_keywords rest
    then ok (record { header = header; body = xchain_claim dst })
    else err type_error
