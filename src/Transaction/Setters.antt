-- ===== src/Transaction/Setters.antt =====
-- The methods of bin/python/transaction.py and `Command._set_flag` that change a transaction.
use Prim.Native.Nat.{bit_and, bit_or}
use xbridge_witness.Base.{
  ℕ, ◌-◌, Bool, true, false, not, none, some, Result, ok, err, type_error, ◌>>=◌,
}
use xbridge_witness.Base.Int.{ℤ, pos}
use xbridge_witness.Transaction.Types.{Fee, Header, AccountSet}

-- `Transaction.set_seq_and_fee`
unfoldable pub set_seq_and_fee : ℤ → Fee → Header → Header
set_seq_and_fee seq fee h = record h { sequence = some seq; fee = some fee }

-- `flags |= bit`, and `flags &= ~bit` on a flag word that is not negative
abbrev pub write_bit : ℕ → Bool → ℕ → ℕ
write_bit bit true flags = bit_or flags bit
write_bit bit false flags = flags - bit_and flags bit

-- `Command._set_flag`: on flags that are `None` the operator raises.
unfoldable pub set_flag : ℕ → Bool → Header → Result Header
set_flag bit value h = elim h.flags [
  | none ↦ err type_error
  | some flags ↦ ok (record h { flags = some (write_bit bit value flags) })
]

-- `Payment.set_partial_payment`
unfoldable pub set_partial_payment : Bool → Header → Result Header
unfolding set_flag
set_partial_payment = set_flag 0x0002_0000

-- `Trust.set_auth`
unfoldable pub set_auth : Header → Result Header
unfolding set_flag
set_auth = set_flag 0x0001_0000 true

-- `Trust.set_no_ripple`
unfoldable pub set_no_ripple : Bool → Header → Result Header
unfolding set_flag
set_no_ripple value h = set_flag 0x0002_0000 value h >>= set_flag 0x0004_0000 (not value)

-- `Trust.set_freeze`
unfoldable pub set_freeze : Bool → Header → Result Header
unfolding set_flag
set_freeze value h = set_flag 0x0020_0000 value h >>= set_flag 0x0040_0000 (not value)

-- `Offer.set_passive`
unfoldable pub set_passive : Bool → Header → Result Header
unfolding set_flag
set_passive = set_flag 0x0001_0000

-- `Offer.set_immediate_or_cancel`
unfoldable pub set_immediate_or_cancel : Bool → Header → Result Header
unfolding set_flag
set_immediate_or_cancel = set_flag 0x0002_0000

-- `Offer.set_fill_or_kill`
unfoldable pub set_fill_or_kill : Bool → Header → Result Header
unfolding set_flag
set_fill_or_kill = set_flag 0x0004_0000

-- `Offer.set_sell`
unfoldable pub set_sell : Bool → Header → Result Header
unfolding set_flag
set_sell = set_flag 0x0008_0000

-- The account flags, each with its id.
pub data AccountFlag : Type 0 where
  require_dest require_auth disallow_xrp disable_master account_txn_id no_freeze global_freeze
        default_ripple deposit_auth :
      AccountFlag

abbrev pub flag_id : AccountFlag → ℤ
flag_id require_dest = pos 1
flag_id require_auth = pos 2
flag_id disallow_xrp = pos 3
flag_id disable_master = pos 4
flag_id account_txn_id = pos 5
flag_id no_freeze = pos 6
flag_id global_freeze = pos 7
flag_id default_ripple = pos 8
flag_id deposit_auth = pos 9

-- `AccountSet._set_account_flag`
unfoldable pub set_account_flag : ℤ → Bool → AccountSet → AccountSet
set_account_flag id true a = record a { set_flag = some id }
set_account_flag id false a = record a { clear_flag = some id }

-- `set_require_dest(value)` and its siblings
unfoldable pub set_account : AccountFlag → Bool → AccountSet → AccountSet
unfolding set_account_flag
set_account f = set_account_flag (flag_id f)

-- `AccountSet.set_transfer_rate`
unfoldable pub set_transfer_rate : ℤ → AccountSet → AccountSet
set_transfer_rate value a = record a { transfer_rate = some value }

-- `AccountSet.set_tick_size`
unfoldable pub set_tick_size : ℤ → AccountSet → AccountSet
set_tick_size value a = record a { tick_size = some value }
