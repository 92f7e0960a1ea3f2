-- ===== src/Common/Bridge.antt =====
-- `class Bridge` of bin/python/common.py.
use xbridge_witness.Base.{Option, none, some, Result, ok, err, assertion_error, ◌>>=◌}
use xbridge_witness.Value.{Account, Fields, end, put, opt_str, as_opt_str, item}
use xbridge_witness.Common.Account.{account_of_id}
use xbridge_witness.Common.Issue.{Issue, issue_of_rpc, issue_to_cmd_obj}

pub record Bridge : Type 0 where
  pub locking_chain_door : Account
  pub locking_chain_issue : Issue
  pub issuing_chain_door : Account
  pub issuing_chain_issue : Issue

-- The keyword arguments of `Bridge(...)`.
pub record BridgeArgs : Type 0 where
  pub locking_chain_door : Option Account
  pub locking_chain_issue : Option Issue
  pub issuing_chain_door : Option Account
  pub issuing_chain_issue : Option Issue
  pub from_rpc_result : Option Fields

unfoldable pub bridge_of_rpc : Fields → Result Bridge
bridge_of_rpc d = do
  ld ← item "LockingChainDoor" d
  locking_door ← as_opt_str ld
  li ← item "LockingChainIssue" d
  locking_issue ← issue_of_rpc li
  id ← item "IssuingChainDoor" d
  issuing_door ← as_opt_str id
  ii ← item "IssuingChainIssue" d
  issuing_issue ← issue_of_rpc ii
  ok (record {
    locking_chain_door = account_of_id locking_door;
    locking_chain_issue = locking_issue;
    issuing_chain_door = account_of_id issuing_door;
    issuing_chain_issue = issuing_issue;
  })

-- The four parts, if all are given.
abbrev individual : Option Account → Option Issue → Option Account → Option Issue → Option Bridge
individual (some ld) (some li) (some id) (some ii) = some (record {
  locking_chain_door = ld;
  locking_chain_issue = li;
  issuing_chain_door = id;
  issuing_chain_issue = ii;
})
individual _ _ _ _ = none

-- `assert is_dict != is_individual`, and the two ways to go on.
abbrev choose : Option Fields → Option Bridge → Result Bridge
choose none none = err assertion_error
choose none (some b) = ok b
choose (some d) none = bridge_of_rpc d
choose (some d) (some b) = err assertion_error

-- `Bridge.__init__`
unfoldable pub init_bridge : BridgeArgs → Result Bridge
unfolding bridge_of_rpc
init_bridge a = choose a.from_rpc_result (
    individual a.locking_chain_door a.locking_chain_issue a.issuing_chain_door
      a.issuing_chain_issue)

-- `Bridge.to_cmd_obj`
unfoldable pub bridge_to_cmd_obj : Bridge → Result Fields
bridge_to_cmd_obj b = do
  li ← issue_to_cmd_obj b.locking_chain_issue
  ii ← issue_to_cmd_obj b.issuing_chain_issue
  ok (
      put "IssuingChainIssue" ii (
        put "IssuingChainDoor" (opt_str b.issuing_chain_door.account_id) (
          put "LockingChainIssue" li
            (put "LockingChainDoor" (opt_str b.locking_chain_door.account_id) end))))
