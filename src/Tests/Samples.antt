-- ===== src/Tests/Samples.antt =====
-- Concrete accounts, assets and bridges.
use xbridge_witness.Base.{none, some, false}
use xbridge_witness.Base.Int.{pos}
use xbridge_witness.Value.{int, float, Account, Asset}
use xbridge_witness.Value.Floats.{Floats}
use xbridge_witness.Common.Account.{account_of_id}
use xbridge_witness.Common.Issue.{Issue}
use xbridge_witness.Common.Bridge.{Bridge}

abbrev pub alice : Account
alice = record {
  account_id = some "rAlice";
  nickname = some "alice";
  public_key = none;
  public_key_hex = none;
  secret_key = some "sAlice";
}

abbrev pub bob : Account
bob = account_of_id (some "rBob")

abbrev pub ten_drops : Asset
ten_drops = record { value = some (int (pos 10)); currency = "XRP"; issuer = none }

abbrev pub three_drops : Asset
three_drops = record { value = some (int (pos 3)); currency = "XRP"; issuer = none }

abbrev pub some_usd : Asset
some_usd = record { value = some (float "2.5"); currency = "USD"; issuer = some alice }

-- Floats that are kept as they are written: enough where none is computed with.
abbrev pub written_floats : Floats
written_floats = record {
  of_text = λ s. some s;
  of_int = λ z. none;
  add = λ r s. r;
  sub = λ r s. r;
  mul = λ r s. r;
  eq = λ r s. false;
  eq_int = λ z s. false;
}

abbrev pub xrp_issue : Issue
xrp_issue = record { currency = "XRP"; issuer = none }

abbrev pub usd_issue : Issue
usd_issue = record { currency = "USD"; issuer = some alice }

abbrev pub bridge : Bridge
bridge = record {
  locking_chain_door = alice;
  locking_chain_issue = xrp_issue;
  issuing_chain_door = bob;
  issuing_chain_issue = usd_issue;
}
