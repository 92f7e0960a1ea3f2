-- ===== src/Value/Truth.antt =====
-- Which Python values count as true, in a condition.
use xbridge_witness.Base.{ℕ, Bool, true, false, not, ◌||◌, ◌==◌}
use xbridge_witness.Base.Int.{ℤ, pos}
use xbridge_witness.Base.Text.{truthy}
use xbridge_witness.Value.{
  int, float, Value, null, bool, num, str, list, dict, account_object, asset_object, method_object,
  nil, cons, end, field,
}

abbrev is_zero : ℤ → Bool
is_zero (pos ℕ.zero) = true
is_zero z = false

-- `bool(v)`
abbrev pub truthy_value : Value → Bool
truthy_value null = false
truthy_value (bool b) = b
truthy_value (num (int z)) = not (is_zero z)
truthy_value (num (float r)) = not (r == "0.0" || r == "-0.0")
truthy_value (str s) = truthy s
truthy_value (list nil) = false
truthy_value (list (cons v vs)) = true
truthy_value (dict end) = false
truthy_value (dict (field k v d)) = true
truthy_value (account_object a) = true
truthy_value (asset_object a) = true
truthy_value (method_object m) = true
