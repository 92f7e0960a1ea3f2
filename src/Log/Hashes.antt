-- ===== src/Log/Hashes.antt =====
-- `has_256bit_hex_field` of bin/python/log_report.py.
use Prim.Native.Char.{code}
use Prim.Native.String.{String, [], ◌∷◌}
use mathlib.Core.List.{List}
use xbridge_witness.Base.{
  ℕ, suc, ◌-◌, Bool, true, false, ◌&&◌, ◌||◌, Option, some, ◌==◌, ◌=ℕ◌, leb, if◌then◌else◌, Result,
  ok, type_error, require, ◌>>=◌,
}
use xbridge_witness.Value.{
  Value, Items, Fields, null, bool, num, str, list, dict, account_object, asset_object,
  method_object, nil, cons, end, field,
}

-- `ord(c.upper())` for the other characters than ASCII: none where several characters come out, for
-- which `ord` raises.
abbrev pub Upper : Type 0
Upper = ℕ → Option ℕ

abbrev upper : Upper → ℕ → Option ℕ
upper other c = if leb c 127 then some (if leb 97 c && leb c 122 then c - 32 else c) else other c

abbrev is_hex : ℕ → Bool
is_hex o = leb 65 o && leb o 70 || leb 48 o && leb o 57

abbrev pub size : String → ℕ
size [] = 0
size (c ∷ s) = suc (size s)

abbrev unless_hex : Bool → Result Bool → Result Bool
unless_hex true rest = rest
unless_hex false rest = ok false

-- The loop over the characters: whether it reaches its end.
unfoldable pub all_hex : Upper → String → Result Bool
all_hex other [] = ok true
all_hex other (c ∷ s) =
    let rest = all_hex other s in
    require type_error (upper other (code c)) >>= λ o. unless_hex (is_hex o) rest

-- Whether a text is 64 hexadecimal digits.
abbrev pub is_hash : Upper → String → Result Bool
is_hash other s = if size s =ℕ 64 then all_hex other s else ok false

-- `result.add(s)` on a set, in the order of insertion
unfoldable pub adjoin_text : String → List String → List String
adjoin_text s List.[] = List.◌∷◌ s List.[]
adjoin_text s (List.◌∷◌ t ts) =
    let rest = adjoin_text s ts in if t == s then List.◌∷◌ t ts else List.◌∷◌ t rest

-- `_has_256bit_hex_field_str`
unfoldable pub scan_text : Upper → String → List String → Result (List String)
scan_text other s found = is_hash other s >>= λ b. ok (if b then adjoin_text s found else found)

-- The keys that `_has_256bit_hex_field_dict` passes over.
abbrev pub is_ignored : String → Bool
is_ignored k =
    k == "meta"
    || k == "index"
    || k == "LedgerIndex"
    || k == "ledger_index"
    || k == "ledger_hash"
    || k == "SigningPubKey"
    || k == "suppression"

-- `_has_256bit_hex_field_overloads[type(v)](v, result)` with the overloads for dictionaries and lists
unfoldable mutual
  pub scan_value : Upper → Value → List String → Result (List String)
  scan_value other null found = ok found
  scan_value other (bool b) found = ok found
  scan_value other (num n) found = ok found
  scan_value other (str s) found = scan_text other s found
  scan_value other (list vs) found = scan_items other vs found
  scan_value other (dict d) found = scan_fields other d found
  scan_value other (account_object a) found = ok found
  scan_value other (asset_object a) found = ok found
  scan_value other (method_object m) found = ok found

  pub scan_items : Upper → Items → List String → Result (List String)
  scan_items other nil found = ok found
  scan_items other (cons v vs) found =
      scan_value other v found >>= λ found. scan_items other vs found

  pub scan_fields : Upper → Fields → List String → Result (List String)
  scan_fields other end found = ok found
  scan_fields other (field k v d) found =
      (if is_ignored k then ok found else scan_value other v found) >>= λ found.
      scan_fields other d found

-- `has_256bit_hex_field`
unfoldable pub has_256bit_hex_field : Upper → Fields → Result (List String)
has_256bit_hex_field other d = scan_fields other d List.[]
