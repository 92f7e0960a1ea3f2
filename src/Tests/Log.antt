-- ===== src/Tests/Log.antt =====
-- The log tools at concrete inputs.
use xbridge_witness.Base.{◌≡◌, refl, String, none, [], ◌∷◌, ok, leb, ℕ, arith}
use xbridge_witness.Base.Dict.{Dict, lookup}
use xbridge_witness.Value.{Fields, end, field, str}
use xbridge_witness.Log.Hashes.{
  Upper, has_256bit_hex_field, scan_fields, scan_text, all_hex, adjoin_text,
}
use xbridge_witness.Log.HashesLaws.{hashes, texts_fields, has_256bit_hex_field-hashes}
use xbridge_witness.Log.Group.{Groups, group_by_txn}
use xbridge_witness.Log.GroupLaws.{items_of, logged, items_of-group_by_txn}
use xbridge_witness.Log.Rekey.{rekey_dict_by_txn_date}
use xbridge_witness.Log.RekeyLaws.{lookup-rekey_dict_by_txn_date}

abbrev no_upper : Upper
no_upper c = none

abbrev hash : String
hash = "0123456789abcdefABCDEF00000000000000000000000000000000000000ffff"

abbrev log_item : Fields
log_item = field "msg" (str "sent") (field "hash" (str hash) end)

has_256bit_hex_field_test : has_256bit_hex_field no_upper log_item ≡ ok (hash ∷ [])
unfolding has_256bit_hex_field scan_fields scan_text all_hex adjoin_text
has_256bit_hex_field_test = refl

abbrev tx_item : Fields
tx_item = field "hash" (str "A1") (field "index" (str hash) end)

has_256bit_hex_field-hashes_example :
    has_256bit_hex_field no_upper tx_item ≡ ok (hashes (texts_fields tx_item) [])
unfolding texts_fields
has_256bit_hex_field-hashes_example =
    has_256bit_hex_field-hashes no_upper tx_item ((omega arith, (omega arith, tt)), tt)

abbrev grouped : Groups
grouped = (hash, ("mainchain_0", log_item ∷ []) ∷ []) ∷ []

items_of-group_by_txn_example :
    items_of hash "mainchain_0" grouped
    ≡ logged no_upper hash "mainchain_0" (("mainchain_0", log_item ∷ []) ∷ [])
unfolding group_by_txn scan_fields scan_text all_hex adjoin_text
items_of-group_by_txn_example =
    items_of-group_by_txn no_upper hash "mainchain_0" (("mainchain_0", log_item ∷ []) ∷ []) grouped
      refl

abbrev times : Dict ℕ
times = ("B", 2) ∷ ("A", 1) ∷ []

abbrev groups : Dict ℕ
groups = ("B", 20) ∷ ("C", 30) ∷ ("A", 10) ∷ []

abbrev by_date : Dict ℕ
by_date = ("C", 30) ∷ ("A", 10) ∷ ("B", 20) ∷ []

lookup-rekey_dict_by_txn_date_example : lookup "A" by_date ≡ lookup "A" groups
unfolding rekey_dict_by_txn_date lookup
lookup-rekey_dict_by_txn_date_example =
    lookup-rekey_dict_by_txn_date leb times groups by_date "A" (refl, (refl, (refl, tt))) refl
