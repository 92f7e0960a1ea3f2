-- ===== src/Value/Laws.antt =====
-- How a dictionary answers after writes.
use xbridge_witness.Base.{
  ◌≡◌, refl, String, Option, none, some, ◌==◌, eq_iff, arith, if◌then◌else◌, or_else, true, ok,
}
use xbridge_witness.Value.{
  Value, Fields, end, field, get, put, put_some, is_json_fields, is_json, opt_str, as_opt_str,
}

pub get-put :
    (k j : String) (v : Value) (d : Fields)
    → get j (put k v d) ≡ (if k == j then some v else get j d)
unfolding get put
get-put k j v end = refl
get-put k j v (field i w d) = ground (arith, eq_iff k j, eq_iff i k, eq_iff i j, get-put k j v d)

pub get-put_some :
    (k j : String) (o : Option Value) (d : Fields)
    → get j (put_some k o d) ≡ (if k == j then or_else o (get j d) else get j d)
get-put_some k j none d = ground arith
get-put_some k j (some v) d = get-put k j v d

pub is_json-put :
    (k : String) (v : Value) (d : Fields)
    → is_json v ≡ true
    → is_json_fields d ≡ true
    → is_json_fields (put k v d) ≡ true
unfolding put is_json
is_json-put k v end h i = ground arith
is_json-put k v (field j w d) h i = ground (arith, is_json-put k v d)

pub ruleset field_laws = (get-put, get-put_some)

pub as_opt_str-opt_str : (o : Option String) → as_opt_str (opt_str o) ≡ ok o
as_opt_str-opt_str none = refl
as_opt_str-opt_str (some s) = refl
