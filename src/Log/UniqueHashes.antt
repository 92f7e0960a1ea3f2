-- ===== src/Log/UniqueHashes.antt =====
-- `has_256bit_hex_field` of bin/python/log_report.py finds each hash once.
use xbridge_witness.Base.{
  ◌≡◌, refl, String, Bool, true, false, ◌||◌, eq_iff, List, [], ◌∷◌, ◌==◌, if◌then◌else◌, OnOk,
  OnOk-ok, OnOk-bind, OnOk-bind_eq, Bool-cases, inl, inr, arith,
}
use xbridge_witness.Value.{Fields}
use xbridge_witness.Log.Hashes.{Upper, is_hash, adjoin_text, scan_text, has_256bit_hex_field}
use xbridge_witness.Log.HashesLaws.{collect, texts_fields, has_256bit_hex_field-collect}

-- `x in l`
abbrev pub mem_text : String → List String → Bool
mem_text k [] = false
mem_text k (h ∷ hs) = h == k || mem_text k hs

abbrev pub Unique : List String → Type 0
Unique [] = Unit {0}
Unique (h ∷ hs) = (mem_text h hs ≡ false) × Unique hs

mem_text-adjoin :
    (k s : String) (l : List String) → mem_text k (adjoin_text s l) ≡ (s == k || mem_text k l)
unfolding adjoin_text
mem_text-adjoin k s [] = refl
mem_text-adjoin k s (t ∷ l) =
    ground (arith, mem_text-adjoin k s l, eq_iff t s, eq_iff s k, eq_iff t k)

Unique-adjoin : (s : String) (l : List String) → Unique l → Unique (adjoin_text s l)
unfolding adjoin_text
Unique-adjoin s [] u = (refl, tt)
Unique-adjoin s (t ∷ l) (n, u) = elim (Bool-cases (t == s)) [
  | inl e ↦ rw e (n, u)
  | inr e ↦
      rw e (ground (arith, mem_text-adjoin t s l, eq_iff t s, eq_iff s t), Unique-adjoin s l u)
]

Unique-if :
    (b : Bool) (s : String) (l : List String) → Unique l → Unique (if b then adjoin_text s l else l)
Unique-if true s l u = Unique-adjoin s l u
Unique-if false s l u = u

Unique-scan_text :
    (other : Upper) (s : String) (found : List String)
    → Unique found
    → OnOk Unique (scan_text other s found)
unfolding scan_text
Unique-scan_text other s found u =
    OnOk-bind (is_hash other s) _
      λ b. OnOk-ok (if b then adjoin_text s found else found) (Unique-if b s found u)

Unique-collect :
    (other : Upper) (ss found : List String) → Unique found → OnOk Unique (collect other ss found)
unfolding collect
Unique-collect other [] found u = OnOk-ok found u
Unique-collect other (s ∷ ss) found u =
    OnOk-bind_eq (scan_text other s found) (collect other ss)
      λ l e. Unique-collect other ss l ((Unique-scan_text other s found u).at l e)

pub Unique-has_256bit_hex_field :
    (other : Upper) (d : Fields) → OnOk Unique (has_256bit_hex_field other d)
Unique-has_256bit_hex_field other d =
    rw (has_256bit_hex_field-collect other d) (Unique-collect other (texts_fields d) [] tt)
