-- ===== src/Log/HashesLaws.antt =====
-- What `has_256bit_hex_field` of bin/python/log_report.py finds.
use Prim.Native.Char.{code}
use xbridge_witness.Common.Hex.{IsAscii}
use xbridge_witness.Base.{
  ◌≡◌, refl, sym, ◌∙◌, ap, String, List, [], ◌∷◌, ◌++◌, Result, ok, err, ◌>>=◌, if◌then◌else◌,
  Bool-cases, inl, inr, Bool, true, false, ◌==◌, ◌||◌, ◌&&◌, ◌=ℕ◌, leb, ℕ, arith, eq_iff, All,
}
use xbridge_witness.Value.{
  Value, Items, Fields, null, bool, num, str, list, dict, account_object, asset_object,
  method_object, nil, cons, end, field,
}
use xbridge_witness.Log.Hashes.{
  Upper, is_ignored, scan_text, scan_value, scan_items, scan_fields, has_256bit_hex_field, size,
  all_hex, adjoin_text,
}

-- The keys under which nothing is searched.
abbrev passed_over : List String
passed_over =
    "meta" ∷ "index" ∷ "LedgerIndex" ∷ "ledger_index" ∷ "ledger_hash" ∷ "SigningPubKey"
    ∷ "suppression" ∷ []

abbrev is_among : String → List String → Bool
is_among k [] = false
is_among k (j ∷ js) = k == j || is_among k js

is_ignored_lem : (k : String) → is_ignored k ≡ is_among k passed_over
is_ignored_lem k = ground arith

-- A digit, or a letter from A to F of either case.
abbrev pub is_hex_digit : ℕ → Bool
is_hex_digit c = leb 48 c && leb c 57 || leb 65 c && leb c 70 || leb 97 c && leb c 102

abbrev pub all_digits : String → Bool
all_digits String.[] = true
all_digits (String.◌∷◌ c s) = is_hex_digit (code c) && all_digits s

-- A text of 64 hexadecimal digits.
abbrev pub is_hash64 : String → Bool
is_hash64 s = size s =ℕ 64 && all_digits s

-- The texts that stand anywhere in a value, in their order, but those under a key that is passed over.
unfoldable mutual
  pub texts : Value → List String
  texts null = []
  texts (bool b) = []
  texts (num n) = []
  texts (str s) = s ∷ []
  texts (list vs) = texts_items vs
  texts (dict d) = texts_fields d
  texts (account_object a) = []
  texts (asset_object a) = []
  texts (method_object m) = []

  pub texts_items : Items → List String
  texts_items nil = []
  texts_items (cons v vs) = texts v ++ texts_items vs

  pub texts_fields : Fields → List String
  texts_fields end = []
  texts_fields (field k v d) =
      let rest = texts_fields d in (if is_among k passed_over then [] else texts v) ++ rest

-- The hashes among texts, one after another into a set.
unfoldable pub collect : Upper → List String → List String → Result (List String)
collect other [] found = ok found
collect other (s ∷ ss) found = scan_text other s found >>= λ found. collect other ss found

>>=_assoc :
    {A B C : Type 0} (m : Result A) (f : A → Result B) (g : B → Result C)
    → (m >>= f >>= g) ≡ (m >>= λ a. f a >>= g)
>>=_assoc (ok a) f g = refl
>>=_assoc (err e) f g = refl

>>=_ext :
    {A B : Type 0} (m : Result A) {f g : A → Result B}
    → ((a : A) → f a ≡ g a)
    → (m >>= f) ≡ (m >>= g)
>>=_ext (ok a) h = h a
>>=_ext (err e) h = refl

>>=_ok : {A : Type 0} (m : Result A) → (m >>= λ a. ok a) ≡ m
>>=_ok (ok a) = refl
>>=_ok (err e) = refl

module _ (other : Upper) where
  collect-append :
      (ss ts : List String) (found : List String)
      → collect other (ss ++ ts) found ≡ (collect other ss found >>= collect other ts)
  unfolding collect
  collect-append [] ts found = refl
  collect-append (s ∷ ss) ts found =
      >>=_ext (scan_text other s found) (λ found. collect-append ss ts found)
      ∙ sym (>>=_assoc (scan_text other s found) (collect other ss) (collect other ts))

  -- One part after another: what each scans is what it collects.
  join-collect :
      (m : Result (List String)) (ss ts : List String) (found : List String)
      (rest : List String → Result (List String))
      → m ≡ collect other ss found
      → ((found : List String) → rest found ≡ collect other ts found)
      → (m >>= rest) ≡ collect other (ss ++ ts) found
  join-collect m ss ts found rest e h =
      ap (λ m. m >>= rest) e ∙ >>=_ext (collect other ss found) h ∙ sym (collect-append ss ts found)

  mutual
    unfolding scan_value texts collect

    scan_value-collect :
        (v : Value) (found : List String) → scan_value other v found ≡ collect other (texts v) found
    scan_value-collect null found = refl
    scan_value-collect (bool b) found = refl
    scan_value-collect (num n) found = refl
    scan_value-collect (str s) found = sym (>>=_ok (scan_text other s found))
    scan_value-collect (list vs) found = scan_items-collect vs found
    scan_value-collect (dict d) found = scan_fields-collect d found
    scan_value-collect (account_object a) found = refl
    scan_value-collect (asset_object a) found = refl
    scan_value-collect (method_object m) found = refl

    scan_items-collect :
        (vs : Items) (found : List String)
        → scan_items other vs found ≡ collect other (texts_items vs) found
    scan_items-collect nil found = refl
    scan_items-collect (cons v vs) found =
        join-collect (scan_value other v found) (texts v) (texts_items vs) found
          (scan_items other vs) (scan_value-collect v found) (scan_items-collect vs)

    scan_fields-collect :
        (d : Fields) (found : List String)
        → scan_fields other d found ≡ collect other (texts_fields d) found
    scan_fields-collect end found = refl
    scan_fields-collect (field k v d) found = elim (Bool-cases (is_among k passed_over)) [
      | inl e ↦ rw (is_ignored_lem k, e) (scan_fields-collect d found)
      | inr e ↦
          rw (is_ignored_lem k, e)
            (join-collect (scan_value other v found) (texts v) (texts_fields d) found
              (scan_fields other d) (scan_value-collect v found) (scan_fields-collect d))
    ]

pub has_256bit_hex_field-collect :
    (other : Upper) (d : Fields) → has_256bit_hex_field other d ≡ collect other (texts_fields d) []
unfolding has_256bit_hex_field
has_256bit_hex_field-collect other d = scan_fields-collect other d []

-- The 64-digit texts among texts, each once, in the order in which they come first.
abbrev add_new : String → List String → List String
add_new s found = if is_among s found then found else found ++ s ∷ []

unfoldable pub hashes : List String → List String → List String
hashes [] found = found
hashes (s ∷ ss) found = hashes ss (if is_hash64 s then add_new s found else found)

adjoin-add_new : (s : String) (found : List String) → adjoin_text s found ≡ add_new s found
unfolding adjoin_text
adjoin-add_new s [] = refl
adjoin-add_new s (t ∷ ts) = ground (arith, adjoin-add_new s ts, eq_iff t s, eq_iff s t)

module _ (other : Upper) where
  all_hex-ascii : (s : String) → IsAscii s → all_hex other s ≡ ok (all_digits s)
  unfolding all_hex
  all_hex-ascii String.[] h = refl
  all_hex-ascii (String.◌∷◌ c s) h = ground (arith, all_hex-ascii s h.1, h.0)

  scan_text-ascii :
      (s : String) (found : List String)
      → IsAscii s
      → scan_text other s found ≡ ok (if is_hash64 s then add_new s found else found)
  unfolding scan_text
  scan_text-ascii s found h = ground (arith, all_hex-ascii s h, adjoin-add_new s found)

  collect-hashes :
      (ss : List String) (found : List String)
      → All IsAscii ss
      → collect other ss found ≡ ok (hashes ss found)
  unfolding collect hashes
  collect-hashes [] found h = refl
  collect-hashes (s ∷ ss) found h = rw (scan_text-ascii s found h.0) (collect-hashes ss _ h.1)

-- The search of a log item whose texts, but those under the keys that are passed over, are ASCII returns those
-- of these texts that are 64 hexadecimal digits, of either case, at whatever depth they stand, each
-- once and in the order in which they come first.
pub has_256bit_hex_field-hashes :
    (other : Upper) (d : Fields)
    → All IsAscii (texts_fields d)
    → has_256bit_hex_field other d ≡ ok (hashes (texts_fields d) [])
has_256bit_hex_field-hashes other d h =
    has_256bit_hex_field-collect other d ∙ collect-hashes other (texts_fields d) [] h
