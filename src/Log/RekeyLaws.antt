-- ===== src/Log/RekeyLaws.antt =====
-- What `_rekey_dict_by_txn_date` of bin/python/log_report.py keeps.
use xbridge_witness.Base.{
  ◌≡◌, refl, sym, ◌∙◌, ap, subst, String, Bool, true, false, ◌||◌, Option, none, some, List, [],
  ◌∷◌, ok, Exn, key_error, require, if◌then◌else◌, ◌==◌, Bool-cases, inl, inr, eq_iff, or_else,
  or_else-none, OnOk, OnOk-ok, OnOk-bind_eq,
}
use xbridge_witness.Base.Dict.{Dict, lookup, insert, lookup-insert}
use xbridge_witness.Log.Rekey.{among, known_txns, unknown_part, known_part, rekey_dict_by_txn_date}

require-ok : {A : Type 0} (x : Exn) (o : Option A) {v : A} → require x o ≡ ok v → o ≡ some v
require-ok x none e = cc
require-ok x (some a) e = cc

-- A key of a dictionary comes once.
abbrev pub Distinct : {A : Type 0} → Dict A → Type 0
Distinct [] = Unit {0}
Distinct ((k, v) ∷ d) = (lookup k d ≡ none) × Distinct d

known_step :
    {A : Type 0} (b c : Bool) (x v old now : Option A)
    → now ≡ (if c then x else (if b then v else old))
    → (b ≡ true → v ≡ x)
    → now ≡ (if b || c then x else old)
known_step true true x v old now e h = e
known_step true false x v old now e h = e ∙ h refl
known_step false c x v old now e h = e

-- An entry that is put unless it is known.
lookup-put :
    {A : Type 0} (known : Bool) (j k : String) (v : A) (d : Dict A)
    → lookup k (if known then d else insert j v d)
      ≡ (if known then lookup k d else (if j == k then some v else lookup k d))
lookup-put true j k v d = refl
lookup-put false j k v d = lookup-insert j k v d

true-false : true ≡ false → ⊥
true-false e = cc

-- One entry more: `d` and `old` are looked up in what follows and in what is there before it.
unknown_step :
    {A : Type 0} (known_k known_j same : Bool) (v : A) (d old put all : Option A)
    → all ≡ (if known_k then put else or_else d put)
    → put ≡ (if known_j then old else (if same then some v else old))
    → (same ≡ true → known_j ≡ known_k)
    → (same ≡ true → d ≡ none)
    → all ≡ (if known_k then old else or_else (if same then some v else d) old)
unknown_step true true same v d old put all w p h n = w ∙ p
unknown_step true false true v d old put all w p h n = absurd (true-false (sym (h refl)))
unknown_step true false false v d old put all w p h n = w ∙ p
unknown_step false true true v d old put all w p h n = absurd (true-false (h refl))
unknown_step false false true v d old put all w p h n = w ∙ ap (λ o. or_else o put) (n refl) ∙ p
unknown_step false true false v d old put all w p h n = w ∙ ap (λ o. or_else d o) p
unknown_step false false false v d old put all w p h n = w ∙ ap (λ o. or_else d o) p

-- Known or not, what is found is what the groups have.
both :
    {A : Type 0} (known : Bool) (o p : Option A)
    → p ≡ (if known then none else or_else o none)
    → (if known then or_else o none else p) ≡ o
both true o p e = or_else-none o
both false o p e = e ∙ or_else-none o

module _ {T : Type 0} (before : T → T → Bool) {A : Type 0} where
  lookup-known_part :
      (default : Option A) (grouped : Dict A) (k : String) (hs : List String) (result : Dict A)
      → OnOk
          (λ r.
            lookup k r
            ≡ (if among k hs then or_else (lookup k grouped) default else lookup k result))
          (known_part before default grouped hs result)
  unfolding known_part
  lookup-known_part default grouped k [] result = OnOk-ok result refl
  lookup-known_part default grouped k (h ∷ hs) result =
      OnOk-bind_eq (require key_error (or_else (lookup h grouped) default)) _ λ v e. record {
        at = λ r q.
            known_step (h == k) (among k hs) (or_else (lookup k grouped) default) (some v)
              (lookup k result) (lookup k r)
              (subst
                (λ o. lookup k r ≡ (if among k hs then or_else (lookup k grouped) default else o))
                (lookup-insert h k v result)
                ((lookup-known_part default grouped k hs (insert h v result)).at r q))
              λ same.
                subst (λ i. some v ≡ or_else (lookup i grouped) default) ((eq_iff h k).0 same)
                  (sym (require-ok key_error (or_else (lookup h grouped) default) e));
      }

  lookup-unknown_part :
      (known : List String) (k : String) (d result : Dict A)
      → Distinct d
      → lookup k (unknown_part before known d result)
        ≡ (if among k known then lookup k result else or_else (lookup k d) (lookup k result))
  unfolding unknown_part lookup
  lookup-unknown_part known k [] result u = elim (Bool-cases (among k known)) [
    | inl e ↦ rw e refl
    | inr e ↦ rw e refl
  ]
  lookup-unknown_part known k ((j, v) ∷ d) result (n, u) =
      unknown_step (among k known) (among j known) (j == k) v (lookup k d) (lookup k result) _ _
        (lookup-unknown_part known k d (if among j known then result else insert j v result) u)
        (lookup-put (among j known) j k v result) (λ e. ap (λ i. among i known) ((eq_iff j k).0 e))
        λ e. subst (λ i. lookup i d ≡ none) ((eq_iff j k).0 e) n

-- The result has every transaction of the groups with what was grouped under it, those of known time and
-- the others alike, and nothing else, where the groups are no `defaultdict`.
pub lookup-rekey_dict_by_txn_date :
    {T : Type 0} (before : T → T → Bool) {A : Type 0} (times : Dict T) (grouped r : Dict A)
    (k : String)
    → Distinct grouped
    → rekey_dict_by_txn_date before none times grouped ≡ ok r
    → lookup k r ≡ lookup k grouped
unfolding rekey_dict_by_txn_date
lookup-rekey_dict_by_txn_date before times grouped r k u e =
    (lookup-known_part before none grouped k (known_txns before times)
        (unknown_part before (known_txns before times) grouped [])).at
      r e
    ∙ both (among k (known_txns before times)) _ _
        (lookup-unknown_part before (known_txns before times) k grouped [] u)
