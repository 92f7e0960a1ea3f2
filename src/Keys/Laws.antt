-- ===== src/Keys/Laws.antt =====
-- The address book of bin/python/app.py: what is found after accounts were added.
use xbridge_witness.Base.{
  String, ◌≡◌, refl, ap, ◌∙◌, inl, inr, Bool, true, false, Option, none, some, List, [], ◌∷◌, ok,
  if◌then◌else◌, arith, Bool-cases, All, subst, sym,
}
use xbridge_witness.Base.Text.{truthy}
use xbridge_witness.Base.Dict.{Dict, lookup, insert, lookup-insert}
use xbridge_witness.Value.{Account}
use xbridge_witness.Common.Account.{same_text}
use xbridge_witness.Keys.KeyManager.{
  KeyManager, find_account, put_account, add_alias, add, account_from_alias, alias_or_id,
  AccountOrId, nickname_or,
}
use text.Mathlib.Text.{◌==◌}
use text.Mathlib.TextEquality.{eq_iff}

-- A nickname that an alias is made of is a given name.
abbrev pub is_named : String → Option String → Bool
is_named n none = false
is_named n (some m) = if truthy m then m == n else false

lookup-add_alias :
    (n : String) (o : Option String) (a : Account) (d : Dict Account)
    → lookup n (add_alias o a d) ≡ (if is_named n o then some a else lookup n d)
lookup-add_alias n none a d = refl
lookup-add_alias n (some m) a d = ground (arith, lookup-insert m n a d)

-- After an account was added, its nickname, if it has a non-empty one, is an alias of it; every other
-- name stands for what it stood for before, or raises as before.
pub account_from_alias-add :
    (n : String) (a : Account) (k : KeyManager)
    → account_from_alias n (add a k)
      ≡ (if is_named n a.nickname then ok a else account_from_alias n k)
unfolding account_from_alias add
account_from_alias-add n a k = rw (lookup-add_alias n a.nickname a k.aliases) (ground arith)

-- The invariant of the address book: every alias is the nickname, not empty, of its account.
abbrev pub IsAlias : String × Account → Type 0
IsAlias (n, a) = is_named n a.nickname ≡ true

abbrev pub IsConsistent : KeyManager → Type 0
IsConsistent k = All IsAlias k.aliases

IsAlias-insert :
    (n : String) (a : Account) (d : Dict Account)
    → IsAlias (n, a)
    → All IsAlias d
    → All IsAlias (insert n a d)
unfolding insert
IsAlias-insert n a [] p h = (p, tt)
IsAlias-insert n a ((j, b) ∷ d) p h = elim (Bool-cases (j == n)) [
  | inl e ↦ rw e ((subst (λ x. IsAlias (x, a)) (sym ((eq_iff j n).0 e)) p), h.1)
  | inr e ↦ rw e (h.0, IsAlias-insert n a d p h.1)
]

named_of : (m : String) → truthy m ≡ true → is_named m (some m) ≡ true
named_of m h = ground (arith, eq_iff m m)

IsAlias-add_alias :
    (o : Option String) (a : Account) (d : Dict Account)
    → a.nickname ≡ o
    → All IsAlias d
    → All IsAlias (add_alias o a d)
IsAlias-add_alias none a d e h = h
IsAlias-add_alias (some m) a d e h = elim (Bool-cases (truthy m)) [
  | inl t ↦ rw t (IsAlias-insert m a d (subst (λ o. is_named m o ≡ true) (sym e) (named_of m t)) h)
  | inr f ↦ rw f h
]

-- The address book after the calls of `add` on the accounts in turn.
unfoldable pub add_all : List Account → KeyManager → KeyManager
unfolding add
add_all [] k = k
add_all (a ∷ l) k = add_all l (add a k)

-- However many accounts are added to an address book whose aliases are all the non-empty nicknames
-- of their accounts, its aliases still are.
pub IsConsistent-add_all :
    (l : List Account) (k : KeyManager) → IsConsistent k → IsConsistent (add_all l k)
unfolding add_all
IsConsistent-add_all [] k h = h
IsConsistent-add_all (a ∷ l) k h =
    IsConsistent-add_all l (add a k) (IsAlias-add_alias a.nickname a k.aliases refl h)

eq_of_same_text : (p q : Option String) → same_text p q ≡ true → p ≡ q
eq_of_same_text none none h = refl
eq_of_same_text none (some t) h = cc
eq_of_same_text (some s) none h = cc
eq_of_same_text (some s) (some t) h = ap some ((eq_iff s t).0 h)

same_text_refl : (p : Option String) → same_text p p ≡ true
same_text_refl none = refl
same_text_refl (some s) = (eq_iff s s).1 refl

same_text_sym : (q p : Option String) → same_text q p ≡ false → same_text p q ≡ false
same_text_sym none none h = h
same_text_sym none (some t) h = refl
same_text_sym (some s) none h = refl
same_text_sym (some s) (some t) h = ground (arith, eq_iff s t, eq_iff t s)

first_text :
    (i p q : Option String) (x y z : Option Account)
    → same_text q p ≡ true
    → (if same_text p i then x else z)
      ≡ (if same_text p i then x else if same_text q i then y else z)
first_text i p q x y z h = rw (eq_of_same_text q p h) (ground arith)

swap_text :
    (i p q : Option String) (x y z : Option Account)
    → same_text q p ≡ false
    → (if same_text q i then y else if same_text p i then x else z)
      ≡ (if same_text p i then x else if same_text q i then y else z)
swap_text i p q x y z h = elim (Bool-cases (same_text q i)) [
  | inr f ↦ rw f
  | inl t ↦ rw (← (eq_of_same_text q i t), same_text_refl q, same_text_sym q p h)
]

find-put_account :
    (i : Option String) (a : Account) (l : List Account)
    → find_account i (put_account a l)
      ≡ (if same_text a.account_id i then some a else find_account i l)
unfolding find_account put_account
find-put_account i a [] = refl
find-put_account i a (b ∷ l) = elim (Bool-cases (same_text b.account_id a.account_id)) [
  | inl e ↦ rw e (first_text i a.account_id b.account_id (some a) (some b) (find_account i l) e)
  | inr e ↦
      rw (e, find-put_account i a l)
        (swap_text i a.account_id b.account_id (some a) (some b) (find_account i l) e)
]

-- After an account was added, its id gives its nickname, which may be missing; every other id that
-- is looked up gives what it gave before.
pub alias_or_id-add :
    (i : String) (a : Account) (k : KeyManager)
    → alias_or_id (AccountOrId.id i) (add a k)
      ≡ (if same_text a.account_id (some i) then a.nickname else alias_or_id (AccountOrId.id i) k)
unfolding alias_or_id add
alias_or_id-add i a k = ap (nickname_or i) (find-put_account (some i) a k.accounts) ∙ ground arith
