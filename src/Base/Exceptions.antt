-- ===== src/Base/Exceptions.antt =====
-- Python's exceptions, and the results of code that may raise.
use Prim.Native.String.{String}
use mathlib.Core.Path.{◌≡◌, refl, subst}
use mathlib.Core.Logic.{◌⊎◌, inl, inr}
use mathlib.Core.Bool.{Bool, true, false}
use mathlib.Core.Option.{Option, none, some}
use mathlib.Core.List.{List, [], ◌∷◌}

pub data Exn : Type 0 where
  name_error type_error key_error attribute_error assertion_error index_error zero_division_error
        overflow_error :
      Exn
  recursion_error : Exn
  value_error : String → Exn

-- What a call does: it raises, or it returns.
pub data Result {ℓ} (T : Type ℓ) : Type ℓ where
  err : (raised : Exn) → Result T
  ok : (returned : T) → Result T

module _ {ℓ κ} {S : Type ℓ} {T : Type κ} where
  infixl 10 ◌>>=◌
  -- The rest of the code runs on what the call returned.
  abbrev pub ◌>>=◌ : Result S → (S → Result T) → Result T
  err raised >>= rest = err raised
  ok returned >>= rest = rest returned

infixl 10 ◌>>◌
abbrev pub ◌>>◌ {ℓ} : {T : Type ℓ} → Result (Unit {0}) → Result T → Result T
err raised >> rest = err raised
ok _ >> rest = rest

-- `assert b`
abbrev pub assert : Bool → Result (Unit {0})
assert true = ok tt
assert false = err assertion_error

-- A use of `x` that is wrong if it is `None`.
abbrev pub require {ℓ} : {A : Type ℓ} → Exn → Option A → Result A
require e none = err e
require e (some a) = ok a

-- `f(x) if x is not None else None`
abbrev pub map_option {ℓ κ} :
    {A : Type ℓ} {B : Type κ} → (A → Result B) → Option A → Result (Option B)
map_option f none = ok none
map_option f (some a) = f a >>= λ b. ok (some b)

-- `[f(x) for x in xs]`
abbrev pub map_list {ℓ κ} : {A : Type ℓ} {B : Type κ} → (A → Result B) → List A → Result (List B)
map_list f [] = ok []
map_list f (x ∷ xs) = f x >>= λ b. map_list f xs >>= λ bs. ok (b ∷ bs)

pub Result-cases {ℓ} :
    {T : Type ℓ} (call : Result T)
    → ((t : T) × (call ≡ ok t)) ⊎ ((raised : Exn) × (call ≡ err raised))
Result-cases (err raised) = inr (raised, refl)
Result-cases (ok t) = inl (t, refl)

-- Code that returned has returned at its first call.
pub >>=-eq-ok {ℓ κ} :
    {S : Type ℓ} {T : Type κ} (call : Result S) (rest : S → Result T) {t : T}
    → (call >>= rest) ≡ ok t
    → (s : S) × (call ≡ ok s) × (rest s ≡ ok t)
>>=-eq-ok (err raised) rest returns = cc
>>=-eq-ok (ok s) rest returns = (s, refl, returns)

-- A property of the result, if there is one.
pub record OnOk {ℓ κ} {A : Type ℓ} (P : A → Type κ) (r : Result A) : Type (ℓ ⊔ κ) where
  pub at : (a : A) → r ≡ ok a → P a

pub ok-injective {ℓ} : {A : Type ℓ} {a b : A} → ok a ≡ ok b → a ≡ b
ok-injective e = cc

pub OnOk-ok {ℓ κ} : {A : Type ℓ} {P : A → Type κ} (a : A) → P a → OnOk P (ok a)
OnOk-ok {P} a h = record { at = λ b e. subst P (ok-injective e) h }

pub OnOk-err {ℓ κ} : {A : Type ℓ} {P : A → Type κ} (e : Exn) → OnOk P (err e)
OnOk-err e = record { at = λ b q. cc }

pub OnOk-bind {ℓ κ μ} :
    {A : Type ℓ} {B : Type κ} {P : B → Type μ} (m : Result A) (f : A → Result B)
    → ((a : A) → OnOk P (f a))
    → OnOk P (m >>= f)
OnOk-bind m f h = record { at = λ b e. let (a, p, q) = >>=-eq-ok m f e in (h a).at b q }

-- A bind whose rest may use where its value comes from.
pub OnOk-bind_eq {ℓ κ μ} :
    {A : Type ℓ} {B : Type κ} {P : B → Type μ} (m : Result A) (f : A → Result B)
    → ((a : A) → m ≡ ok a → OnOk P (f a))
    → OnOk P (m >>= f)
OnOk-bind_eq m f h = record { at = λ b e. let (a, p, q) = >>=-eq-ok m f e in (h a p).at b q }
