-- ===== src/Base/Decimal.antt =====
-- Python's `str` of an integer, and `int` of a text, which reads back what `str` prints.
use Prim.Native.Nat.{ℕ, zero, suc, ◌+◌, ◌-◌, ◌*◌, ◌/◌, ◌%◌, ◌<◌}
use Prim.Native.Char.{Char, code}
use Prim.Native.String.{String, [], ◌∷◌}
use mathlib.Core.Path.{◌≡◌, refl, ap, ◌∙◌}
use mathlib.Core.Bool.{Bool, true, false, ◌&&◌}
use mathlib.Core.Option
use mathlib.Core.Option.{Option, none, some}
use mathlib.Core.Logic.{dite}
use mathlib.Core.WellFounded.{Acc}
use native.Mathlib.Decide.{dec_lt}
use native.Mathlib.Omega.{arith}
use xbridge_witness.Base.Tests.{leb, ◌=ℕ◌, if◌then◌else◌}
use xbridge_witness.Base.Int.{ℤ, pos, negsuc}
use xbridge_witness.Base.Text.{is_space, strip, rstrip, truthy}

abbrev pub digit : ℕ → Char
digit zero = "0"
digit (suc zero) = "1"
digit (suc (suc zero)) = "2"
digit (suc (suc (suc zero))) = "3"
digit (suc (suc (suc (suc zero)))) = "4"
digit (suc (suc (suc (suc (suc zero))))) = "5"
digit (suc (suc (suc (suc (suc (suc zero)))))) = "6"
digit (suc (suc (suc (suc (suc (suc (suc zero))))))) = "7"
digit (suc (suc (suc (suc (suc (suc (suc (suc zero)))))))) = "8"
digit _ = "9"

Acc-lt : (k n : ℕ) → n < k → Acc ◌<◌ n
Acc-lt zero n h = elim h [ ]
Acc-lt (suc k) n h = Acc.intro n λ m lt. Acc-lt k m (omega arith)

tenth_lt : (n : ℕ) → ¬ (n < 10) → n / 10 < n
tenth_lt n h = omega arith

emit : (n : ℕ) → Acc ◌<◌ n → String → String
emit n (Acc.intro _ smaller) out =
    dite (dec_lt n 10) (λ _. digit n ∷ out)
      (λ h. emit (n / 10) (smaller (n / 10) (tenth_lt n h)) (digit (n % 10) ∷ out))

below : (n : ℕ) → Acc ◌<◌ n
unfolding Acc-lt
below n = Acc-lt (suc n) n (omega arith)

-- `str(n)`
unfoldable pub show_ℕ : ℕ → String
unfolding emit below dec_lt tenth_lt
show_ℕ n = emit n (below n) []

unfoldable pub show : ℤ → String
unfolding show_ℕ
show (pos n) = show_ℕ n
show (negsuc n) = "-" ∷ show_ℕ (suc n)

abbrev pub is_digit : ℕ → Bool
is_digit c = leb 48 c && leb c 57

-- The digits, with single underscores between them; the flag says whether the last was a digit.
scan : String → ℕ → Bool → Option ℕ
scan [] n true = some n
scan [] n false = none
scan (c ∷ s) n last =
    let next = scan s (n * 10 + (code c - 48)) true in
    let over = scan s n false in
    if is_digit (code c) then next else if code c =ℕ 95 && last then over else none

abbrev negate : ℕ → ℤ
negate zero = pos 0
negate (suc n) = negsuc n

signed : String → Option ℤ
signed [] = none
signed (c ∷ s) =
    if code c =ℕ 45
    then Option.map negate (scan s 0 false)
    else if code c =ℕ 43
    then Option.map pos (scan s 0 false)
    else Option.map pos (scan (c ∷ s) 0 false)

-- `int(s)`; `none` is the ValueError. Digits of other scripts are not read.
unfoldable pub parse : String → Option ℤ
unfolding scan signed strip
parse s = signed (strip s)

show_test : show (pos 1203) ≡ "1203"
unfolding show
show_test = refl

show_neg_test : show (negsuc 41) ≡ "-42"
unfolding show
show_neg_test = refl

parse_test : parse " -1_204 " ≡ some (negsuc 1203)
unfolding parse
parse_test = refl

code-digit : (n : ℕ) → n < 10 → code (digit n) ≡ 48 + n
code-digit zero h = refl
code-digit (suc zero) h = refl
code-digit (suc (suc zero)) h = refl
code-digit (suc (suc (suc zero))) h = refl
code-digit (suc (suc (suc (suc zero)))) h = refl
code-digit (suc (suc (suc (suc (suc zero))))) h = refl
code-digit (suc (suc (suc (suc (suc (suc zero)))))) h = refl
code-digit (suc (suc (suc (suc (suc (suc (suc zero))))))) h = refl
code-digit (suc (suc (suc (suc (suc (suc (suc (suc zero)))))))) h = refl
code-digit (suc (suc (suc (suc (suc (suc (suc (suc (suc n))))))))) h = ground arith

is_digit-eq-true : (c d : ℕ) → d < 10 → c ≡ 48 + d → is_digit c ≡ true
is_digit-eq-true c d h e = ground arith

scan_digit_code :
    (c : Char) (d n : ℕ) (s : String) (last : Bool)
    → d < 10
    → code c ≡ 48 + d
    → scan (c ∷ s) n last ≡ scan s (n * 10 + d) true
unfolding scan
scan_digit_code c d n s last h e =
    rw (is_digit-eq-true (code c) d h e) (ap (λ m. scan s (n * 10 + m) true) (omega arith))

scan-digit :
    (d n : ℕ) (s : String) (last : Bool)
    → d < 10
    → scan (digit d ∷ s) n last ≡ scan s (n * 10 + d) true
scan-digit d n s last h = scan_digit_code (digit d) d n s last h (code-digit d h)

scan-emit : (n : ℕ) (w : Acc ◌<◌ n) (out : String) → scan (emit n w out) 0 false ≡ scan out n true
unfolding emit
scan-emit n (Acc.intro _ smaller) out = grind (
  arith,
  λ (p : ¬ (n < 10)). scan-emit (n / 10) (smaller (n / 10) (tenth_lt n p)) (digit (n % 10) ∷ out),
  scan-digit n 0 out false,
  scan-digit (n % 10) (n / 10) out true,
)

-- No character of the text is a space.
abbrev pub NoSpace : String → Type 0
NoSpace [] = Unit
NoSpace (c ∷ s) = (is_space (code c) ≡ false) × NoSpace s

pub rstrip-NoSpace : (s : String) → NoSpace s → rstrip s ≡ s
unfolding rstrip
rstrip-NoSpace [] h = refl
rstrip-NoSpace (c ∷ []) h = rw h.0
rstrip-NoSpace (c ∷ d ∷ s) h = rw (rstrip-NoSpace (d ∷ s) h.1)

pub strip-NoSpace : (s : String) → NoSpace s → strip s ≡ s
unfolding strip
strip-NoSpace [] h = refl
strip-NoSpace (c ∷ s) h = rw h.0 (rstrip-NoSpace (c ∷ s) h)

is_space-digit : (d : ℕ) → d < 10 → is_space (code (digit d)) ≡ false
is_space-digit d h = rw (code-digit d h) (ground arith)

NoSpace-emit : (n : ℕ) (w : Acc ◌<◌ n) (out : String) → NoSpace out → NoSpace (emit n w out)
unfolding emit
NoSpace-emit n (Acc.intro _ smaller) out h = grind (
  arith,
  λ (p : ¬ (n < 10)).
      NoSpace-emit (n / 10) (smaller (n / 10) (tenth_lt n p)) (digit (n % 10) ∷ out),
  is_space-digit n,
  is_space-digit (n % 10),
)

signed_of_scan : (s : String) (n : ℕ) → scan s 0 false ≡ some n → signed s ≡ some (pos n)
unfolding scan signed
signed_of_scan [] n h = cc
signed_of_scan (c ∷ s) n h = ground arith

scan-show_ℕ : (n : ℕ) → scan (show_ℕ n) 0 false ≡ some n
unfolding show_ℕ
scan-show_ℕ n = scan-emit n (below n) [] ∙ unfold scan in refl

NoSpace-show_ℕ : (n : ℕ) → NoSpace (show_ℕ n)
unfolding show_ℕ
NoSpace-show_ℕ n = NoSpace-emit n (below n) [] tt

signed-show : (z : ℤ) → signed (show z) ≡ some z
unfolding show
signed-show (pos n) = signed_of_scan (show_ℕ n) n (scan-show_ℕ n)
signed-show (negsuc n) = unfold signed in rw (scan-show_ℕ (suc n))

NoSpace-show : (z : ℤ) → NoSpace (show z)
unfolding show
NoSpace-show (pos n) = NoSpace-show_ℕ n
NoSpace-show (negsuc n) = (refl, NoSpace-show_ℕ (suc n))

-- `int(str(z))` is `z`.
pub parse-show : (z : ℤ) → parse (show z) ≡ some z
unfolding parse
parse-show z = rw (strip-NoSpace (show z) (NoSpace-show z)) (signed-show z)

-- All characters of the text are digits.
abbrev pub IsDigits : String → Type 0
IsDigits [] = Unit
IsDigits (c ∷ s) = (is_digit (code c) ≡ true) × IsDigits s

is_digit-digit : (d : ℕ) → d < 10 → is_digit (code (digit d)) ≡ true
is_digit-digit d h = is_digit-eq-true (code (digit d)) d h (code-digit d h)

IsDigits-emit : (n : ℕ) (w : Acc ◌<◌ n) (out : String) → IsDigits out → IsDigits (emit n w out)
unfolding emit
IsDigits-emit n (Acc.intro _ smaller) out h = grind (
  arith,
  λ (p : ¬ (n < 10)).
      IsDigits-emit (n / 10) (smaller (n / 10) (tenth_lt n p)) (digit (n % 10) ∷ out),
  is_digit-digit n,
  is_digit-digit (n % 10),
)

pub IsDigits-show_ℕ : (n : ℕ) → IsDigits (show_ℕ n)
unfolding show_ℕ
IsDigits-show_ℕ n = IsDigits-emit n (below n) [] tt

truthy-emit : (n : ℕ) (w : Acc ◌<◌ n) (out : String) → truthy (emit n w out) ≡ true
unfolding emit
truthy-emit n (Acc.intro _ smaller) out = grind (
  arith,
  λ (p : ¬ (n < 10)). truthy-emit (n / 10) (smaller (n / 10) (tenth_lt n p)) (digit (n % 10) ∷ out),
)

pub truthy-show_ℕ : (n : ℕ) → truthy (show_ℕ n) ≡ true
unfolding show_ℕ
truthy-show_ℕ n = truthy-emit n (below n) []
