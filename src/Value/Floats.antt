-- ===== src/Value/Floats.antt =====
-- Python's floats are not modelled: what the program does with them is a parameter.
use xbridge_witness.Base.{String, Bool, Option, Result, ok, overflow_error, require, ◌>>=◌}
use xbridge_witness.Base.Int.{ℤ, ◌+ℤ◌, ◌-ℤ◌, ◌*ℤ◌, ◌=ℤ◌}
use xbridge_witness.Base.Decimal.{show}
use xbridge_witness.Value.{Number, int, float}

-- Floats by their `repr`: `float(s)`, conversion of an int, arithmetic, and comparison.
pub record Floats : Type 0 where
  pub of_text : String → Option String
  pub of_int : ℤ → Option String
  pub add : String → String → String
  pub sub : String → String → String
  pub mul : String → String → String
  pub eq : String → String → Bool
  pub eq_int : ℤ → String → Bool

-- `f"{n}"`
abbrev pub show_number : Number → String
show_number (int z) = show z
show_number (float r) = r

module _ (F : Floats) where
  -- Arithmetic: an int meets a float as a float.
  abbrev mixed : (ℤ → ℤ → ℤ) → (String → String → String) → Number → Number → Result Number
  mixed f g (int a) (int b) = ok (int (f a b))
  mixed f g (int a) (float s) = require overflow_error (F.of_int a) >>= λ r. ok (float (g r s))
  mixed f g (float r) (int b) = require overflow_error (F.of_int b) >>= λ s. ok (float (g r s))
  mixed f g (float r) (float s) = ok (float (g r s))

  unfoldable pub add_number : Number → Number → Result Number
  add_number = mixed ◌+ℤ◌ F.add

  unfoldable pub sub_number : Number → Number → Result Number
  sub_number = mixed ◌-ℤ◌ F.sub

  unfoldable pub mul_number : Number → Number → Result Number
  mul_number = mixed ◌*ℤ◌ F.mul

  unfoldable pub eq_number : Number → Number → Bool
  eq_number (int a) (int b) = a =ℤ b
  eq_number (int a) (float s) = F.eq_int a s
  eq_number (float r) (int b) = F.eq_int b r
  eq_number (float r) (float s) = F.eq r s
