-- ===== src/Base/Hex.antt =====
-- `s.encode()` and `binascii.hexlify`, by which an account's id is written into a memo.
use Prim.Native.Nat.{ℕ, ◌+◌, ◌*◌, ◌-◌, ◌/◌, ◌%◌, ◌<◌, zero, suc}
use Prim.Native.Char.{Char, code}
use Prim.Native.String.{String, [], ◌∷◌}
use mathlib.Core.Bool.{Bool, ◌&&◌}
use mathlib.Core.Option.{Option, none, some}
use mathlib.Core.Path.{◌≡◌, refl}
use native.Mathlib.Omega.{arith}
use mathlib.Core.List.{List, ◌++◌}
use xbridge_witness.Base.Tests.{ltb, leb, if◌then◌else◌}

-- The bytes of a character in UTF-8.
abbrev pub encode_char : ℕ → List ℕ
encode_char c =
    if ltb c 128
    then List.◌∷◌ c List.[]
    else if ltb c 2048
    then List.◌∷◌ (192 + c / 64) (List.◌∷◌ (128 + c % 64) List.[])
    else if ltb c 65536
    then List.◌∷◌ (224 + c / 4096) (List.◌∷◌ (128 + c / 64 % 64) (List.◌∷◌ (128 + c % 64) List.[]))
    else List.◌∷◌ (240 + c / 262144) (
        List.◌∷◌ (128 + c / 4096 % 64)
          (List.◌∷◌ (128 + c / 64 % 64) (List.◌∷◌ (128 + c % 64) List.[])))

-- `s.encode()`
unfoldable pub encode : String → List ℕ
encode [] = List.[]
encode (c ∷ s) = encode_char (code c) ++ encode s

-- The digits of `binascii.hexlify`; there are no others.
abbrev pub hex_digit : ℕ → Char
hex_digit zero = "0"
hex_digit (suc zero) = "1"
hex_digit (suc (suc zero)) = "2"
hex_digit (suc (suc (suc zero))) = "3"
hex_digit (suc (suc (suc (suc zero)))) = "4"
hex_digit (suc (suc (suc (suc (suc zero))))) = "5"
hex_digit (suc (suc (suc (suc (suc (suc zero)))))) = "6"
hex_digit (suc (suc (suc (suc (suc (suc (suc zero))))))) = "7"
hex_digit (suc (suc (suc (suc (suc (suc (suc (suc zero)))))))) = "8"
hex_digit (suc (suc (suc (suc (suc (suc (suc (suc (suc zero))))))))) = "9"
hex_digit (suc (suc (suc (suc (suc (suc (suc (suc (suc (suc zero)))))))))) = "a"
hex_digit (suc (suc (suc (suc (suc (suc (suc (suc (suc (suc (suc zero))))))))))) = "b"
hex_digit (suc (suc (suc (suc (suc (suc (suc (suc (suc (suc (suc (suc zero)))))))))))) = "c"
hex_digit (suc (suc (suc (suc (suc (suc (suc (suc (suc (suc (suc (suc (suc zero))))))))))))) = "d"
hex_digit (suc (suc (suc (suc (suc (suc (suc (suc (suc (suc (suc (suc (suc (suc zero)))))))))))))) =
    "e"
hex_digit
      (suc
        (suc (suc (suc (suc (suc (suc (suc (suc (suc (suc (suc (suc (suc (suc zero))))))))))))))) =
    "f"
hex_digit
      (suc (
        suc
          (suc (suc (suc (suc (suc (suc (suc (suc (suc (suc (suc (suc (suc (suc n)))))))))))))))) =
    "0"

-- `binascii.hexlify(bytes)`
unfoldable pub hexlify : List ℕ → String
hexlify List.[] = []
hexlify (List.◌∷◌ b bs) = hex_digit (b / 16) ∷ hex_digit (b % 16) ∷ hexlify bs

abbrev in_range : ℕ → ℕ → ℕ → Bool
in_range lo hi c = leb lo c && leb c hi

-- The value of a hexadecimal digit.
abbrev pub digit_value : ℕ → Option ℕ
digit_value c =
    if in_range 48 57 c then some (c - 48) else if in_range 97 102 c then some (c - 87) else none

abbrev pair_value : Option ℕ → Option ℕ → Option (List ℕ) → Option (List ℕ)
pair_value (some h) (some l) (some bs) = some (List.◌∷◌ (16 * h + l) bs)
pair_value _ _ _ = none

-- `binascii.unhexlify(s)` on lower case, what reads a memo back.
unfoldable pub unhexlify : String → Option (List ℕ)
unhexlify [] = some List.[]
unhexlify (c ∷ []) = none
unhexlify (c ∷ d ∷ s) = pair_value (digit_value (code c)) (digit_value (code d)) (unhexlify s)

abbrev pub Bytes : List ℕ → Type 0
Bytes List.[] = Unit {0}
Bytes (List.◌∷◌ b bs) = (b < 256) × Bytes bs

digit_value-hex_digit : (n : ℕ) → n < 16 → digit_value (code (hex_digit n)) ≡ some n
digit_value-hex_digit zero h = refl
digit_value-hex_digit (suc zero) h = refl
digit_value-hex_digit (suc (suc zero)) h = refl
digit_value-hex_digit (suc (suc (suc zero))) h = refl
digit_value-hex_digit (suc (suc (suc (suc zero)))) h = refl
digit_value-hex_digit (suc (suc (suc (suc (suc zero))))) h = refl
digit_value-hex_digit (suc (suc (suc (suc (suc (suc zero)))))) h = refl
digit_value-hex_digit (suc (suc (suc (suc (suc (suc (suc zero))))))) h = refl
digit_value-hex_digit (suc (suc (suc (suc (suc (suc (suc (suc zero)))))))) h = refl
digit_value-hex_digit (suc (suc (suc (suc (suc (suc (suc (suc (suc zero))))))))) h = refl
digit_value-hex_digit (suc (suc (suc (suc (suc (suc (suc (suc (suc (suc zero)))))))))) h = refl
digit_value-hex_digit (suc (suc (suc (suc (suc (suc (suc (suc (suc (suc (suc zero))))))))))) h =
    refl
digit_value-hex_digit (suc (suc (suc (suc (suc (suc (suc (suc (suc (suc (suc (suc zero))))))))))))
      h =
    refl
digit_value-hex_digit
      (suc (suc (suc (suc (suc (suc (suc (suc (suc (suc (suc (suc (suc zero))))))))))))) h =
    refl
digit_value-hex_digit
      (suc (suc (suc (suc (suc (suc (suc (suc (suc (suc (suc (suc (suc (suc zero)))))))))))))) h =
    refl
digit_value-hex_digit
      (suc (suc (suc (suc (suc (suc (suc (suc (suc (suc (suc (suc (suc (suc (suc zero)))))))))))))))
      h =
    refl
digit_value-hex_digit
      (suc
        (suc (suc (suc (suc (suc (suc (suc (suc (suc (suc (suc (suc (suc (suc (suc n))))))))))))))))
      h =
    ground arith

-- Bytes are read back from their digits.
pub unhexlify-hexlify : (bs : List ℕ) → Bytes bs → unhexlify (hexlify bs) ≡ some bs
unfolding hexlify unhexlify
unhexlify-hexlify List.[] h = refl
unhexlify-hexlify (List.◌∷◌ b bs) (lt, h) =
    let high : digit_value (code (hex_digit (b / 16))) ≡ some (b / 16) =
      digit_value-hex_digit (b / 16) (omega arith) in
    let low : digit_value (code (hex_digit (b % 16))) ≡ some (b % 16) =
      digit_value-hex_digit (b % 16) (omega arith) in
    let whole : 16 * (b / 16) + b % 16 ≡ b = omega arith in
    rw (high, low, unhexlify-hexlify bs h, whole) refl
