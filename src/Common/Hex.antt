-- ===== src/Common/Hex.antt =====
-- The bytes of an account's id, which `Account.account_id_str_as_hex` of bin/python/common.py writes.
use Prim.Native.Char.{code}
use Prim.Native.String.{String, [], ◌∷◌}
use mathlib.Core.List.{List}
use xbridge_witness.Base.{ℕ, ◌<◌, ◌≡◌, refl, arith}
use xbridge_witness.Base.Hex.{encode, encode_char, Bytes}

-- The characters of a text, by their codes.
abbrev pub codes : String → List ℕ
codes [] = List.[]
codes (c ∷ s) = List.◌∷◌ (code c) (codes s)

abbrev pub IsAscii : String → Type 0
IsAscii [] = Unit {0}
IsAscii (c ∷ s) = (code c < 128) × IsAscii s

encode_char-ascii : (c : ℕ) → c < 128 → encode_char c ≡ List.◌∷◌ c List.[]
encode_char-ascii c h = ground arith

pub encode-IsAscii : (s : String) → IsAscii s → encode s ≡ codes s
unfolding encode
encode-IsAscii [] h = refl
encode-IsAscii (c ∷ s) (lt, h) = rw (encode_char-ascii (code c) lt, encode-IsAscii s h) refl

pub Bytes-codes : (s : String) → IsAscii s → Bytes (codes s)
Bytes-codes [] h = tt
Bytes-codes (c ∷ s) (lt, h) = (omega arith, Bytes-codes s h)
