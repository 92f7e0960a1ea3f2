-- ===== src/Common/AssetLaws.antt =====
-- Arithmetic of assets in bin/python/common.py.
use xbridge_witness.Base.{◌≡◌, true, ◌&&◌, some, ◌==◌, ok, ◌>>=◌, Bool}
use xbridge_witness.Base.Int.{ℤ, ◌+ℤ◌, ◌-ℤ◌, int_laws}
use xbridge_witness.Value.{int, Asset}
use xbridge_witness.Value.Floats.{Floats, add_number, sub_number}
use xbridge_witness.Common.Account.{same_issuer}
use xbridge_witness.Common.Asset.{init_asset, add_asset, sub_asset}

-- The test of the assertion in `__add__` and `__sub__`.
abbrev pub same_kind : Asset → Asset → Bool
same_kind a b = same_issuer a.issuer b.issuer && a.currency == b.currency

+ℤ_cancel : (x y : ℤ) → x +ℤ y -ℤ y ≡ x
+ℤ_cancel x y = omega int_laws

-- What is added can be taken away.
sub_asset-add_asset :
    (F : Floats) (a b : Asset) (x y : ℤ)
    → a.value ≡ some (int x)
    → b.value ≡ some (int y)
    → same_kind a b ≡ true
    → (add_asset F a b >>= λ c. sub_asset F c b) ≡ ok a
unfolding add_asset sub_asset init_asset add_number sub_number
sub_asset-add_asset F a b x y ha hb k = rw (ha, hb, k, k, +ℤ_cancel x y)
