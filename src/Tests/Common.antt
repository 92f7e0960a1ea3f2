-- ===== src/Tests/Common.antt =====
-- The theorems on assets, issues and bridges at concrete inputs.
use xbridge_witness.Value.{float}
use xbridge_witness.Base.{◌≡◌, refl, ok, ◌>>=◌, some}
use xbridge_witness.Common.Asset.{asset_to_cmd_obj}
use xbridge_witness.Common.Bridge.{bridge_of_rpc, bridge_to_cmd_obj}
use xbridge_witness.Common.RoundTrip.{
  iou_amount, bare_issuer, asset_of_rpc, asset_of_rpc-asset_to_cmd_obj, bridge_to_cmd_obj_idem,
}
use xbridge_witness.Tests.Samples.{alice, some_usd, written_floats, bridge}

asset_of_rpc-asset_to_cmd_obj_example :
    (asset_to_cmd_obj some_usd >>= asset_of_rpc written_floats)
    ≡ ok (record {
      value = some (float "2.5");
      currency = some_usd.currency;
      issuer = bare_issuer some_usd.issuer;
    })
asset_of_rpc-asset_to_cmd_obj_example =
    asset_of_rpc-asset_to_cmd_obj written_floats (iou_amount "2.5" "USD" alice refl refl)

bridge_to_cmd_obj_idem_example :
    (bridge_to_cmd_obj bridge >>= λ d. bridge_of_rpc d >>= bridge_to_cmd_obj)
    ≡ bridge_to_cmd_obj bridge
bridge_to_cmd_obj_idem_example = bridge_to_cmd_obj_idem bridge
