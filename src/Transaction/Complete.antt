-- ===== src/Transaction/Complete.antt =====
-- Which transactions can be sent at all.
use xbridge_witness.Base.{
  ◌≡◌, refl, Bool, true, false, ◌&&◌, ◌||◌, not, Option, none, some, ◌==◌, Result, ok, err, ◌>>=◌,
  Option-cases, inl, inr, is_some, map_option, arith, ap, ◌∙◌,
}
use xbridge_witness.Value.{Asset, Fields}
use xbridge_witness.Common.Asset.{asset_to_cmd_obj}
use xbridge_witness.Common.Path.{PathList, path_list_to_cmd_obj}
use xbridge_witness.Common.Issue.{Issue, issue_to_cmd_obj}
use xbridge_witness.Common.Bridge.{Bridge, bridge_to_cmd_obj}
use xbridge_witness.Transaction.Types.{
  Fee, drops_fee, asset_fee, Header, Payment, Trust, XchainCreateBridge, XchainAccountCreate, Body,
  payment, trust, set_regular_key, signer_list_set, account_set, offer, ticket, set_hook,
  xchain_create_bridge, xchain_create_claim_id, xchain_commit, xchain_claim, xchain_account_create,
  Transaction,
}
use xbridge_witness.Transaction.Encode.{
  fee_to_cmd_obj, header_to_cmd_obj, body_fields, to_cmd_obj, payment_fields, trust_fields,
  signer_list_set_fields, account_set_fields, offer_fields, create_bridge_fields,
  create_claim_id_fields, commit_fields, account_create_fields,
}

-- Whether the code returned.
abbrev pub is_ok {ℓ} : {A : Type ℓ} → Result A → Bool
is_ok (ok a) = true
is_ok (err e) = false

-- XRP needs no issuer, any other asset needs one.
abbrev pub complete_asset : Asset → Bool
complete_asset a = a.currency == "XRP" || is_some a.issuer

abbrev pub complete_issue : Issue → Bool
complete_issue a = a.currency == "XRP" || is_some a.issuer

abbrev pub complete_bridge : Bridge → Bool
complete_bridge b = complete_issue b.locking_chain_issue && complete_issue b.issuing_chain_issue

abbrev pub complete_opt {ℓ} : {A : Type ℓ} → (A → Bool) → Option A → Bool
complete_opt p none = true
complete_opt p (some a) = p a

abbrev pub complete_fee : Fee → Bool
complete_fee (drops_fee z) = true
complete_fee (asset_fee a) = complete_asset a

abbrev pub complete_header : Header → Bool
complete_header h = not (is_some h.flags) && complete_opt complete_fee h.fee

-- The assets that the dictionary converts are complete, and it is no `XChainClaim`.
abbrev pub complete_body : Body → Bool
complete_body (payment p) =
    complete_asset p.amt
    && (complete_opt (λ (l : PathList). is_some l.paths) p.paths
        && complete_opt complete_asset p.send_max)
complete_body (trust t) = elim t.limit_amt [ none ↦ false | some a ↦ complete_asset a ]
complete_body (offer o) = complete_asset o.taker_pays && complete_asset o.taker_gets
complete_body (xchain_create_bridge x) =
    complete_bridge x.bridge
    && (complete_asset x.reward && complete_opt complete_asset x.min_account_create)
complete_body (xchain_create_claim_id x) = complete_bridge x.bridge && complete_asset x.reward
complete_body (xchain_commit x) = complete_bridge x.bridge && complete_asset x.amount
complete_body (xchain_claim dst) = false
complete_body (xchain_account_create x) =
    complete_bridge x.bridge && (complete_asset x.amount && complete_asset x.signature_reward)
complete_body _ = true

is_ok-bind {ℓ κ} :
    {A : Type ℓ} {B : Type κ} (m : Result A) (f : A → Result B) (b : Bool)
    → ((a : A) → is_ok (f a) ≡ b)
    → is_ok (m >>= f) ≡ (is_ok m && b)
is_ok-bind (ok a) f b h = h a
is_ok-bind (err e) f b h = refl

is_ok-asset : (a : Asset) → is_ok (asset_to_cmd_obj a) ≡ complete_asset a
unfolding asset_to_cmd_obj
is_ok-asset a = ground arith

is_ok-issue : (a : Issue) → is_ok (issue_to_cmd_obj a) ≡ complete_issue a
unfolding issue_to_cmd_obj
is_ok-issue a = ground arith

&&-true : (b : Bool) → (b && true) ≡ b
&&-true true = refl
&&-true false = refl

is_ok-map_option {ℓ κ} :
    {A : Type ℓ} {B : Type κ} (f : A → Result B) (p : A → Bool) (o : Option A)
    → ((a : A) → is_ok (f a) ≡ p a)
    → is_ok (map_option f o) ≡ complete_opt p o
is_ok-map_option f p none h = refl
is_ok-map_option f p (some a) h =
    rw (is_ok-bind (f a) (λ b. ok (some b)) true (λ b. refl), &&-true, h a)

is_ok-bridge : (b : Bridge) → is_ok (bridge_to_cmd_obj b) ≡ complete_bridge b
unfolding bridge_to_cmd_obj
is_ok-bridge b =
    ground (arith, is_ok-issue b.locking_chain_issue, is_ok-issue b.issuing_chain_issue)

is_ok-paths : (l : PathList) → is_ok (path_list_to_cmd_obj l) ≡ is_some l.paths
unfolding path_list_to_cmd_obj
is_ok-paths l = ground arith

is_ok-payment : (p : Payment) (d : Fields) → is_ok (payment_fields p d) ≡ complete_body (payment p)
unfolding payment_fields
is_ok-payment p d = ground (
  arith,
  is_ok-asset p.amt,
  is_ok-map_option asset_to_cmd_obj complete_asset p.send_max is_ok-asset,
  is_ok-map_option path_list_to_cmd_obj (λ (l : PathList). is_some l.paths) p.paths is_ok-paths,
)

is_ok-trust : (t : Trust) (d : Fields) → is_ok (trust_fields t d) ≡ complete_body (trust t)
unfolding trust_fields
is_ok-trust t d = elim (Option-cases t.limit_amt) [
  | inl e ↦ rw e
  | inr (a, e) ↦ rw e (ground (arith, is_ok-asset a))
]

is_ok-create_bridge :
    (x : XchainCreateBridge) (d : Fields)
    → is_ok (create_bridge_fields x d) ≡ complete_body (xchain_create_bridge x)
unfolding create_bridge_fields
is_ok-create_bridge x d = ground (
  arith,
  is_ok-bridge x.bridge,
  is_ok-asset x.reward,
  is_ok-map_option asset_to_cmd_obj complete_asset x.min_account_create is_ok-asset,
)

is_ok-account_create :
    (x : XchainAccountCreate) (d : Fields)
    → is_ok (account_create_fields x d) ≡ complete_body (xchain_account_create x)
unfolding account_create_fields
is_ok-account_create x d =
    ground (arith, is_ok-bridge x.bridge, is_ok-asset x.amount, is_ok-asset x.signature_reward)

is_ok-body : (b : Body) (d : Fields) → is_ok (body_fields b d) ≡ complete_body b
unfolding body_fields
is_ok-body (payment p) d = is_ok-payment p d
is_ok-body (trust t) d = is_ok-trust t d
is_ok-body (set_regular_key key) d = refl
is_ok-body (signer_list_set s) d = unfold signer_list_set_fields in refl
is_ok-body (account_set a) d = unfold account_set_fields in refl
is_ok-body (offer o) d =
    unfold offer_fields in ground (arith, is_ok-asset o.taker_pays, is_ok-asset o.taker_gets)
is_ok-body (ticket count) d = refl
is_ok-body (set_hook h) d = refl
is_ok-body (xchain_create_bridge x) d = is_ok-create_bridge x d
is_ok-body (xchain_create_claim_id x) d =
    unfold create_claim_id_fields in ground (arith, is_ok-bridge x.bridge, is_ok-asset x.reward)
is_ok-body (xchain_commit x) d =
    unfold commit_fields in ground (arith, is_ok-bridge x.bridge, is_ok-asset x.amount)
is_ok-body (xchain_claim dst) d = refl
is_ok-body (xchain_account_create x) d = is_ok-account_create x d

is_ok-fee : (f : Fee) → is_ok (fee_to_cmd_obj f) ≡ complete_fee f
is_ok-fee (drops_fee z) = refl
is_ok-fee (asset_fee a) = is_ok-asset a

is_ok-header : (h : Header) → is_ok (header_to_cmd_obj h) ≡ complete_header h
unfolding header_to_cmd_obj
is_ok-header h = elim (Option-cases h.flags) [
  | inl e ↦ rw e (ground (arith, is_ok-map_option fee_to_cmd_obj complete_fee h.fee is_ok-fee))
  | inr (f, e) ↦ rw e
]

-- `to_cmd_obj` returns exactly where the header and the body are complete: there are no flags; a fee that is
-- an asset, and every asset and issue that the dictionary converts, is XRP or has an issuer; these are the amount
-- and `send_max` of a payment, both sides of an offer, the limit of a trust line, which must be given, and
-- the amounts, rewards and bridges of the bridge's transactions; the path list of a payment, if there is one,
-- has paths; and it is no `XChainClaim`. What a payment has as `deliver_min` does not matter.
pub is_ok-to_cmd_obj :
    (t : Transaction) → is_ok (to_cmd_obj t) ≡ (complete_header t.header && complete_body t.body)
unfolding to_cmd_obj
is_ok-to_cmd_obj t =
    is_ok-bind (header_to_cmd_obj t.header) (body_fields t.body) (complete_body t.body)
      (λ d. is_ok-body t.body d)
    ∙ ap (λ b. b && complete_body t.body) (is_ok-header t.header)
