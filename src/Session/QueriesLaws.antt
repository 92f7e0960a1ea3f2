-- ===== src/Session/QueriesLaws.antt =====
-- What the queries on balances of bin/python/app.py return and send.
use xbridge_witness.Command.Types.{Body, account_info, account_lines}
use xbridge_witness.Base.{
  String, Result, ok, err, ◌≡◌, refl, ◌∙◌, Exn, some, ◌>>=◌, ◌==◌, Result-cases, inl, inr,
  if◌then◌else◌, ap, Bool-cases, none, Bool, true, false,
}
use xbridge_witness.Base.Int.{pos}
use xbridge_witness.Value.{Account, Asset, Number, int}
use xbridge_witness.Value.Floats.{Floats}
use xbridge_witness.Common.Asset.{ValueArg, number, text, init_asset, int_of_text, float_of_text}
use xbridge_witness.Session.App.{Server, App, Outcome, follow, call}
use xbridge_witness.Session.Requests
use xbridge_witness.Session.Requests.{Requests, lift}
use xbridge_witness.Session.Queries.{
  valued, or_zero, first_balance, get_balances, get_balance, rescued, query, get_account_info,
  get_trust_lines, rescue, xrp_balances, iou_balances,
}

-- An amount of the same currency and issuer.
pub record IsAmount (asset : Asset) (r : Result Asset) : Type 0 where
  pub amount : Asset
  pub returned : r ≡ ok amount
  pub currency : amount.currency ≡ asset.currency
  pub issuer : amount.issuer ≡ asset.issuer

abbrev with_value : Asset → Number → Asset
with_value asset n = record { value = some n; currency = asset.currency; issuer = asset.issuer }

module _ (F : Floats) (asset : Asset) where
  valued-number : (n : Number) → valued F asset (number n) ≡ ok (with_value asset n)
  unfolding init_asset
  valued-number n = refl

  abbrev read_text : String → Result Number
  read_text s = if asset.currency == "XRP" then int_of_text s else float_of_text F s

  valued-text :
      (s : String) → valued F asset (text s) ≡ (read_text s >>= λ n. ok (with_value asset n))
  unfolding init_asset
  valued-text s = refl

  IsAmount-with_value :
      (r : Result Asset) (n : Number) → r ≡ ok (with_value asset n) → IsAmount asset r
  IsAmount-with_value r n e = record {
    amount = with_value asset n;
    returned = e;
    currency = refl;
    issuer = refl;
  }

  -- Where an error is raised, zero takes its place.
  or_zero-err : (e : Exn) → IsAmount asset (or_zero F asset (err e))
  or_zero-err e = IsAmount-with_value _ (int (pos 0)) (valued-number (int (pos 0)))

  or_zero-valued : (v : ValueArg) → IsAmount asset (or_zero F asset (valued F asset v))
  or_zero-valued (number n) = IsAmount-with_value _ n (ap (or_zero F asset) (valued-number n))
  or_zero-valued (text s) = elim (Result-cases (read_text s)) [
    | inl (n, e) ↦
        IsAmount-with_value _ n
          (ap (or_zero F asset) (valued-text s ∙ ap (λ r. r >>= λ n. ok (with_value asset n)) e))
    | inr (x, e) ↦ IsAmount-with_value _ (int (pos 0)) (
        ap (or_zero F asset) (valued-text s ∙ ap (λ r. r >>= λ n. ok (with_value asset n)) e)
        ∙ valued-number (int (pos 0)))
  ]

  module _ {W : Type 0} where
    or_zero-follow :
        {A : Type 0} (o : Outcome A W) (f : A → Requests W Asset)
        → ((a : A) (app : App) (w : W) → IsAmount asset (or_zero F asset (f a app w).0))
        → IsAmount asset (or_zero F asset (follow o f).0)
    or_zero-follow (ok a, app, w) f h = h a app w
    or_zero-follow (err e, app, w) f h = or_zero-err e

-- The query that the balance of an account takes, for XRP and for another currency.
abbrev pub asked_if : Bool → Account → Body
asked_if true a = account_info (record {
  account = a;
  strict = none;
  ledger_hash = none;
  ledger_index = none;
  queue = none;
  signers_list = none;
})
asked_if false a = account_lines (record {
  account = a;
  peer = none;
  ledger_hash = none;
  ledger_index = none;
  limit = none;
  marker = none;
})

-- What a method leaves, without its result.
abbrev pub left_by : {W A : Type 0} → Outcome A W → App × W
left_by (r, app, w) = (app, w)

-- What a method leaves is what one query leaves.
pub record Asks {W A : Type 0} (server : Server W) (b : Body) (m : Requests W A) : Type 0 where
  pub left : (app : App) (w : W) → left_by (m app w) ≡ left_by (call server b app w)

module _ {W : Type 0} where
  quiet :
      {A B : Type 0} (o : Outcome A W) (f : A → Result B)
      → left_by (follow o (λ a. lift (f a))) ≡ left_by o
  quiet (ok a, app, w) f = refl
  quiet (err e, app, w) f = refl

  quiet-rescued : {A : Type 0} (a : A) (o : Outcome A W) → left_by (rescued a o) ≡ left_by o
  quiet-rescued a (ok b, app, w) = refl
  quiet-rescued a (err e, app, w) = refl

module _ {W : Type 0} (server : Server W) (b : Body) where
  Asks-query : Asks server b (query server b)
  unfolding query
  Asks-query = record { left = λ app w. refl }

  Asks->>= :
      {A B : Type 0} (m : Requests W A) (f : A → Result B)
      → Asks server b m
      → Asks server b (Requests.◌>>=◌ m (λ a. lift (f a)))
  unfolding Requests.◌>>=◌
  Asks->>= m f h = record { left = λ app w. quiet (m app w) f ∙ h.left app w }

  Asks-rescue :
      {A : Type 0} (m : Requests W A) (a : A) → Asks server b m → Asks server b (rescue m a)
  Asks-rescue m a h = record { left = λ app w. quiet-rescued a (m app w) ∙ h.left app w }

module _ {W : Type 0} (server : Server W) (a : Account) where
  pub Asks-get_account_info : Asks server (asked_if true a) (get_account_info server a)
  unfolding get_account_info
  Asks-get_account_info =
      Asks->>= server _ _ _
        (Asks-rescue server _ _ _ (Asks->>= server _ _ _ (Asks-query server (asked_if true a))))

  pub Asks-get_trust_lines : Asks server (asked_if false a) (get_trust_lines server a)
  unfolding get_trust_lines
  Asks-get_trust_lines = Asks->>= server _ _ _ (Asks-query server (asked_if false a))

module _ {W : Type 0} (server : Server W) (a : Account) (asset : Asset) where
  Asks-xrp : Asks server (asked_if true a) (xrp_balances server a)
  Asks-xrp = Asks->>= server _ _ _ (Asks-rescue server _ _ _ (Asks-get_account_info server a))

  Asks-iou : Asks server (asked_if false a) (iou_balances server a asset)
  Asks-iou =
      Asks->>= server _ _ _
        (Asks-rescue server _ _ _ (Asks->>= server _ _ _ (Asks-get_trust_lines server a)))

  pub Asks-get_balances :
      Asks server (asked_if (asset.currency == "XRP") a) (get_balances server a asset)
  unfolding get_balances
  Asks-get_balances = elim (Bool-cases (asset.currency == "XRP")) [
    | inl e ↦ rw e Asks-xrp
    | inr e ↦ rw e Asks-iou
  ]

quiet-twice :
    {W A B C : Type 0} (o : Outcome A W) (f : A → Result B) (g : B → Result C)
    → left_by (follow o (λ a app w. follow (f a, app, w) (λ b. lift (g b)))) ≡ left_by o
quiet-twice (err e, app, w) f g = refl
quiet-twice (ok a, app, w) f g = quiet (f a, app, w) g

pub Asks-get_balance :
    {W : Type 0} (server : Server W) (F : Floats) (a : Account) (asset : Asset)
    → Asks server (asked_if (asset.currency == "XRP") a) (get_balance server F a asset)
unfolding get_balance Requests.◌>>=◌
Asks-get_balance server F a asset = record {
  left = λ app w.
      quiet-twice (get_balances server a asset app w) first_balance (valued F asset)
      ∙ (Asks-get_balances server a asset).left app w;
}

-- get_balance always returns an amount of the currency and the issuer of the asset that it is asked for,
-- whatever the server answers and also where the connection raises; it sends one query, that on the account
-- for XRP and that on its trust lines for another currency, and leaves the app and the world as that query does.
pub get_balance-IsAmount :
    {W : Type 0} (server : Server W) (F : Floats) (a : Account) (asset : Asset) (app : App) (w : W)
    → IsAmount asset (get_balance server F a asset app w).0
      × (left_by (get_balance server F a asset app w)
          ≡ left_by (call server (asked_if (asset.currency == "XRP") a) app w))
unfolding get_balance Requests.◌>>=◌
get_balance-IsAmount server F a asset app w = (
  or_zero-follow F asset (get_balances server a asset app w) _ λ rows app w.
      or_zero-follow F asset (first_balance rows, app, w) _ λ v app w. or_zero-valued F asset v,
  (Asks-get_balance server F a asset).left app w,
)
