-- ===== src/Session/Accounts.antt =====
-- `App.create_account` of bin/python/app.py: the account that it makes known.
use xbridge_witness.Base.{
  ◌≡◌, refl, String, Option, none, some, ◌==◌, Result, ok, err, Bool-cases, inl, inr, if◌then◌else◌,
  OnOk, OnOk-ok, OnOk-err, OnOk-bind, ◌>>=◌,
}
use xbridge_witness.Value.{Account, Value, Fields, item, as_opt_str, is_json_fields}
use xbridge_witness.Common.Account.{init_account}
use xbridge_witness.Command.Types.{Body, WalletPropose, init_command, wallet_propose}
use xbridge_witness.Command.Websocket.{get_websocket_dict}
use xbridge_witness.Keys.KeyManager.{KeyManager, is_alias, account_from_alias}
use xbridge_witness.Keys.Laws.{is_named, account_from_alias-add}
use xbridge_witness.Session.App.{
  Server, App, Outcome, follow, answer, transmit, send_websock_command, call, add_known, named,
  propose_account, create, create_account, no_wallet_args, fields_of,
}

-- The account that a constructor makes from an answer has the nickname that it was given.
nickname-init_account :
    (name : String) (d : Fields)
    → OnOk (λ (a : Account). a.nickname ≡ some name) (init_account (named name d))
unfolding init_account
nickname-init_account name d = OnOk-bind (item "account_id" d) _ λ i.
    OnOk-bind (as_opt_str i) _ λ account_id. OnOk-bind (item "public_key" d) _ λ p.
      OnOk-bind (as_opt_str p) _ λ public_key. OnOk-bind (item "public_key_hex" d) _ λ h.
        OnOk-bind (as_opt_str h) _ λ public_key_hex.
          OnOk-bind (item "master_seed" d) _
            λ s. OnOk-bind (as_opt_str s) _ λ secret_key. OnOk-ok _ refl

pub nickname-fields :
    (name : String) (r : Value)
    → OnOk
        (λ (a : Account). a.nickname ≡ some name)
        (fields_of r >>= λ d. init_account (named name d))
nickname-fields name r = OnOk-bind (fields_of r) _ (nickname-init_account name)

some-injective : {A : Type 0} {a b : A} → some a ≡ some b → a ≡ b
some-injective e = cc

none-some : {A : Type 0} {a : A} → none ≡ some a → ⊥
none-some e = cc

module _ {W : Type 0} (server : Server W) (keys : KeyManager) where
  pub keys-follow {ℓ κ} :
      {A : Type ℓ} {B : Type κ} (o : Outcome A W) (f : A → App → W → Outcome B W)
      → o.1.key_manager ≡ keys
      → ((a : A) (app : App) (w : W) → app.key_manager ≡ keys → (f a app w).1.key_manager ≡ keys)
      → (follow o f).1.key_manager ≡ keys
  keys-follow (ok a, app, w) f h k = k a app w h
  keys-follow (err e, app, w) f h k = h

  keys-answer :
      (app : App) (o : Result Fields × W)
      → app.key_manager ≡ keys
      → (answer server app o).1.key_manager ≡ keys
  keys-answer app (ok j, w) h = h
  keys-answer app (err e, w) h = h

  keys-transmit :
      (d : Fields) (app : App) (w : W)
      → app.key_manager ≡ keys
      → (transmit server d app w).1.key_manager ≡ keys
  keys-transmit d app w h = elim (Bool-cases (is_json_fields d)) [
    | inl e ↦ rw e (keys-answer app (server.exchange d w) h)
    | inr e ↦ rw e h
  ]

  pub keys-call :
      (b : Body) (app : App) (w : W)
      → app.key_manager ≡ keys
      → (call server b app w).1.key_manager ≡ keys
  unfolding call send_websock_command
  keys-call b app w h =
      keys-follow ((init_command b app.next_cmd_id).0, _, w) (send_websock_command server) h
        λ c app w h. keys-follow (get_websocket_dict c, app, w) (transmit server) h keys-transmit

  -- What a call that returned an account leaves: the account is found under its name, and the other
  -- names are found as before.
  abbrev IsKnown : String → String → Outcome (Option Account) W → Type 0
  IsKnown name m (r, app, w) =
      OnOk
        (λ o.
          (a : Account)
          → o ≡ some a
          → account_from_alias m app.key_manager
            ≡ (if is_named m (some name) then ok a else account_from_alias m keys))
        r

  IsKnown-follow {ℓ} :
      {A : Type ℓ} (name m : String) (o : Outcome A W)
      (f : A → App → W → Outcome (Option Account) W)
      → o.1.key_manager ≡ keys
      → ((a : A) (app : App) (w : W)
          → o.0 ≡ ok a
          → app.key_manager ≡ keys
          → IsKnown name m (f a app w))
      → IsKnown name m (follow o f)
  IsKnown-follow name m (ok a, app, w) f h k = k a app w refl h
  IsKnown-follow name m (err e, app, w) f h k = OnOk-err e

  IsKnown-add_known :
      (name m : String) (a : Account) (app : App) (w : W)
      → a.nickname ≡ some name
      → app.key_manager ≡ keys
      → IsKnown name m (add_known server a app w)
  IsKnown-add_known name m a app w n h =
      OnOk-ok _ λ b e. rw (← (some-injective e), account_from_alias-add m a app.key_manager, n, h)

  IsKnown-propose_account :
      (name m : String) (args : WalletPropose) (app : App) (w : W)
      → app.key_manager ≡ keys
      → IsKnown name m (propose_account server name args app w)
  unfolding propose_account
  IsKnown-propose_account name m args app w h =
      IsKnown-follow name m (call server (wallet_propose args) app w) _
        (keys-call (wallet_propose args) app w h)
        λ r app w q h.
          IsKnown-follow name m (fields_of r >>= λ d. init_account (named name d), app, w)
            (add_known server) h
            λ a app w q h. IsKnown-add_known name m a app w ((nickname-fields name r).at a q) h

  IsKnown-create :
      (name m : String) (args : WalletPropose) (app : App) (w : W)
      → app.key_manager ≡ keys
      → IsKnown name m (create server name args app w)
  IsKnown-create name m args app w h = elim (Bool-cases (name == "root")) [
    | inl e ↦ rw e (OnOk-ok _ λ a q. absurd (none-some q))
    | inr e ↦ rw e (elim (Bool-cases (is_alias name app.key_manager)) [
      | inl k ↦ rw k (OnOk-err _)
      | inr k ↦ rw k (IsKnown-propose_account name m args app w h)
    ])
  ]

-- If `create_account` returns an account, its name, unless it is empty, is from then on an alias of
-- that account, and every other name stands for what it stood for before.
pub create_account-known :
    {W : Type 0} (server : Server W) (name m : String) (app : App) (w : W) (a : Account)
    → (create_account server name app w).0 ≡ ok (some a)
    → account_from_alias m (create_account server name app w).1.key_manager
      ≡ (if is_named m (some name) then ok a else account_from_alias m app.key_manager)
unfolding create_account
create_account-known server name m app w a h =
    (IsKnown-create server app.key_manager name m no_wallet_args app w refl).at (some a) h a refl
