-- ===== src/Session/Aliases.antt =====
-- What the methods of `class App` of bin/python/app.py leave of the address book.
use xbridge_witness.Base.{
  ◌≡◌, refl, sym, subst, String, Bool, true, false, some, ◌==◌, ok, err, Bool-cases, inl, inr,
  if◌then◌else◌, ◌>>=◌, require, Exn, Option-cases, assertion_error, ap, eq_iff,
}
use xbridge_witness.Base.Dict.{lookup, contains}
use xbridge_witness.Base.Text.{truthy}
use xbridge_witness.Value.{Account}
use xbridge_witness.Common.Account.{init_account}
use xbridge_witness.Transaction.Types.{Transaction}
use xbridge_witness.Transaction.Encode.{to_cmd_obj}
use xbridge_witness.Command.Types.{
  WalletPropose, sign, submit, ledger_accept, wallet_propose, account_info,
}
use xbridge_witness.Keys.KeyManager.{KeyManager, is_alias, account_from_alias}
use xbridge_witness.Keys.Laws.{is_named, account_from_alias-add}
use xbridge_witness.Session.App.{
  Server, App, Outcome, follow, call, secret_of, info_args, send_signed, insert_seq_and_fee,
  call_transaction, accept_if, add_known, named, propose_account, create, fields_of,
}
use xbridge_witness.Session.Accounts.{keys-follow, keys-call, nickname-fields}

err-ok : {A : Type 0} {e : Exn} {a : A} → err e ≡ ok a → ⊥
err-ok e = cc

false-true : false ≡ true → ⊥
false-true e = cc

-- A name that stands for an account is an alias.
pub is_alias-known :
    (alias : String) (k : KeyManager) (a : Account)
    → account_from_alias alias k ≡ ok a
    → is_alias alias k ≡ true
unfolding account_from_alias is_alias contains
is_alias-known alias k a e = elim (Option-cases (lookup alias k.aliases)) [
  | inl n ↦ absurd (err-ok (subst (λ o. require assertion_error o ≡ ok a) n e))
  | inr (b, s) ↦ rw s refl
]

is_named-eq : (alias name : String) → is_named alias (some name) ≡ true → name ≡ alias
is_named-eq alias name e = elim (Bool-cases (truthy name)) [
  | inl t ↦ (eq_iff name alias).0 (subst (λ b. (if b then name == alias else false) ≡ true) t e)
  | inr f ↦ absurd (false-true (subst (λ b. (if b then name == alias else false) ≡ true) f e))
]

module _ {W : Type 0} (server : Server W) (keys : KeyManager) where
  keys-send_signed :
      (txn : Transaction) (app : App) (w : W)
      → app.key_manager ≡ keys
      → (send_signed server txn app w).1.key_manager ≡ keys
  unfolding send_signed
  keys-send_signed txn app w h =
      keys-follow server keys (secret_of txn.header.account.secret_key, app, w) _ h
        λ secret app w h.
          keys-follow server keys (to_cmd_obj txn, app, w) _ h
            λ tx app w h.
              keys-follow server keys (call server (sign secret tx) app w) _
                (keys-call server keys (sign secret tx) app w h)
                λ r app w h.
                  keys-follow server keys (_, app, w) _ h
                    λ blob app w h. keys-call server keys (submit blob) app w h

  pub keys-call_transaction :
      (txn : Transaction) (with_seq : Bool) (app : App) (w : W)
      → app.key_manager ≡ keys
      → (call_transaction server txn with_seq app w).1.key_manager ≡ keys
  unfolding call_transaction insert_seq_and_fee
  keys-call_transaction txn true app w h =
      keys-follow server keys (insert_seq_and_fee server txn app w) _
        (keys-follow server keys (call server (account_info (info_args txn.header.account)) app w) _
          (keys-call server keys (account_info (info_args txn.header.account)) app w h)
          λ r app w h. keys-follow server keys (_, app, w) _ h λ seq app w h. h)
        keys-send_signed
  keys-call_transaction txn false app w h = keys-send_signed txn app w h

  pub keys-accept_if :
      (standalone : Bool) (app : App) (w : W)
      → app.key_manager ≡ keys
      → (accept_if server standalone app w).1.key_manager ≡ keys
  keys-accept_if true app w h =
      keys-follow server keys (call server ledger_accept app w) _
        (keys-call server keys ledger_accept app w h) λ r app w h. h
  keys-accept_if false app w h = h

  -- An alias of the book at the start, and the account that it still stands for.
  module _ (alias : String) (a : Account) (known : account_from_alias alias keys ≡ ok a) where
    abbrev Still : {A : Type 0} → Outcome A W → Type 0
    Still (r, app, w) = account_from_alias alias app.key_manager ≡ ok a

    Still-follow :
        {A B : Type 0} (o : Outcome A W) (f : A → App → W → Outcome B W)
        → o.1.key_manager ≡ keys
        → ((x : A) (app : App) (w : W) → o.0 ≡ ok x → app.key_manager ≡ keys → Still (f x app w))
        → Still (follow o f)
    Still-follow (ok x, app, w) f h k = k x app w refl h
    Still-follow (err e, app, w) f h k =
        subst (λ km. account_from_alias alias km ≡ ok a) (sym h) known

    not_alias : (name : String) → is_alias name keys ≡ false → is_named alias (some name) ≡ true → ⊥
    not_alias name h e =
        cc (
          is_alias-known alias keys a known,
          ap (λ n. is_alias n keys) (is_named-eq alias name e),
          h,
        )

    Still-add_known :
        (name : String) (b : Account) (app : App) (w : W)
        → is_alias name keys ≡ false
        → b.nickname ≡ some name
        → app.key_manager ≡ keys
        → Still (add_known server b app w)
    Still-add_known name b app w free n h = elim (Bool-cases (is_named alias (some name))) [
      | inl e ↦ absurd (not_alias name free e)
      | inr e ↦ rw (account_from_alias-add alias b app.key_manager, n, h, e) known
    ]

    pub Still-create :
        (name : String) (args : WalletPropose) (app : App) (w : W)
        → app.key_manager ≡ keys
        → Still (create server name args app w)
    unfolding propose_account
    Still-create name args app w h = elim (Bool-cases (name == "root")) [
      | inl e ↦ rw (e, h) known
      | inr e ↦ rw e (elim (Bool-cases (is_alias name app.key_manager)) [
        | inl k ↦ rw (k, h) known
        | inr k ↦ rw k (
            Still-follow (call server (wallet_propose args) app w) _
              (keys-call server keys (wallet_propose args) app w h)
              λ r app' w q h'.
                Still-follow (fields_of r >>= λ d. init_account (named name d), app', w)
                  (add_known server) h'
                  λ b app'' w q h''.
                    Still-add_known name b app'' w (subst (λ km. is_alias name km ≡ false) h k)
                      ((nickname-fields name r).at b q) h'')
      ])
    ]
