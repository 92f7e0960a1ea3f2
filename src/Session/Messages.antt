-- ===== src/Session/Messages.antt =====
-- The messages of a session: each is JSON and has an id of its own.
use xbridge_witness.Session.QueriesLaws.{
  Asks, Asks-get_account_info, Asks-get_trust_lines, Asks-get_balances, Asks-get_balance,
}
use xbridge_witness.Session.Requests.{Requests}
use xbridge_witness.Base.{
  ℕ, ◌+◌, ◌≤◌, ◌≡◌, refl, sym, subst, String, Bool, true, false, Option, none, some, List, [], ◌∷◌,
  ◌++◌, Result, ok, err, arith, Bool-cases, inl, inr, ◌==◌,
}
use xbridge_witness.Base.Int.{pos}
use xbridge_witness.Value.{Account, Asset, num, int, Fields, get, is_json_fields}
use xbridge_witness.Transaction.Types.{Transaction}
use xbridge_witness.Transaction.Encode.{to_cmd_obj}
use xbridge_witness.Command.Types.{
  Body, WalletPropose, Command, init_command, sign, submit, ledger_accept, wallet_propose,
  account_info,
}
use xbridge_witness.Command.Websocket.{get_websocket_dict}
use xbridge_witness.Command.Ids.{id-init_command, next-init_command}
use xbridge_witness.Command.Tagged.{get_websocket_dict-tagged}
use xbridge_witness.Keys.KeyManager.{is_alias, account_from_alias}
use xbridge_witness.Session.App.{
  Server, App, Outcome, follow, answer, transmit, secret_of, info_args, create, accept_if, fund_one,
  send_websock_command, call, send_signed, insert_seq_and_fee, call_transaction,
  maybe_ledger_accept, propose_account, create_account, create_account_from_seed, create_each,
  fund_each, create_accounts, no_wallet_args,
}
use xbridge_witness.Session.Recording.{
  recording, Request, command, send, accept, new_account, seeded_account, new_accounts, request,
  session, Numbered, query_account, query_lines, query_balances, query_balance,
}

pub Numbered-le : (lo m n : ℕ) (ds : List Fields) → m ≤ n → Numbered lo m ds → Numbered lo n ds
Numbered-le lo m n [] h a = omega arith
Numbered-le lo m n (d ∷ ds) h (k, l, i, j, rest) = (k, l, i, j, Numbered-le (k + 1) m n ds h rest)

Numbered-snoc :
    (lo n : ℕ) (ds : List Fields) (d : Fields)
    → Numbered lo n ds
    → get "id" d ≡ some (num (int (pos n)))
    → is_json_fields d ≡ true
    → Numbered lo (n + 1) (ds ++ d ∷ [])
Numbered-snoc lo n [] d a i j = (n, a, i, j, omega arith)
Numbered-snoc lo n (c ∷ ds) d (k, l, p, q, rest) i j =
    (k, l, p, q, Numbered-snoc (k + 1) n ds d rest i j)

module _ {W : Type 0} (server : Server W) (lo : ℕ) where
  -- The state of a session whose messages so far are numbered.
  abbrev pub IsNumbered : App → List Fields × W → Type 0
  IsNumbered app (sent, w) = Numbered lo app.next_cmd_id sent

  abbrev pub Keeps {ℓ} : {A : Type ℓ} → Outcome A (List Fields × W) → Type 0
  Keeps (r, app, w) = IsNumbered app w

  Keeps-follow {ℓ κ} :
      {A : Type ℓ} {B : Type κ} (o : Outcome A (List Fields × W))
      (f : A → App → List Fields × W → Outcome B (List Fields × W))
      → Keeps o
      → ((a : A) (app : App) (w : List Fields × W) → IsNumbered app w → Keeps (f a app w))
      → Keeps (follow o f)
  Keeps-follow (ok a, app, w) f h k = k a app w h
  Keeps-follow (err e, app, w) f h k = h

  Keeps-answer :
      (app : App) (r : Result Fields) (w : List Fields × W)
      → IsNumbered app w
      → Keeps (answer (recording server) app (r, w))
  Keeps-answer app (ok j) w h = h
  Keeps-answer app (err e) w h = h

  Keeps-transmit :
      (n : ℕ) (d : Fields) (app : App) (w : List Fields × W)
      → get "id" d ≡ some (num (int (pos n)))
      → app.next_cmd_id ≡ n + 1
      → Numbered lo n w.0
      → Keeps (transmit (recording server) d app w)
  Keeps-transmit n d app w i e h = elim (Bool-cases (is_json_fields d)) [
    | inl j ↦ rw j (
        Keeps-answer app (server.exchange d w.1).0 (w.0 ++ d ∷ [], (server.exchange d w.1).1)
          (subst (λ m. Numbered lo m (w.0 ++ d ∷ [])) (sym e) (Numbered-snoc lo n w.0 d h i j)))
    | inr j ↦
        rw j (subst (λ m. Numbered lo m w.0) (sym e) (Numbered-le lo n (n + 1) w.0 (omega arith) h))
  ]

  Keeps-dict :
      (c : Command) (d : Result Fields) (app : App) (w : List Fields × W)
      → get_websocket_dict c ≡ d
      → app.next_cmd_id ≡ c.cmd_id + 1
      → Numbered lo c.cmd_id w.0
      → Keeps (follow (d, app, w) (transmit (recording server)))
  Keeps-dict c (err x) app w q e h =
      subst (λ m. Numbered lo m w.0) (sym e) (Numbered-le lo _ _ w.0 (omega arith) h)
  Keeps-dict c (ok d) app w q e h =
      let (own, p, i, named, rest) = get_websocket_dict-tagged c d "account" q refl in
      Keeps-transmit c.cmd_id d app w i e h

  Keeps-built :
      (n : ℕ) (built : Result Command) (app : App) (w : List Fields × W)
      → ((c : Command) → built ≡ ok c → c.cmd_id ≡ n)
      → app.next_cmd_id ≡ n + 1
      → Numbered lo n w.0
      → Keeps (follow (built, app, w) (send_websock_command (recording server)))
  unfolding send_websock_command
  Keeps-built n (err x) app w q e h =
      subst (λ m. Numbered lo m w.0) (sym e) (Numbered-le lo _ _ w.0 (omega arith) h)
  Keeps-built n (ok c) app w q e h =
      Keeps-dict c (get_websocket_dict c) app w refl (rw (q c refl) e) (rw (q c refl) h)

  pub Keeps-call :
      (b : Body) (app : App) (w : List Fields × W)
      → IsNumbered app w
      → Keeps (call (recording server) b app w)
  unfolding call
  Keeps-call b app w h =
      Keeps-built app.next_cmd_id (init_command b app.next_cmd_id).0 _ w
        (id-init_command b app.next_cmd_id) (next-init_command b app.next_cmd_id) h

  Keeps-send_signed :
      (txn : Transaction) (app : App) (w : List Fields × W)
      → IsNumbered app w
      → Keeps (send_signed (recording server) txn app w)
  unfolding send_signed
  Keeps-send_signed txn app w h =
      Keeps-follow (secret_of txn.header.account.secret_key, app, w) _ h
        λ secret app w h.
          Keeps-follow (to_cmd_obj txn, app, w) _ h
            λ tx app w h.
              Keeps-follow (call (recording server) (sign secret tx) app w) _
                (Keeps-call (sign secret tx) app w h)
                λ r app w h.
                  Keeps-follow (_, app, w) _ h λ blob app w h. Keeps-call (submit blob) app w h

  Keeps-insert_seq_and_fee :
      (txn : Transaction) (app : App) (w : List Fields × W)
      → IsNumbered app w
      → Keeps (insert_seq_and_fee (recording server) txn app w)
  unfolding insert_seq_and_fee
  Keeps-insert_seq_and_fee txn app w h =
      Keeps-follow (call (recording server) (account_info (info_args txn.header.account)) app w) _
        (Keeps-call (account_info (info_args txn.header.account)) app w h)
        λ r app w h. Keeps-follow (_, app, w) _ h λ seq app w h. h

  pub Keeps-call_transaction :
      (txn : Transaction) (with_seq : Bool) (app : App) (w : List Fields × W)
      → IsNumbered app w
      → Keeps (call_transaction (recording server) txn with_seq app w)
  unfolding call_transaction
  Keeps-call_transaction txn true app w h =
      Keeps-follow (insert_seq_and_fee (recording server) txn app w) _
        (Keeps-insert_seq_and_fee txn app w h) Keeps-send_signed
  Keeps-call_transaction txn false app w h = Keeps-send_signed txn app w h

  pub Keeps-accept_if :
      (standalone : Bool) (app : App) (w : List Fields × W)
      → IsNumbered app w
      → Keeps (accept_if (recording server) standalone app w)
  Keeps-accept_if true app w h =
      Keeps-follow (call (recording server) ledger_accept app w) _
        (Keeps-call ledger_accept app w h) λ r app w h. h
  Keeps-accept_if false app w h = h

  Keeps-propose_account :
      (name : String) (args : WalletPropose) (app : App) (w : List Fields × W)
      → IsNumbered app w
      → Keeps (propose_account (recording server) name args app w)
  unfolding propose_account
  Keeps-propose_account name args app w h =
      Keeps-follow (call (recording server) (wallet_propose args) app w) _
        (Keeps-call (wallet_propose args) app w h)
        λ r app w h. Keeps-follow (_, app, w) _ h λ a app w h. h

  pub Keeps-create :
      (name : String) (args : WalletPropose) (app : App) (w : List Fields × W)
      → IsNumbered app w
      → Keeps (create (recording server) name args app w)
  Keeps-create name args app w h = elim (Bool-cases (name == "root")) [
    | inl e ↦ rw e h
    | inr e ↦ rw e (elim (Bool-cases (is_alias name app.key_manager)) [
      | inl k ↦ rw k h
      | inr k ↦ rw k (Keeps-propose_account name args app w h)
    ])
  ]

  Keeps-create_each :
      (names : List String) (app : App) (w : List Fields × W)
      → IsNumbered app w
      → Keeps (create_each (recording server) names app w)
  unfolding create_each create_account
  Keeps-create_each [] app w h = h
  Keeps-create_each (n ∷ ns) app w h =
      Keeps-follow (create_account (recording server) n app w) _
        (Keeps-create n no_wallet_args app w h)
        λ a app w h.
          Keeps-follow (create_each (recording server) ns app w) _ (Keeps-create_each ns app w h)
            λ accounts app w h. h

  Keeps-fund_one :
      (source : Account) (amt : Asset) (a : Option Account) (app : App) (w : List Fields × W)
      → IsNumbered app w
      → Keeps (fund_one (recording server) source amt a app w)
  Keeps-fund_one source amt none app w h = h
  Keeps-fund_one source amt (some a) app w h = Keeps-send_signed _ app w h

  Keeps-fund_each :
      (source : Account) (amt : Asset) (accounts : List (Option Account)) (app : App)
      (w : List Fields × W)
      → IsNumbered app w
      → Keeps (fund_each (recording server) source amt accounts app w)
  unfolding fund_each
  Keeps-fund_each source amt [] app w h = h
  Keeps-fund_each source amt (a ∷ accounts) app w h =
      Keeps-follow (fund_one (recording server) source amt a _ w) _
        (Keeps-fund_one source amt a _ w
          (Numbered-le lo _ (app.next_cmd_id + 1) w.0 (omega arith) h))
        λ r. Keeps-fund_each source amt accounts

  Keeps-create_accounts :
      (names : List String) (funding : String) (amt : Asset) (app : App) (w : List Fields × W)
      → IsNumbered app w
      → Keeps (create_accounts (recording server) names funding amt app w)
  unfolding create_accounts
  Keeps-create_accounts names funding amt app w h =
      Keeps-follow (create_each (recording server) names app w) _ (Keeps-create_each names app w h)
        λ accounts app w h.
          Keeps-follow (account_from_alias funding app.key_manager, app, w) _ h
            λ source app w h.
              Keeps-follow (fund_each (recording server) source amt accounts app w) _
                (Keeps-fund_each source amt accounts app w h) λ u app w h. h

  Keeps-Asks :
      {A : Type 0} (b : Body) (m : Requests (List Fields × W) A)
      → Asks (recording server) b m
      → (app : App) (w : List Fields × W) → IsNumbered app w
      → Keeps (m app w)
  Keeps-Asks b m q app w h =
      subst (λ (s : App × (List Fields × W)). IsNumbered s.0 s.1) (sym (q.left app w))
        (Keeps-call b app w h)

  IsNumbered-request :
      (r : Request) (app : App) (w : List Fields × W)
      → IsNumbered app w
      → IsNumbered (request (recording server) r app w).0 (request (recording server) r app w).1
  unfolding request create_account create_account_from_seed maybe_ledger_accept
  IsNumbered-request (command b) app w h = Keeps-call b app w h
  IsNumbered-request (send txn with_seq) app w h =
      Keeps-call_transaction txn with_seq _ w
        (Numbered-le lo _ (app.next_cmd_id + 1) w.0 (omega arith) h)
  IsNumbered-request accept app w h = Keeps-accept_if app.standalone app w h
  IsNumbered-request (new_account name) app w h = Keeps-create name no_wallet_args app w h
  IsNumbered-request (seeded_account name seed key_type) app w h =
      Keeps-create name (record no_wallet_args { seed = seed; key_type = key_type }) app w h
  IsNumbered-request (new_accounts names funding amt) app w h =
      Keeps-create_accounts names funding amt app w h
  IsNumbered-request (query_account a) app w h =
      Keeps-Asks _ _ (Asks-get_account_info (recording server) a) app w h
  IsNumbered-request (query_lines a) app w h =
      Keeps-Asks _ _ (Asks-get_trust_lines (recording server) a) app w h
  IsNumbered-request (query_balances a asset) app w h =
      Keeps-Asks _ _ (Asks-get_balances (recording server) a asset) app w h
  IsNumbered-request (query_balance F a asset) app w h =
      Keeps-Asks _ _ (Asks-get_balance (recording server) F a asset) app w h

  IsNumbered-session :
      (rs : List Request) (app : App) (w : List Fields × W)
      → IsNumbered app w
      → IsNumbered (session (recording server) rs app w).0 (session (recording server) rs app w).1
  unfolding session
  IsNumbered-session [] app w h = h
  IsNumbered-session (r ∷ rs) app w h = IsNumbered-session rs _ _ (IsNumbered-request r app w h)

-- Whatever commands, transactions, closings of the ledger, new accounts and queries on accounts, trust lines
-- and balances a program asks of an `App`, and whatever the server answers, every message that is sent
-- is JSON and has an id, and the ids grow strictly along the messages, from the counter at the start on, so that
-- no two messages share one. Subscriptions are not among these requests.
pub session-Numbered :
    {W : Type 0} (server : Server W) (rs : List Request) (app : App) (w : W)
    → Numbered app.next_cmd_id
        (session (recording server) rs app ([], w)).0.next_cmd_id
        (session (recording server) rs app ([], w)).1.0
session-Numbered server rs app w =
    IsNumbered-session server app.next_cmd_id rs app ([], w) (omega arith)
