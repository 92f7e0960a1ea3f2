-- ===== src/Command/Tagged.antt =====
-- The dictionaries that are sent over a websocket.
use xbridge_witness.Base.{
  ℕ, String, ◌≡◌, refl, Bool, true, false, ◌||◌, ◌⊎◌, inl, inr, Option, none, some, ◌==◌, ok, OnOk,
  OnOk-ok, OnOk-bind, arith, or_else-none, >>=-eq-ok, ok-injective, ◌∙◌, ap,
}
use xbridge_witness.Base.Int.{pos}
use xbridge_witness.Value.{num, int, str, Fields, get}
use xbridge_witness.Value.Laws.{get-put, field_laws}
use xbridge_witness.Common.Asset.{asset_to_cmd_obj}
use xbridge_witness.Transaction.Encode.{opt_text}
use xbridge_witness.Command.Types.{
  LedgerIndex, Body, path_find, account_info, account_lines, book_offers, Command, cmd_name,
  check_body, check_ledger, init_command,
}
use xbridge_witness.Command.Websocket.{
  own_dict, add_websocket_fields, get_websocket_dict, account_info_dict, account_lines_dict,
  book_offers_dict, opt_index, add_subcommand,
}

-- The keys that `add_websocket_fields` writes.
abbrev pub is_tag : String → Bool
is_tag k = "id" == k || ("command" == k || "subcommand" == k)

get-add_subcommand :
    (b : Body) (k : String) (d : Fields)
    → ("subcommand" == k) ≡ false
    → get k (add_subcommand b d) ≡ get k d
get-add_subcommand (path_find p) k d h = get-put "subcommand" k (str "create") d ∙ rw h
get-add_subcommand _ k d h = refl

get-add_websocket_fields :
    (c : Command) (d : Fields) (k : String)
    → is_tag k ≡ false
    → get k (add_websocket_fields c d) ≡ get k d
unfolding add_websocket_fields
get-add_websocket_fields c d k h =
    get-add_subcommand c.body k _ (ground arith)
    ∙ get-put "command" k _ _
    ∙ ground (arith, get-put "id" k (num (int (pos c.cmd_id))) d)

-- A command that can be sent over a websocket is sent with its own id and its own name, and with
-- every other key, but "subcommand", exactly as the command's own dictionary has it.
pub get_websocket_dict-tagged :
    (c : Command) (d : Fields) (k : String)
    → get_websocket_dict c ≡ ok d
    → is_tag k ≡ false
    → (own : Fields) × (own_dict c.body ≡ ok own)
      × (get "id" d ≡ some (num (int (pos c.cmd_id))))
      × (get "command" d ≡ some (str (cmd_name c.body)))
      × (get k d ≡ get k own)
unfolding get_websocket_dict
get_websocket_dict-tagged c d k e h =
    let (own, p, q) = >>=-eq-ok (own_dict c.body) (λ o. ok (add_websocket_fields c o)) e in
    let r : add_websocket_fields c own ≡ d = ok-injective q in
    (
      own,
      p,
      rw (← r) (unfold add_websocket_fields in rw get-add_subcommand (simp field_laws)),
      rw (← r) (unfold add_websocket_fields in rw get-add_subcommand (simp field_laws)),
      rw (← r) (get-add_websocket_fields c own k h),
    )

-- The commands that name a ledger by its hash or by its index.
abbrev pub names_ledger : Body → Bool
names_ledger (account_info a) = true
names_ledger (account_lines a) = true
names_ledger (book_offers b) = true
names_ledger _ = false

-- At most one of the two keys is there.
abbrev pub OneLedger : Fields → Type 0
OneLedger d = (get "ledger_hash" d ≡ none) ⊎ (get "ledger_index" d ≡ none)

one_ledger :
    (hash : Option String) (index : Option LedgerIndex) {u : Unit {0}}
    → check_ledger hash index ≡ ok u
    → (opt_text hash ≡ none) ⊎ (opt_index index ≡ none)
one_ledger none index h = inl refl
one_ledger (some s) none h = inr refl
one_ledger (some s) (some i) h = cc

OneLedger-own_dict :
    (b : Body) {u : Unit {0}}
    → names_ledger b ≡ true
    → check_body b ≡ ok u
    → OnOk OneLedger (own_dict b)
unfolding own_dict get
OneLedger-own_dict (account_info a) n h =
    unfold account_info_dict in
    OnOk-ok _ (simp (field_laws, or_else-none) (one_ledger a.ledger_hash a.ledger_index h))
OneLedger-own_dict (account_lines a) n h =
    unfold account_lines_dict in
    OnOk-ok _ (simp (field_laws, or_else-none) (one_ledger a.ledger_hash a.ledger_index h))
OneLedger-own_dict (book_offers b) n h =
    unfold book_offers_dict in
    OnOk-bind (asset_to_cmd_obj b.taker_pays) _ λ v.
      OnOk-bind (asset_to_cmd_obj b.taker_gets) _
        λ w. OnOk-ok _ (simp (field_laws, or_else-none) (one_ledger b.ledger_hash b.ledger_index h))
OneLedger-own_dict _ n h = cc

-- The dictionary of an `AccountInfo`, `AccountLines` or `BookOffers` that was constructed never
-- names its ledger both by hash and by index.
pub init_command-OneLedger :
    (b : Body) (n : ℕ) (c : Command) (d : Fields)
    → names_ledger b ≡ true
    → (init_command b n).0 ≡ ok c
    → own_dict c.body ≡ ok d
    → OneLedger d
unfolding init_command
init_command-OneLedger b n c d names built e =
    let (u, p, q) = >>=-eq-ok (check_body b) (λ _. ok (record { cmd_id = n; body = b })) built in
    let r : b ≡ c.body = ap (λ (x : Command). x.body) (ok-injective q) in
    (OneLedger-own_dict b names p).at d (rw r e)
