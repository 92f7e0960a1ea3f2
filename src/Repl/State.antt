-- ===== src/Repl/State.antt =====
-- The state of `class BridgeRepl` of bin/python/interactive.py, and the steps of its methods.
use xbridge_witness.Base.{
  ℕ, ◌+◌, String, Bool, false, List, [], ◌∷◌, ◌++◌, ◌&&◌, Result, ok, err, Exn, assertion_error,
  if◌then◌else◌,
}
use xbridge_witness.Base.Dict.{Dict}
use xbridge_witness.Value.{Value, Fields}
use xbridge_witness.Value.Floats.{Floats}
use xbridge_witness.Common.Bridge.{Bridge}
use xbridge_witness.Transaction.Types.{Transaction}
use xbridge_witness.Keys.KeyManager.{Render, is_alias}
use xbridge_witness.Keys.AssetAliases.{RenderAssets}
use xbridge_witness.Session.App.{Server, App, Outcome, call_transaction, maybe_ledger_accept}

pub data Chain : Type 0 where
  mainchain sidechain : Chain

-- The fields of the object. `Command.next_cmd_id` is a variable of the class, which the two apps share:
-- `next_cmd_id` stands for it, whatever their records hold. `printed` is what was printed so far.
pub record Repl : Type 0 where
  pub mc_app : App
  pub sc_app : App
  pub next_cmd_id : ℕ
  pub bridge_aliases : Dict Bridge
  pub proof_aliases : Dict Value
  pub printed : List String

-- What is outside: the servers of the two chains, `time.sleep`, files, and how values are shown.
pub record Shell (W : Type 0) : Type 0 where
  pub server : Chain → Server W
  pub sleep : ℕ → W → W
  pub floats : Floats
  pub hooks_dir : String
  -- `Path(s)` as a text, and `p / q` on paths
  pub path : String → String
  pub slash : String → String → String
  pub is_file : String → W → Bool
  pub read_bytes : String → W → Result (List ℕ) × W
  pub read_lines : String → W → Result (List String) × W
  -- `open` and `json.load`
  pub load_json : String → W → Result Fields × W
  pub append_file : String → String → W → Result (Unit {0}) × W
  -- `json.dumps(v, indent=1)`
  pub dumps : Value → String
  pub show_value : Value → String
  -- `repr(e)` and `str(e)`
  pub repr_exn : Exn → String
  pub str_exn : Exn → String
  pub show_bridge : Bridge → String
  pub show_bridges : Dict Bridge → String
  pub render_accounts : Render
  pub render_assets : RenderAssets

-- What a part of a method does: it goes on with a value, the method returns (True is what ends the
-- program), or it raises.
pub data Flow (A : Type 0) : Type 0 where
  go : A → Flow A
  done : Bool → Flow A
  raise : Exn → Flow A

abbrev pub Step : Type 0 → Type 0 → Type 0
Step W A = Repl → W → Flow A × Repl × W

abbrev pub next : {W A B : Type 0} → Flow A × Repl × W → (A → Step W B) → Flow B × Repl × W
next (go a, r, w) f = f a r w
next (done b, r, w) f = (done b, r, w)
next (raise e, r, w) f = (raise e, r, w)

infixl 5 ◌>>=◌ ◌>>◌
unfoldable pub ◌>>=◌ : {W A B : Type 0} → Step W A → (A → Step W B) → Step W B
◌>>=◌ m f r w = next (m r w) f

unfoldable pub ◌>>◌ : {W B : Type 0} → Step W (Unit {0}) → Step W B → Step W B
unfolding ◌>>=◌
m >> k = m >>= λ _. k

abbrev pub pure : {W A : Type 0} → A → Step W A
pure a r w = (go a, r, w)

abbrev pub fail : {W A : Type 0} → Exn → Step W A
fail e r w = (raise e, r, w)

-- `return`, which gives `None`, or `return True`
abbrev pub leave : {W A : Type 0} → Bool → Step W A
leave b r w = (done b, r, w)

abbrev pub print : {W : Type 0} → String → Step W (Unit {0})
print s r w = (go tt, record r { printed = r.printed ++ s ∷ [] }, w)

-- An error is printed, and the method returns.
abbrev pub refuse : {W A : Type 0} → String → Step W A
refuse s = print s >> leave false

-- `if not b: print(s); return`
abbrev pub unless : {W : Type 0} → Bool → String → Step W (Unit {0})
unless b s = if b then pure tt else refuse s

abbrev pub get_state : {W : Type 0} → Step W Repl
get_state r w = (go r, r, w)

-- A call that raises or returns, and leaves the state.
abbrev pub flow_of : {A : Type 0} → Result A → Flow A
flow_of (ok a) = go a
flow_of (err e) = raise e

abbrev pub lift : {W A : Type 0} → Result A → Step W A
lift x r w = (flow_of x, r, w)

-- `try: ... except Exception as e: handler`
abbrev pub caught : {W A : Type 0} → Flow A × Repl × W → (Exn → Step W A) → Flow A × Repl × W
caught (go a, r, w) handler = (go a, r, w)
caught (done b, r, w) handler = (done b, r, w)
caught (raise e, r, w) handler = handler e r w

abbrev pub catch : {W A : Type 0} → Step W A → (Exn → Step W A) → Step W A
catch m handler r w = caught (m r w) handler

-- `assert not args`
abbrev pub no_more : {W : Type 0} → List String → Step W (Unit {0})
no_more [] = pure tt
no_more (a ∷ args) = fail assertion_error

-- A chain's app, whose commands take their ids from the shared variable.
abbrev pub app_of : Chain → Repl → App
app_of mainchain r = record r.mc_app { next_cmd_id = r.next_cmd_id }
app_of sidechain r = record r.sc_app { next_cmd_id = r.next_cmd_id }

abbrev pub put_app : Chain → App → Repl → Repl
put_app mainchain app r = record r { mc_app = app; next_cmd_id = app.next_cmd_id }
put_app sidechain app r = record r { sc_app = app; next_cmd_id = app.next_cmd_id }

abbrev pub other : Chain → Chain
other mainchain = sidechain
other sidechain = mainchain

abbrev pub settle : {W A : Type 0} → Chain → Repl → Outcome A W → Flow A × Repl × W
settle c r (x, app, w) = (flow_of x, put_app c app r, w)

-- `BridgeRepl.__init__`
unfoldable pub init_repl : App → App → ℕ → Result Repl
unfolding is_alias
init_repl mc_app sc_app next_cmd_id =
    if is_alias "door" mc_app.key_manager && is_alias "door" sc_app.key_manager
    then ok (record {
      mc_app = mc_app;
      sc_app = sc_app;
      next_cmd_id = next_cmd_id;
      bridge_aliases = [];
      proof_aliases = [];
      printed = [];
    })
    else err assertion_error

module _ {W : Type 0} (shell : Shell W) where
  -- A method of a chain's app.
  abbrev pub on : {A : Type 0} → Chain → (Server W → App → W → Outcome A W) → Step W A
  on c method r w = settle c r (method (shell.server c) (app_of c r) w)

  -- `chain(T(...))` for a transaction: its constructor takes an id.
  unfoldable pub send : Chain → Transaction → Step W Value
  unfolding call_transaction
  send c txn = on c λ server app.
      call_transaction server txn false (record app { next_cmd_id = app.next_cmd_id + 1 })

  -- `chain.maybe_ledger_accept()`
  unfoldable pub accept_ledger : Chain → Step W (Unit {0})
  unfolding maybe_ledger_accept
  accept_ledger c = on c λ server app. maybe_ledger_accept server app

  unfoldable pub wait : ℕ → Step W (Unit {0})
  wait n r w = (go tt, r, shell.sleep n w)

  -- A file that is read, or whatever else changes the world and may raise.
  abbrev pub outside : {A : Type 0} → (W → Result A × W) → Step W A
  outside f r w = let (x, w') = f w in (flow_of x, r, w')
