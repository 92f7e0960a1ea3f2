-- ===== src/Repl/Keeps.antt =====
-- What the steps of `class BridgeRepl` keep: an interface of the laws of a property of the state, and
-- the property along the steps of a method.
pub mod Args
pub mod Pay
pub mod Accounts
pub mod Bridges
pub mod Scenarios
pub mod Lines
use xbridge_witness.Base.{
  ℕ, String, Bool, true, false, Option, none, some, List, [], ◌∷◌, ◌++◌, ◌==◌, Result, ok, err, Exn,
  if◌then◌else◌,
}
use xbridge_witness.Base.Dict.{Dict, insert}
use xbridge_witness.Value.{Value, Asset}
use xbridge_witness.Common.Bridge.{Bridge}
use xbridge_witness.Command.Types.{Body}
use xbridge_witness.Transaction.Types.{Transaction}
use xbridge_witness.Keys.AssetAliases.{AssetAliases}
use xbridge_witness.Session.App.{call, create_account, create_account_from_seed}
use xbridge_witness.Repl.State.{
  Chain, Repl, Shell, Flow, go, done, raise, Step, next, ◌>>=◌, ◌>>◌, pure, fail, leave, print,
  refuse, unless, get_state, lift, caught, catch, no_more, app_of, put_app, on, send, accept_ledger,
  wait, outside,
}

-- A property that printing keeps.
pub record Prints {W : Type 0} (P : Repl → W → Type 0) : Type 0 where
  pub printed :
      (s : String) (r : Repl) (w : W) → P r w → P (record r { printed = r.printed ++ s ∷ [] }) w

-- A property of the state and the world that the calls of the program keep.
pub record Stable {W : Type 0} (shell : Shell W) (P : Repl → W → Type 0) : Type 0 where
  pub prints : Prints P
  pub bridges : (b : Dict Bridge) (r : Repl) (w : W) → P r w → P (record r { bridge_aliases = b }) w
  pub assets :
      (c : Chain) (a : AssetAliases) (r : Repl) (w : W)
      → P r w
      → P (put_app c (record (app_of c r) { asset_aliases = a }) r) w
  pub slept : (n : ℕ) (r : Repl) (w : W) → P r w → P r (shell.sleep n w)
  pub bytes_read : (f : String) (r : Repl) (w : W) → P r w → P r (shell.read_bytes f w).1
  pub lines_read : (f : String) (r : Repl) (w : W) → P r w → P r (shell.read_lines f w).1
  pub json_loaded : (f : String) (r : Repl) (w : W) → P r w → P r (shell.load_json f w).1
  pub appended : (f s : String) (r : Repl) (w : W) → P r w → P r (shell.append_file f s w).1
  pub sent :
      (c : Chain) (txn : Transaction) (r : Repl) (w : W)
      → P r w
      → P (send shell c txn r w).1 (send shell c txn r w).2
  pub accepted :
      (c : Chain) (r : Repl) (w : W)
      → P r w
      → P (accept_ledger shell c r w).1 (accept_ledger shell c r w).2
  pub called :
      (c : Chain) (b : Body) (r : Repl) (w : W)
      → P r w
      → P
          (on shell c (λ server app. call server b app) r w).1
          (on shell c (λ server app. call server b app) r w).2
  pub created :
      (c : Chain) (name : String) (r : Repl) (w : W)
      → P r w
      → P
          (on shell c (λ server app. create_account server name app) r w).1
          (on shell c (λ server app. create_account server name app) r w).2
  pub seeded :
      (c : Chain) (name : String) (seed key_type : Option String) (r : Repl) (w : W)
      → P r w
      → P
          (on shell c (λ server app. create_account_from_seed server name seed key_type app) r w).1
          (on shell c (λ server app. create_account_from_seed server name seed key_type app) r w).2

abbrev pub Holds : {W A : Type 0} → (Repl → W → Type 0) → Flow A × Repl × W → Type 0
Holds P (x, r, w) = P r w

-- Whatever a step does, the property holds after it if it held before.
pub record Keeps {W : Type 0} (P : Repl → W → Type 0) {A : Type 0} (m : Step W A) : Type 0 where
  pub at : (r : Repl) (w : W) → P r w → Holds P (m r w)

module _ {W : Type 0} {P : Repl → W → Type 0} where
  Holds-next :
      {A B : Type 0} (o : Flow A × Repl × W) (f : A → Step W B)
      → Holds P o
      → ((a : A) → Keeps P (f a))
      → Holds P (next o f)
  Holds-next (go a, r, w) f h k = (k a).at r w h
  Holds-next (done b, r, w) f h k = h
  Holds-next (raise e, r, w) f h k = h

  infixr 4 ◌▹=◌ ◌▹◌
  -- A proof has the shape of the `do` block that it is about.
  pub ◌▹=◌ :
      {A B : Type 0} {m : Step W A} {f : A → Step W B}
      → Keeps P m
      → ((a : A) → Keeps P (f a))
      → Keeps P (m >>= f)
  unfolding ◌>>=◌
  ◌▹=◌ {m} {f} h k = record { at = λ r w p. Holds-next (m r w) f (h.at r w p) k }

  pub ◌▹◌ :
      {B : Type 0} {m : Step W (Unit {0})} {k : Step W B} → Keeps P m → Keeps P k → Keeps P (m >> k)
  unfolding ◌>>◌
  h ▹ k = h ▹= λ u. k

  -- A step that leaves the state and the world as they are.
  pub Keeps-pure : {A : Type 0} {a : A} → Keeps P (pure a)
  Keeps-pure = record { at = λ r w p. p }

  pub Keeps-fail : {A : Type 0} {e : Exn} → Keeps P {A = A} (fail e)
  Keeps-fail = record { at = λ r w p. p }

  pub Keeps-get_state : Keeps P get_state
  Keeps-get_state = record { at = λ r w p. p }

  pub Keeps-lift : {A : Type 0} (x : Result A) → Keeps P (lift x)
  Keeps-lift x = record { at = λ r w p. p }

  pub Keeps-if :
      {A : Type 0} (b : Bool) {m n : Step W A}
      → Keeps P m
      → Keeps P n
      → Keeps P (if b then m else n)
  Keeps-if true h k = h
  Keeps-if false h k = k

  pub Keeps-no_more : (args : List String) → Keeps P (no_more args)
  Keeps-no_more [] = Keeps-pure
  Keeps-no_more (a ∷ args) = Keeps-fail

  Holds-caught :
      {A : Type 0} (o : Flow A × Repl × W) (handler : Exn → Step W A)
      → Holds P o
      → ((e : Exn) → Keeps P (handler e))
      → Holds P (caught o handler)
  Holds-caught (go a, r, w) handler h k = h
  Holds-caught (done b, r, w) handler h k = h
  Holds-caught (raise e, r, w) handler h k = (k e).at r w h

  pub Keeps-catch :
      {A : Type 0} {m : Step W A} {handler : Exn → Step W A}
      → Keeps P m
      → ((e : Exn) → Keeps P (handler e))
      → Keeps P (catch m handler)
  Keeps-catch {m} {handler} h k = record {
    at = λ r w p. Holds-caught (m r w) handler (h.at r w p) k;
  }

module _ {W : Type 0} {P : Repl → W → Type 0} (prints : Prints P) where
  pub Keeps-print : (s : String) → Keeps P (print s)
  Keeps-print s = record { at = prints.printed s }

  pub Keeps-refuse : {A : Type 0} (s : String) → Keeps P {A = A} (refuse s)
  unfolding ◌>>◌
  Keeps-refuse s = record { at = prints.printed s }

  pub Keeps-unless : (b : Bool) (s : String) → Keeps P (unless b s)
  Keeps-unless true s = Keeps-pure
  Keeps-unless false s = Keeps-refuse s

module _ {W : Type 0} {shell : Shell W} {P : Repl → W → Type 0} (stable : Stable shell P) where
  pub Keeps-wait : (n : ℕ) → Keeps P (wait shell n)
  unfolding wait
  Keeps-wait n = record { at = stable.slept n }

  pub Keeps-send : (c : Chain) (txn : Transaction) → Keeps P (send shell c txn)
  Keeps-send c txn = record { at = stable.sent c txn }

  pub Keeps-accept_ledger : (c : Chain) → Keeps P (accept_ledger shell c)
  Keeps-accept_ledger c = record { at = stable.accepted c }
