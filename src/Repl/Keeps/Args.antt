-- ===== src/Repl/Keeps/Args.antt =====
-- What the common parts of the commands keep.
use xbridge_witness.Base.{String, Bool, true, false, Option, none, some, List, [], ◌∷◌}
use xbridge_witness.Value.{Number, Asset}
use xbridge_witness.Value.Floats.{Floats}
use xbridge_witness.Common.Bridge.{Bridge}
use xbridge_witness.Repl.State.{Chain, Repl, Step}
use xbridge_witness.Repl.Args.{
  pop, found_chain, take_chain, known_account, take_account, found_amount, take_amount, otherwise,
  known_asset, take_asset, amount_of, bridge_or, known_bridge,
}
use xbridge_witness.Repl.Keeps.{
  Prints, Keeps, ◌▹=◌, ◌▹◌, Keeps-pure, Keeps-fail, Keeps-get_state, Keeps-lift, Keeps-refuse,
  Keeps-unless,
}

module _ {W : Type 0} {P : Repl → W → Type 0} (prints : Prints P) where
  pub Keeps-pop : (args : List String) → Keeps P (pop args)
  Keeps-pop [] = Keeps-fail
  Keeps-pop (a ∷ args) = Keeps-pure

  pub Keeps-found_chain : (message : String) (c : Option Chain) → Keeps P (found_chain message c)
  Keeps-found_chain message none = Keeps-refuse prints message
  Keeps-found_chain message (some c) = Keeps-pure

  pub Keeps-take_chain : (message : String) (args : List String) → Keeps P (take_chain message args)
  unfolding take_chain
  Keeps-take_chain message args =
      Keeps-pop args ▹= λ (a, args). Keeps-found_chain message _ ▹= λ c. Keeps-pure

  pub Keeps-known_account :
      (message : String → String) (c : Chain) (n : String) → Keeps P (known_account message c n)
  unfolding known_account
  Keeps-known_account message c n = Keeps-get_state ▹= λ r. Keeps-unless prints _ _ ▹ Keeps-lift _

  pub Keeps-take_account : (c : Chain) (args : List String) → Keeps P (take_account c args)
  Keeps-take_account c args =
      Keeps-pop args ▹= λ (n, args). Keeps-known_account _ c n ▹= λ a. Keeps-pure

  pub Keeps-found_amount : (message : String) (n : Option Number) → Keeps P (found_amount message n)
  Keeps-found_amount message none = Keeps-refuse prints message
  Keeps-found_amount message (some n) = Keeps-pure

  pub Keeps-take_amount :
      (F : Floats) (in_drops : Bool) (args : List String) → Keeps P (take_amount F in_drops args)
  unfolding take_amount
  Keeps-take_amount F in_drops args =
      Keeps-pop args ▹= λ (a, args). Keeps-found_amount _ _ ▹= λ n. Keeps-pure

  Keeps-otherwise :
      (b : Bool) {message : Step W String} → Keeps P message → Keeps P (otherwise b message)
  Keeps-otherwise true h = Keeps-pure
  Keeps-otherwise false h = h ▹= λ m. Keeps-refuse prints m

  pub Keeps-known_asset :
      {message : Step W String} (c : Chain) (alias : String)
      → Keeps P message
      → Keeps P (known_asset message c alias)
  unfolding known_asset
  Keeps-known_asset c alias h = Keeps-get_state ▹= λ r. Keeps-otherwise _ h ▹ Keeps-lift _

  pub Keeps-take_asset :
      {message : String → List String → Step W String} (c : Chain) (args : List String)
      → ((alias : String) (args : List String) → Keeps P (message alias args))
      → Keeps P (take_asset message c args)
  unfolding take_asset
  Keeps-take_asset c [] h = Keeps-pure
  Keeps-take_asset c (alias ∷ args) h = Keeps-known_asset c alias (h alias args) ▹= λ a. Keeps-pure

  pub Keeps-amount_of :
      (F : Floats) (in_drops : Bool) (asset : Asset) (v : Number)
      → Keeps P (amount_of F in_drops asset v)
  unfolding amount_of
  Keeps-amount_of F in_drops asset v = Keeps-lift _ ▹= λ v. Keeps-lift _

  pub Keeps-bridge_or : (message : String) (b : Option Bridge) → Keeps P (bridge_or message b)
  Keeps-bridge_or message none = Keeps-refuse prints message
  Keeps-bridge_or message (some b) = Keeps-pure

  pub Keeps-known_bridge : (message alias : String) → Keeps P (known_bridge message alias)
  unfolding known_bridge
  Keeps-known_bridge message alias = Keeps-get_state ▹= λ r. Keeps-bridge_or message _
