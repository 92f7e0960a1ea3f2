-- ===== src/Repl/Show.antt =====
-- `do_addressbook`, `do_ious`, `do_quit`, `do_q` and `do_EOF` of bin/python/interactive.py.
use xbridge_witness.Base.{
  String, Bool, true, not, ◌&&◌, Option, none, some, List, [], ◌∷◌, if◌then◌else◌, length, ltb,
  Result,
}
use xbridge_witness.Base.Text.{truthy}
use xbridge_witness.Base.Words.{words, concat}
use xbridge_witness.Keys.KeyManager.{is_alias, to_string}
use xbridge_witness.Keys.AssetAliases.{is_asset_alias, assets_to_string}
use xbridge_witness.Session.App.{App}
use xbridge_witness.Repl.State.{
  Chain, mainchain, sidechain, Shell, Step, ◌>>=◌, ◌>>◌, pure, print, unless, leave, get_state,
  lift, app_of,
}
use xbridge_witness.Repl.Args.{chain_of, usage}

abbrev pub chain_name : Chain → String
chain_name mainchain = "mainchain"
chain_name sidechain = "sidechain"

abbrev chosen : String → List String → Option Chain → List Chain × List String
chosen a args none = (mainchain ∷ sidechain ∷ [], a ∷ args)
chosen a args (some c) = (c ∷ [], args)

-- The chains that a command is about: the one that the first word names, or both.
unfoldable pub optional_chain : List String → List Chain × List String
optional_chain [] = (mainchain ∷ sidechain ∷ [], [])
optional_chain (a ∷ args) = chosen a args (chain_of a)

abbrev nickname_of : List String → Option String
nickname_of [] = none
nickname_of (a ∷ args) = some a

-- `if nickname and not known(nickname): print(message)`
abbrev pub warn_unknown :
    {W : Type 0} → (String → Bool) → (String → String) → Option String → Step W (Unit {0})
warn_unknown known message none = pure tt
warn_unknown known message (some n) =
    if truthy n && not (known n) then print (message n) else pure tt

-- Both commands print, for each chain, a warning about the alias, and a table.
abbrev pub show_table :
    {W : Type 0}
    → (App → String → Bool)
    → (App → Option String → Result String)
    → String
    → Option String
    → Chain
    → Step W (Unit {0})
show_table known table message nickname c = do
  r ← get_state
  warn_unknown (known (app_of c r))
      (λ n. concat (n ∷ " is not part of " ∷ chain_name c ∷ message ∷ [])) nickname
  t ← lift (table (app_of c r) nickname)
  print (concat (chain_name c ∷ ":\n" ∷ t ∷ []))
  print "\n"

unfoldable pub show_tables :
    {W : Type 0}
    → (App → String → Bool)
    → (App → Option String → Result String)
    → String
    → Option String
    → List Chain
    → Step W (Unit {0})
show_tables known table message nickname [] = pure tt
show_tables known table message nickname (c ∷ cs) = do
  show_table known table message nickname c
  show_tables known table message nickname cs

-- `BridgeRepl.do_quit`, and `do_q` and `do_EOF`, which do the same
abbrev pub do_quit : {W : Type 0} → Step W (Unit {0})
do_quit = print "Thank you for using RiplRepl. Goodbye.\n\n" >> leave true

module _ {W : Type 0} (shell : Shell W) where
  -- `BridgeRepl.do_addressbook`
  unfoldable pub do_addressbook : String → Step W (Unit {0})
  do_addressbook line = do
    let args = words line
    unless (not (ltb 2 (length args))) (usage "Too many arguments to addressbook command.")
    let (chains, args) = optional_chain args
    show_tables (λ app n. is_alias n app.key_manager)
        (λ app n. to_string shell.render_accounts n app.key_manager) "'s address book."
        (nickname_of args) chains

  -- `BridgeRepl.do_ious`
  unfoldable pub do_ious : String → Step W (Unit {0})
  do_ious line = do
    let args = words line
    unless (not (ltb 2 (length args))) (usage "Too many arguments to ious command.")
    let (chains, args) = optional_chain args
    show_tables (λ app n. is_asset_alias n app.asset_aliases)
        (λ app n. assets_to_string shell.render_assets n app.asset_aliases) "'s asset aliases."
        (nickname_of args) chains
