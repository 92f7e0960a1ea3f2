-- ===== src/Repl/OffersLaws.antt =====
-- What the completions of bin/python/interactive.py offer.
use xbridge_witness.Base.{
  ℕ, String, Bool, true, false, Option, none, some, List, [], ◌∷◌, ◌++◌, map, All, ok, ◌>>=◌, ◌=ℕ◌,
  ◌≡◌, refl, ◌==◌, ◌≤◌, length, if◌then◌else◌, arith, Bool-cases, inl, inr,
}
use xbridge_witness.Base.Words.{has_prefix}
use xbridge_witness.Value.{Account}
use xbridge_witness.Keys.KeyManager.{known_accounts}
use xbridge_witness.Keys.AssetAliases.{known_aliases}
use xbridge_witness.Session.App.{App}
use xbridge_witness.Repl.State.{Repl}
use xbridge_witness.Repl.Offers.{
  Offers, keep_if, having_prefix, matching_names, same_name, with_name, with_names, complete_chain,
  complete_unit, chains_named, nicknames, asset_names, complete_account, complete_asset,
  both_offers, chain_word, arg_num,
}

abbrev pub IsName : Option String → Type 0
IsName none = ⊥
IsName (some s) = Unit

-- A name that starts with the text.
abbrev pub Extends : String → Option String → Type 0
Extends text none = ⊥
Extends text (some s) = has_prefix text s ≡ true

-- The names are offered, and each starts with the text.
pub record Gives (text : String) (o : Offers) : Type 0 where
  pub names : List (Option String)
  pub offered : o ≡ ok names
  pub extend : All (Extends text) names

All-append {ℓ κ} :
    {A : Type ℓ} (P : A → Type κ) (xs ys : List A) → All P xs → All P ys → All P (xs ++ ys)
All-append P [] ys h g = g
All-append P (x ∷ xs) ys h g = (h.0, All-append P xs ys h.1 g)

All-map-some : (ns : List String) → All IsName (map some ns)
All-map-some [] = tt
All-map-some (n ∷ ns) = (tt, All-map-some ns)

All-keep_if :
    (text : String) (b : Bool) (c : String) (cs : List (Option String))
    → has_prefix text c ≡ b
    → All (Extends text) cs
    → All (Extends text) (keep_if b (some c) cs)
All-keep_if text true c cs e h = (e, h)
All-keep_if text false c cs e h = h

Gives-having_prefix :
    (text : String) (cs : List (Option String)) → All IsName cs → Gives text (having_prefix text cs)
unfolding having_prefix
Gives-having_prefix text [] h = record { names = []; offered = refl; extend = tt }
Gives-having_prefix text (none ∷ cs) h = absurd h.0
Gives-having_prefix text (some c ∷ cs) h =
    let g = Gives-having_prefix text cs h.1 in
    record {
      names = keep_if (has_prefix text c) (some c) g.names;
      offered = rw g.offered refl;
      extend = All-keep_if text (has_prefix text c) c g.names refl g.extend;
    }

All-Extends-nil : (cs : List (Option String)) → All IsName cs → All (Extends "") cs
unfolding has_prefix
All-Extends-nil [] h = tt
All-Extends-nil (none ∷ cs) h = absurd h.0
All-Extends-nil (some c ∷ cs) h = (refl, All-Extends-nil cs h.1)

pub Gives-matching_names :
    (text : String) (cs : List (Option String))
    → All IsName cs
    → Gives text (matching_names text cs)
Gives-matching_names String.[] cs h = record {
  names = cs;
  offered = refl;
  extend = All-Extends-nil cs h;
}
Gives-matching_names (String.◌∷◌ c text) cs h = Gives-having_prefix (String.◌∷◌ c text) cs h

All-with_name :
    (n : Option String) (s : List (Option String))
    → IsName n
    → All IsName s
    → All IsName (with_name n s)
unfolding with_name
All-with_name n [] h g = (h, tt)
All-with_name n (m ∷ ms) h g = elim (Bool-cases (same_name m n)) [
  | inl e ↦ rw e g
  | inr e ↦ rw e (g.0, All-with_name n ms h g.1)
]

All-with_names :
    (ns s : List (Option String)) → All IsName ns → All IsName s → All IsName (with_names ns s)
unfolding with_names
All-with_names [] s h g = g
All-with_names (n ∷ ns) s h g = All-with_names ns (with_name n s) h.1 (All-with_name n s h.0 g)

abbrev pub nicknames_of : App → List (Option String)
nicknames_of a = map (λ (k : Account). k.nickname) (known_accounts a.key_manager)

-- Every account of the two address books has a nickname.
pub record IsNamed (r : Repl) : Type 0 where
  pub main : All IsName (nicknames_of r.mc_app)
  pub side : All IsName (nicknames_of r.sc_app)

All-chains_named :
    (c : Option String) (r : Repl) → IsNamed r → All IsName (nicknames (chains_named c r))
unfolding nicknames
All-chains_named none r h =
    All-append IsName (nicknames_of r.mc_app) _ h.main
      (All-append IsName (nicknames_of r.sc_app) [] h.side tt)
All-chains_named (some c) r h = elim (Bool-cases (c == "mainchain")) [
  | inl e ↦ rw e (All-append IsName (nicknames_of r.mc_app) [] h.main tt)
  | inr e ↦ elim (Bool-cases (c == "sidechain")) [
    | inl f ↦ rw (e, f) (All-append IsName (nicknames_of r.sc_app) [] h.side tt)
    | inr f ↦
        rw (e, f)
          (All-append IsName (nicknames_of r.mc_app) _ h.main
            (All-append IsName (nicknames_of r.sc_app) [] h.side tt))
  ]
]

All-asset_names : (apps : List App) → All IsName (asset_names apps)
unfolding asset_names
All-asset_names [] = tt
All-asset_names (a ∷ apps) =
    All-append IsName (map some (known_aliases a.asset_aliases)) _
      (All-map-some (known_aliases a.asset_aliases)) (All-asset_names apps)

pub Gives-account :
    (text : String) (c : Option String) (r : Repl)
    → IsNamed r
    → Gives text (complete_account text c r)
unfolding complete_account
Gives-account text c r h =
    Gives-matching_names text _ (All-with_names _ [] (All-chains_named c r h) tt)

pub Gives-asset :
    (text : String) (c : Option String) (r : Repl) → Gives text (complete_asset text c r)
unfolding complete_asset
Gives-asset text c r =
    Gives-matching_names text _ (All-with_names _ [] (All-asset_names (chains_named c r)) tt)

pub Gives-chain : (text : String) → Gives text (complete_chain text)
Gives-chain text = Gives-matching_names text _ (tt, (tt, tt))

pub Gives-unit : (text : String) → Gives text (complete_unit text)
Gives-unit text = Gives-matching_names text _ (tt, (tt, tt))

pub Gives-nothing : (text : String) → Gives text (ok [])
Gives-nothing text = record { names = []; offered = refl; extend = tt }

pub Gives-both_offers :
    (text : String) (x y : Offers) → Gives text x → Gives text y → Gives text (both_offers x y)
Gives-both_offers text x y h g = record {
  names = h.names ++ g.names;
  offered = rw (h.offered, g.offered) refl;
  extend = All-append (Extends text) h.names g.names h.extend g.extend;
}

pub Gives-if :
    (text : String) (b : Bool) (x y : Offers)
    → (b ≡ true → Gives text x)
    → Gives text y
    → Gives text (if b then x else y)
Gives-if text true x y h g = h refl
Gives-if text false x y h g = g

pub Gives-chain_word :
    (text : String) (args : List String) (f : String → Offers)
    → 2 ≤ length args
    → ((c : String) → Gives text (f c))
    → Gives text (chain_word args >>= f)
Gives-chain_word text [] f l h = absurd (omega arith)
Gives-chain_word text (a ∷ []) f l h = absurd (omega arith)
Gives-chain_word text (a ∷ b ∷ args) f l h = h b

pub two_words :
    (text : String) (args : List String) (k : ℕ)
    → (arg_num text args =ℕ k) ≡ true
    → 3 ≤ k
    → 2 ≤ length args
two_words text args k e l = ground arith

pub two_args : (args : List String) (k : ℕ) → (length args =ℕ k) ≡ true → 3 ≤ k → 2 ≤ length args
two_args args k e l = ground arith
