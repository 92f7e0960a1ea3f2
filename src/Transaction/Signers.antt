-- ===== src/Transaction/Signers.antt =====
-- Signer lists: the constructor of `SignerListSet` and the entries that are sent.
use xbridge_witness.Base.{
  ℕ, ◌+◌, String, ◌≡◌, ◌≢◌, ◌↔◌, ◌⊎◌, inl, inr, Result-cases, refl, Option, none, some, List, [],
  ◌∷◌, ok, err, length, length-replicate, arith, ap, ◌∙◌, Exn, replicate,
}
use xbridge_witness.Base.Int.{ℤ, pos}
use xbridge_witness.Value.{Items, nil, cons}
use xbridge_witness.Transaction.Types.{SignerListSet, init_signer_list_set, weights_error}
use xbridge_witness.Transaction.Encode.{signer_entries}

abbrev pub count_items : Items → ℕ
count_items nil = 0
count_items (cons v vs) = count_items vs + 1

count-signer_entries :
    (ks : List String) (ws : List ℤ)
    → length ws ≡ length ks
    → count_items (signer_entries ks ws) ≡ length ks
unfolding signer_entries
count-signer_entries [] ws h = refl
count-signer_entries (k ∷ ks) [] h = absurd (omega arith)
count-signer_entries (k ∷ ks) (w ∷ ws) h = omega (arith, count-signer_entries ks ws)

-- One for each key.
abbrev ones : List String → List ℤ
ones [] = []
ones (k ∷ ks) = pos 1 ∷ ones ks

-- The weights that a constructor is to have: those that are given, if there are any, or one for each key.
abbrev pub given : List String → Option (List ℤ) → List ℤ
given keys none = ones keys
given keys (some []) = ones keys
given keys (some (w ∷ ws)) = w ∷ ws

replicate-ones : (ks : List String) → replicate (length ks) (pos 1) ≡ ones ks
replicate-ones [] = refl
replicate-ones (k ∷ ks) = ap (λ l. pos 1 ∷ l) (replicate-ones ks)

weights_fit :
    (keys : List String) (weights : Option (List ℤ)) (quorum : ℤ) (s : SignerListSet)
    → init_signer_list_set keys weights quorum ≡ ok s
    → (s.keys ≡ keys)
      × (s.quorum ≡ quorum)
      × (s.weights ≡ given keys weights)
      × (length s.weights ≡ length s.keys)
unfolding init_signer_list_set
weights_fit keys none quorum s h =
    ground (arith, length-replicate (length keys) (pos 1), replicate-ones keys)
weights_fit keys (some []) quorum s h =
    ground (arith, length-replicate (length keys) (pos 1), replicate-ones keys)
weights_fit keys (some (w ∷ ws)) quorum s h = ground arith

-- A signer list that the constructor returns has the keys, the quorum and the weights that it was given,
-- or the weight one for each key, and one weight for each key, so that `zip` drops no key from the entries.
init_signer_list_set_sound :
    (keys : List String) (weights : Option (List ℤ)) (quorum : ℤ) (s : SignerListSet)
    → init_signer_list_set keys weights quorum ≡ ok s
    → (s.keys ≡ keys)
      × (s.quorum ≡ quorum)
      × (s.weights ≡ given keys weights)
      × (length s.weights ≡ length s.keys)
      × (count_items (signer_entries s.keys s.weights) ≡ length keys)
init_signer_list_set_sound keys weights quorum s h =
    let (k, q, g, l) = weights_fit keys weights quorum s h in
    (k, q, g, l, count-signer_entries s.keys s.weights l ∙ ap length k)

-- The constructor raises exactly where weights are given, at least one, and not one for each key.
init_signer_list_set_raises :
    (keys : List String) (w : ℤ) (ws : List ℤ) (quorum : ℤ)
    → ((e : Exn) × (init_signer_list_set keys (some (w ∷ ws)) quorum ≡ err e))
      ↔ (length (w ∷ ws) ≢ length keys)
unfolding init_signer_list_set
init_signer_list_set_raises keys w ws quorum =
    (λ (e, h) q. ground arith, λ h. (weights_error, ground arith))

-- At least one weight is given, and not one for each key.
abbrev pub Misfits : List String → Option (List ℤ) → Type 0
Misfits keys none = ⊥
Misfits keys (some []) = ⊥
Misfits keys (some (w ∷ ws)) = length (w ∷ ws) ≢ length keys

Misfits-of_err :
    (keys : List String) (weights : Option (List ℤ)) (quorum : ℤ) (e : Exn)
    → init_signer_list_set keys weights quorum ≡ err e
    → Misfits keys weights
unfolding init_signer_list_set
Misfits-of_err keys none quorum e h = ground arith
Misfits-of_err keys (some []) quorum e h = ground arith
Misfits-of_err keys (some (w ∷ ws)) quorum e h =
    (init_signer_list_set_raises keys w ws quorum).0 (e, h)

-- The constructor of a signer list returns one with the keys and the quorum that it was given, and with the
-- weights that it was given, in their order, or the weight one for each key if there are none; it has one weight
-- for each key, so that no key is dropped from the entries. Or it raises, and then weights are given, at
-- least one, and not one for each key.
pub init_signer_list_set-cases :
    (keys : List String) (weights : Option (List ℤ)) (quorum : ℤ)
    → ((s : SignerListSet) × (init_signer_list_set keys weights quorum ≡ ok s)
        × (s.keys ≡ keys)
        × (s.quorum ≡ quorum)
        × (s.weights ≡ given keys weights)
        × (length s.weights ≡ length s.keys)
        × (count_items (signer_entries s.keys s.weights) ≡ length keys))
      ⊎ ((e : Exn) × (init_signer_list_set keys weights quorum ≡ err e) × Misfits keys weights)
init_signer_list_set-cases keys weights quorum =
    elim (Result-cases (init_signer_list_set keys weights quorum)) [
      | inl (s, h) ↦
          let (k, q, g, l, n) = init_signer_list_set_sound keys weights quorum s h in
          inl (s, h, k, q, g, l, n)
      | inr (e, h) ↦ inr (e, h, Misfits-of_err keys weights quorum e h)
    ]
