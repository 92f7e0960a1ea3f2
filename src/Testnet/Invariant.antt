-- ===== src/Testnet/Invariant.antt =====
-- The servers that count as running are those that have a process.
use xbridge_witness.Base.{
  ℕ, ◌<◌, ◌≡◌, String, refl, sym, ap, ◌∙◌, Bool, true, false, Option, none, some, List, [], ◌∷◌,
  ◌=ℕ◌, Result, ok, err, Bool-cases, inl, inr, arith, length, get_elem?, All,
}
use xbridge_witness.Base.Int.{ℤ}
use xbridge_witness.Testnet.Network.{
  Client, Network, mem, adjoin, discard, put_process, delete_process,
}
use xbridge_witness.Testnet.Servers.{
  Os, Outcome, and_then, set_pid, started, launch, launch_if, start_one, start_each, all_indexes,
  servers_start,
}

abbrev pub indexes : List (ℕ × ℤ) → List ℕ
indexes [] = []
indexes ((i, p) ∷ ps) = i ∷ indexes ps

indexes-put_process :
    (i : ℕ) (p : ℤ) (ps : List (ℕ × ℤ)) → indexes (put_process i p ps) ≡ adjoin i (indexes ps)
unfolding put_process adjoin
indexes-put_process i p [] = refl
indexes-put_process i p ((j, q) ∷ ps) = ground (arith, indexes-put_process i p ps)

pub indexes-delete_process :
    (i : ℕ) (ps : List (ℕ × ℤ)) → indexes (delete_process i ps) ≡ discard i (indexes ps)
unfolding delete_process discard
indexes-delete_process i [] = refl
indexes-delete_process i ((j, q) ∷ ps) = ground (arith, indexes-delete_process i ps)

All-adjoin : (P : ℕ → Type 0) (i : ℕ) (s : List ℕ) → P i → All P s → All P (adjoin i s)
unfolding adjoin
All-adjoin P i [] p h = (p, tt)
All-adjoin P i (j ∷ s) p h = elim (Bool-cases (j =ℕ i)) [
  | inl e ↦ rw e h
  | inr e ↦ rw e (h.0, All-adjoin P i s p h.1)
]

pub All-discard : (P : ℕ → Type 0) (i : ℕ) (s : List ℕ) → All P s → All P (discard i s)
unfolding discard
All-discard P i [] h = tt
All-discard P i (j ∷ s) h = elim (Bool-cases (j =ℕ i)) [
  | inl e ↦ rw e h.1
  | inr e ↦ rw e (h.0, All-discard P i s h.1)
]

pub discard-absent : (i : ℕ) (s : List ℕ) → mem i s ≡ false → discard i s ≡ s
unfolding discard
discard-absent i [] h = refl
discard-absent i (j ∷ s) h = ground (arith, discard-absent i s)

pub lt_of_get_elem? {ℓ} :
    {A : Type ℓ} (xs : List A) (i : ℕ) {x : A} → get_elem? xs i ≡ some x → i < length xs
lt_of_get_elem? [] i e = cc
lt_of_get_elem? (y ∷ xs) ℕ.zero e = omega arith
lt_of_get_elem? (y ∷ xs) (ℕ.suc i) e = omega (arith, lt_of_get_elem? xs i e)

pub length-set_pid : (i : ℕ) (p : ℤ) (cs : List Client) → length (set_pid i p cs) ≡ length cs
length-set_pid i p [] = refl
length-set_pid ℕ.zero p (c ∷ cs) = refl
length-set_pid (ℕ.suc i) p (c ∷ cs) = ap ℕ.suc (length-set_pid i p cs)

-- The running servers are those that have a process, and they have a client.
pub record IsSound (n : Network) : Type 0 where
  pub agree : n.running ≡ indexes n.processes
  pub bounded : All (λ i. i < length n.clients) n.running

-- What an outcome leaves of the network.
abbrev pub left : {W : Type 0} → Result (Unit {0}) × Network × W → Network
left (r, n, w) = n

module _ {W : Type 0} (os : Os W) where
  and_then-IsSound :
      (o : Outcome os) (f : Network → W → Outcome os)
      → IsSound (left o)
      → ((n : Network) (w : W) → IsSound n → IsSound (left (f n w)))
      → IsSound (left (and_then os o f))
  and_then-IsSound (ok u, n, w) f h k = k n w h
  and_then-IsSound (err e, n, w) f h k = h

  started-IsSound :
      (i : ℕ) (n : Network) (o : Result ℤ × W)
      → i < length n.clients
      → IsSound n
      → IsSound (left (started os i n o))
  started-IsSound i n (err e, w) lt h = h
  started-IsSound i n (ok p, w) lt h = record {
    agree = ap (adjoin i) h.agree ∙ sym (indexes-put_process i p n.processes);
    bounded = rw (length-set_pid i p n.clients) (All-adjoin _ i n.running lt h.bounded);
  }

  launch-IsSound :
      (i : ℕ) (c : Option Client) (args : Option (List String)) (n : Network) (w : W)
      → get_elem? n.clients i ≡ c
      → IsSound n
      → IsSound (left (launch os i c args n w))
  launch-IsSound i none args n w e h = h
  launch-IsSound i (some c) none n w e h = h
  launch-IsSound i (some c) (some args) n w e h =
      started-IsSound i n _ (lt_of_get_elem? n.clients i e) h

  launch_if-IsSound :
      (extra_args : List (List String)) (i : ℕ) (b : Option Bool) (n : Network) (w : W)
      → IsSound n
      → IsSound (left (launch_if os extra_args i b n w))
  launch_if-IsSound extra_args i none n w h = h
  launch_if-IsSound extra_args i (some false) n w h = h
  launch_if-IsSound extra_args i (some true) n w h =
      launch-IsSound i (get_elem? n.clients i) (get_elem? extra_args i) n w refl h

  start_one-IsSound :
      (extra_args : List (List String)) (i : ℕ) (n : Network) (w : W)
      → IsSound n
      → IsSound (left (start_one os extra_args i n w))
  unfolding start_one
  start_one-IsSound extra_args i n w h = elim (Bool-cases (mem i n.running)) [
    | inl e ↦ rw e h
    | inr e ↦ rw e (launch_if-IsSound extra_args i (get_elem? n.run_server i) n w h)
  ]

  start_each-IsSound :
      (extra_args : List (List String)) (is : List ℕ) (n : Network) (w : W)
      → IsSound n
      → IsSound (left (start_each os extra_args is n w))
  unfolding start_each
  start_each-IsSound extra_args [] n w h = h
  start_each-IsSound extra_args (i ∷ is) n w h =
      and_then-IsSound (start_one os extra_args i n w) (start_each os extra_args is)
        (start_one-IsSound extra_args i n w h) (start_each-IsSound extra_args is)

  -- Starting servers, also where it raises half-way, keeps the running servers those that have a
  -- process.
  pub servers_start-IsSound :
      (server_indexes : Option (List ℕ)) (extra_args : Option (List (List String))) (n : Network)
      (w : W)
      → IsSound n
      → IsSound (left (servers_start os server_indexes extra_args n w))
  unfolding servers_start
  servers_start-IsSound server_indexes extra_args n w h =
      start_each-IsSound _ (all_indexes os server_indexes n) n w h
