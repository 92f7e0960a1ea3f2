-- ===== src/Testnet/Running.antt =====
-- Which servers run after `Network.servers_start` of bin/python/testnet.py.
use xbridge_witness.Base.{
  ℕ, ◌+◌, ◌++◌, ◌∷◌, ◌<◌, ◌≤◌, ◌≡◌, String, refl, sym, ap, ◌∙◌, Bool, true, false, ◌&&◌, ◌||◌,
  Option, none, some, List, [], ◌=ℕ◌, Result, ok, err, Bool-cases, inl, inr, arith, length,
  get_elem?, All, map,
}
use xbridge_witness.Base.Int.{ℤ}
use xbridge_witness.Testnet.Network.{Network, mem, range, get_running_status}
use xbridge_witness.Testnet.Servers.{
  Os, Outcome, and_then, started, launch, launch_if, start_one, start_each, padded_args,
  servers_start, to_run,
}
use xbridge_witness.Testnet.Invariant.{length-set_pid, left}
use xbridge_witness.Testnet.Flags.{
  ||-false, flag, mem-adjoin, found, length-padded_args, joined, passed, both, below_eq,
  range_bounded, map-range_zero, status_of,
}

-- Every program that is asked for is started.
pub record IsReliable {W : Type 0} (os : Os W) : Type 0 where
  pub starts : (cmd : List String) (w : W) → (p : ℤ) × ((os.popen cmd w).0 ≡ ok p)

-- What a round for the index `i`, or a sequence of rounds, does: `asked` says for which indexes.
record Ran (asked : ℕ → Bool) (n m : Network) : Type 0 where
  clients : length m.clients ≡ length n.clients
  run_server : m.run_server ≡ n.run_server
  running :
      (j : ℕ) → mem j m.running ≡ (mem j n.running || asked j && flag (get_elem? n.run_server j))

module _ {W : Type 0} (os : Os W) (reliable : IsReliable os) (extra_args : List (List String)) where
  Ran-started :
      (i : ℕ) (n : Network) (o : Result ℤ × W) (p : ℤ)
      → o.0 ≡ ok p
      → get_elem? n.run_server i ≡ some true
      → ((started os i n o).0 ≡ ok tt) × Ran (λ j. i =ℕ j) n (left (started os i n o))
  Ran-started i n (err e, w) p h f = cc
  Ran-started i n (ok q, w) p h f = (
    refl,
    record {
      clients = length-set_pid i q n.clients;
      run_server = refl;
      running = λ j. mem-adjoin i j n.running ∙ joined i j (mem j n.running) n.run_server f;
    },
  )

  Ran-launch :
      (i : ℕ) (n : Network) (w : W)
      → i < length n.clients
      → i < length extra_args
      → get_elem? n.run_server i ≡ some true
      → ((launch os i (get_elem? n.clients i) (get_elem? extra_args i) n w).0 ≡ ok tt)
        × Ran
            (λ j. i =ℕ j)
            n
            (left (launch os i (get_elem? n.clients i) (get_elem? extra_args i) n w))
  Ran-launch i n w lc la f =
      let (c, ec) = found n.clients i lc in
      let (args, ea) = found extra_args i la in
      let (p, s) = reliable.starts (to_run n.with_rr i c ++ args) w in
      rw (ec, ea) (Ran-started i n _ p s f)

  Ran-launch_if :
      (i : ℕ) (b : Bool) (n : Network) (w : W)
      → i < length n.clients
      → i < length extra_args
      → mem i n.running ≡ false
      → get_elem? n.run_server i ≡ some b
      → ((launch_if os extra_args i (some b) n w).0 ≡ ok tt)
        × Ran (λ j. i =ℕ j) n (left (launch_if os extra_args i (some b) n w))
  Ran-launch_if i true n w lc la r f = Ran-launch i n w lc la f
  Ran-launch_if i false n w lc la r f = (
    refl,
    record {
      clients = refl;
      run_server = refl;
      running = λ j. passed i j n.running n.run_server (rw (r, f));
    },
  )

  Ran-start_one :
      (i : ℕ) (n : Network) (w : W)
      → i < length n.clients
      → i < length extra_args
      → i < length n.run_server
      → ((start_one os extra_args i n w).0 ≡ ok tt)
        × Ran (λ j. i =ℕ j) n (left (start_one os extra_args i n w))
  unfolding start_one
  Ran-start_one i n w lc la lr = elim (Bool-cases (mem i n.running)) [
    | inl e ↦ rw e (
      refl,
      record {
        clients = refl;
        run_server = refl;
        running = λ j. passed i j n.running n.run_server (rw e);
      },
    )
    | inr e ↦ let (b, eb) = found n.run_server i lr in rw (e, eb) (Ran-launch_if i b n w lc la e eb)
  ]

  and_then-Ran :
      (i : ℕ) (is : List ℕ) (n : Network) (o : Outcome os) (f : Network → W → Outcome os)
      → (o.0 ≡ ok tt) × Ran (λ j. i =ℕ j) n (left o)
      → ((m : Network) (w : W)
          → length m.clients ≡ length n.clients
          → m.run_server ≡ n.run_server
          → ((f m w).0 ≡ ok tt) × Ran (λ j. mem j is) m (left (f m w)))
      → ((and_then os o f).0 ≡ ok tt) × Ran (λ j. mem j (i ∷ is)) n (left (and_then os o f))
  and_then-Ran i is n (err e, m, w) f h k = cc
  and_then-Ran i is n (ok u, m, w) f (_, r) k =
      let (e, q) = k m w r.clients r.run_server in
      (
        e,
        record {
          clients = q.clients ∙ r.clients;
          run_server = q.run_server ∙ r.run_server;
          running = λ j.
              q.running j
              ∙ rw (r.running j, r.run_server)
                  (both (mem j n.running) (i =ℕ j) (mem j is) (flag (get_elem? n.run_server j)));
        },
      )

  Ran-start_each :
      (is : List ℕ) (n : Network) (w : W)
      → All (λ i. i < length n.clients) is
      → length n.clients ≤ length extra_args
      → length n.run_server ≡ length n.clients
      → ((start_each os extra_args is n w).0 ≡ ok tt)
        × Ran (λ j. mem j is) n (left (start_each os extra_args is n w))
  unfolding start_each
  Ran-start_each [] n w b la lr =
      (refl, record { clients = refl; run_server = refl; running = λ j. sym (||-false _) })
  Ran-start_each (i ∷ is) n w b la lr =
      and_then-Ran i is n (start_one os extra_args i n w) (start_each os extra_args is)
        (Ran-start_one i n w b.0 (omega arith) (omega arith))
        λ m w' lm rm. Ran-start_each is m w' (rw lm b.1) (omega arith) (rw (lm, rm) lr)

-- Starting all servers of a network in which none runs returns, if the operating system starts every
-- program, and then exactly the servers run that the flags of the network allow.
pub get_running_status-servers_start :
    {W : Type 0} (os : Os W)
    → IsReliable os
    → (extra_args : Option (List (List String))) (n : Network) (w : W) → n.running ≡ []
    → length n.run_server ≡ length n.clients
    → ((servers_start os none extra_args n w).0 ≡ ok tt)
      × (get_running_status (left (servers_start os none extra_args n w)) ≡ n.run_server)
unfolding servers_start get_running_status
get_running_status-servers_start os reliable extra_args n w none_runs fit =
    let args = padded_args (length n.clients) extra_args in
    let (e, r) =
      Ran-start_each os reliable args (range 0 (length n.clients)) n w
        (below_eq (0 + length n.clients) (length n.clients) _ (omega arith)
          (range_bounded 0 (length n.clients)))
        (length-padded_args _ extra_args) fit in
    let ran = left (start_each os args (range 0 (length n.clients)) n w) in
    (
      e,
      ap (λ m. map (λ i. mem i ran.running) (range 0 m)) (r.clients ∙ sym fit)
          ∙ map-range_zero n.run_server (λ i. mem i ran.running)
              λ i b q. r.running i ∙ rw (none_runs, ← fit) (status_of n.run_server i b q),
    )
