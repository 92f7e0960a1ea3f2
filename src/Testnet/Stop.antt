-- ===== src/Testnet/Stop.antt =====
-- What `Network.servers_stop` of bin/python/testnet.py leaves.
use xbridge_witness.Base.{
  ℕ, ◌<◌, ◌≡◌, refl, sym, ap, ◌∙◌, Option, none, some, List, [], ◌∷◌, Result, ok, err, Bool-cases,
  inl, inr, length, get_elem?, All,
}
use xbridge_witness.Base.Int.{ℤ, negsuc}
use xbridge_witness.Testnet.Network.{Client, Network, mem, discard, find_process, delete_process}
use xbridge_witness.Testnet.Servers.{
  Os, Outcome, and_then, stopped, tell, tell_one, tell_each, forget, reap, reap_one, reap_each,
  chosen, servers_stop,
}
use xbridge_witness.Testnet.Invariant.{
  indexes, indexes-delete_process, discard-absent, All-discard, length-set_pid, IsSound, left,
}

-- The set without each of the indexes.
abbrev pub discard_all : List ℕ → List ℕ → List ℕ
discard_all [] s = s
discard_all (i ∷ is) s = discard_all is (discard i s)

All-discard_all : (P : ℕ → Type 0) (is s : List ℕ) → All P s → All P (discard_all is s)
All-discard_all P [] s h = h
All-discard_all P (i ∷ is) s h = All-discard_all P is (discard i s) (All-discard P i s h)

-- What the first loop leaves if it does not raise.
pub record Told (is : List ℕ) (n m : Network) : Type 0 where
  pub running : m.running ≡ discard_all is n.running
  pub processes : m.processes ≡ n.processes
  pub clients : m.clients ≡ n.clients

-- What the second loop leaves if it does not raise.
record Reaped (is : List ℕ) (n m : Network) : Type 0 where
  pub running : m.running ≡ n.running
  pub processes : indexes m.processes ≡ discard_all is (indexes n.processes)
  pub clients : length m.clients ≡ length n.clients

module _ {W : Type 0} (os : Os W) where
  Told-stopped :
      (i : ℕ) (n : Network) (o : Result ℤ × W)
      → (stopped os i n o).0 ≡ ok tt
      → Told (i ∷ []) n (left (stopped os i n o))
  Told-stopped i n (err e, w) h = cc
  Told-stopped i n (ok p, w) h = record { running = refl; processes = refl; clients = refl }

  Told-tell :
      (i : ℕ) (c : Option Client) (n : Network) (w : W)
      → (tell os i c n w).0 ≡ ok tt
      → Told (i ∷ []) n (left (tell os i c n w))
  Told-tell i none n w h = cc
  Told-tell i (some c) n w h = Told-stopped i n _ h

  pub Told-tell_one :
      (i : ℕ) (n : Network) (w : W)
      → (tell_one os i n w).0 ≡ ok tt
      → Told (i ∷ []) n (left (tell_one os i n w))
  unfolding tell_one
  Told-tell_one i n w h = elim (Bool-cases (mem i n.running)) [
    | inl e ↦ rw e (Told-tell i (get_elem? n.clients i) n w (rw e at h))
    | inr e ↦
        rw e (record {
          running = sym (discard-absent i n.running e);
          processes = refl;
          clients = refl;
        })
  ]

  -- The part of a sequence that is left, if the whole returns.
  and_then-ok :
      (P : Network → Network → Type 0) (o : Outcome os) (f : Network → W → Outcome os) (n : Network)
      → (and_then os o f).0 ≡ ok tt
      → (o.0 ≡ ok tt → (f (left o) o.2).0 ≡ ok tt → P n (left (f (left o) o.2)))
      → P n (left (and_then os o f))
  and_then-ok P (err e, m, w) f n h k = cc
  and_then-ok P (ok u, m, w) f n h k = k refl h

  pub Told-tell_each :
      (is : List ℕ) (n : Network) (w : W)
      → (tell_each os is n w).0 ≡ ok tt
      → Told is n (left (tell_each os is n w))
  unfolding tell_each
  Told-tell_each [] n w h = record { running = refl; processes = refl; clients = refl }
  Told-tell_each (i ∷ is) n w h =
      and_then-ok (Told (i ∷ is)) (tell_one os i n w) (tell_each os is) n h λ a b.
        let one = Told-tell_one i n w a in
        let rest = Told-tell_each is (left (tell_one os i n w)) (tell_one os i n w).2 b in
        record {
          running = rest.running ∙ ap (discard_all is) one.running;
          processes = rest.processes ∙ one.processes;
          clients = rest.clients ∙ one.clients;
        }

  Reaped-forget :
      (i : ℕ) (c : Option Client) (n : Network) (w : W)
      → (forget os i c n w).0 ≡ ok tt
      → Reaped [] n (left (forget os i c n w))
  Reaped-forget i none n w h = cc
  Reaped-forget i (some c) n w h = record {
    running = refl;
    processes = refl;
    clients = length-set_pid i (negsuc 0) n.clients;
  }

  Reaped-reap :
      (i : ℕ) (p : Option ℤ) (n : Network) (w : W)
      → (reap os i p n w).0 ≡ ok tt
      → Reaped (i ∷ []) n (left (reap os i p n w))
  Reaped-reap i none n w h = cc
  Reaped-reap i (some p) n w h =
      let r =
        Reaped-forget i (get_elem? n.clients i)
          (record n { processes = delete_process i n.processes }) (os.wait p w) h in
      record {
        running = r.running;
        processes = r.processes ∙ indexes-delete_process i n.processes;
        clients = r.clients;
      }

  Reaped-reap_each :
      (is : List ℕ) (n : Network) (w : W)
      → (reap_each os is n w).0 ≡ ok tt
      → Reaped is n (left (reap_each os is n w))
  unfolding reap_each reap_one
  Reaped-reap_each [] n w h = record { running = refl; processes = refl; clients = refl }
  Reaped-reap_each (i ∷ is) n w h =
      and_then-ok (Reaped (i ∷ is)) (reap_one os i n w) (reap_each os is) n h λ a b.
        let one = Reaped-reap i (find_process i n.processes) n w a in
        let rest = Reaped-reap_each is (left (reap_one os i n w)) (reap_one os i n w).2 b in
        record {
          running = rest.running ∙ one.running;
          processes = rest.processes ∙ ap (discard_all is) one.processes;
          clients = rest.clients ∙ one.clients;
        }

  -- Where stopping servers of a network whose running servers are those that have a process returns,
  -- the running servers are those from before with each that was asked for taken out, and they are
  -- again those that have a process.
  pub servers_stop-IsSound :
      (server_indexes : Option (List ℕ)) (n : Network) (w : W)
      → IsSound n
      → (servers_stop os server_indexes n w).0 ≡ ok tt
      → IsSound (left (servers_stop os server_indexes n w))
        × ((left (servers_stop os server_indexes n w)).running
            ≡ discard_all (chosen os server_indexes n) n.running)
  unfolding servers_stop
  servers_stop-IsSound server_indexes n w s h =
      let is = chosen os server_indexes n in
      let o = tell_each os is n w in
      and_then-ok (λ n m. IsSound m × (m.running ≡ discard_all is n.running)) o (reap_each os is) n
        h
        λ a b.
          let t = Told-tell_each is n w a in
          let r = Reaped-reap_each is (left o) o.2 b in
          let e = r.running ∙ t.running in
          (
            record {
              agree =
                  e
                  ∙ ap (discard_all is) (s.agree ∙ ap indexes (sym t.processes))
                  ∙ sym r.processes;
              bounded =
                  rw (e, r.clients, t.clients)
                    (All-discard_all (λ i. i < length n.clients) is n.running s.bounded);
            },
            e,
          )
