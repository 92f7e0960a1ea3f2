-- ===== src/Testnet/StopAll.antt =====
-- `Network.servers_stop` of bin/python/testnet.py without indexes, and with an index that is not running.
use xbridge_witness.Base.{
  ℕ, ◌<◌, ◌≡◌, refl, sym, ap, ◌∙◌, subst, false, none, some, List, [], ◌∷◌, Result, ok, err,
  Bool-cases, inl, inr, length, All, key_error, arith,
}
use xbridge_witness.Base.Int.{ℤ, negsuc}
use xbridge_witness.Testnet.Network.{Network, mem, discard, find_process, delete_process}
use xbridge_witness.Testnet.Servers.{
  Os, Outcome, and_then, set_pid, stopped, tell_one, tell_each, reap_one, reap_each, servers_stop,
  text_of,
}
use xbridge_witness.Testnet.Invariant.{indexes, length-set_pid, IsSound, left}
use xbridge_witness.Testnet.Running.{IsReliable}
use xbridge_witness.Testnet.Flags.{found, =ℕ-refl}
use xbridge_witness.Testnet.Stop.{discard_all, Told-tell_one, Told-tell_each, servers_stop-IsSound}

delete_process-head : (i : ℕ) (p : ℤ) (ps : List (ℕ × ℤ)) → delete_process i ((i, p) ∷ ps) ≡ ps
unfolding delete_process
delete_process-head i p ps = rw (=ℕ-refl i)

discard_all_self : (s : List ℕ) → discard_all s s ≡ []
unfolding discard
discard_all_self [] = refl
discard_all_self (i ∷ s) = rw (=ℕ-refl i) (discard_all_self s)

module _ {W : Type 0} (os : Os W) where
  and_then-returns :
      (o : Outcome os) (f : Network → W → Outcome os)
      → o.0 ≡ ok tt
      → (f (left o) o.2).0 ≡ ok tt
      → (and_then os o f).0 ≡ ok tt
  and_then-returns (ok u, m, w) f h k = k
  and_then-returns (err e, m, w) f h k = cc

  stopped-returns :
      (i : ℕ) (n : Network) (o : Result ℤ × W) (p : ℤ) → o.0 ≡ ok p → (stopped os i n o).0 ≡ ok tt
  stopped-returns i n (ok q, w) p h = refl
  stopped-returns i n (err e, w) p h = cc

  tell_one-returns :
      IsReliable os
      → (i : ℕ) (n : Network) (w : W) → i < length n.clients
      → (tell_one os i n w).0 ≡ ok tt
  unfolding tell_one
  tell_one-returns reliable i n w lt = elim (Bool-cases (mem i n.running)) [
    | inr e ↦ rw e
    | inl e ↦
        let (c, q) = found n.clients i lt in
        let (p, s) =
          reliable.starts (c.exe ∷ "--conf" ∷ text_of c.config.file_name ∷ "stop" ∷ []) w in
        rw (e, q) (stopped-returns i n _ p s)
  ]

  tell_each-returns :
      IsReliable os
      → (is : List ℕ) (n : Network) (w : W) → All (λ i. i < length n.clients) is
      → (tell_each os is n w).0 ≡ ok tt
  unfolding tell_each
  tell_each-returns reliable [] n w b = refl
  tell_each-returns reliable (i ∷ is) n w b =
      let o = tell_one os i n w in
      let e = tell_one-returns reliable i n w b.0 in
      and_then-returns o (tell_each os is) e (
        tell_each-returns reliable is (left o) o.2
          (subst (λ cs. All (λ i. i < length cs) is) (sym (Told-tell_one os i n w e).clients) b.1))

  reap_each-returns :
      (ps : List (ℕ × ℤ)) (n : Network) (w : W)
      → All (λ i. i < length n.clients) (indexes ps)
      → (reap_each os (indexes ps) (record n { processes = ps }) w).0 ≡ ok tt
  unfolding reap_each reap_one find_process
  reap_each-returns [] n w b = refl
  reap_each-returns ((i, p) ∷ ps) n w b =
      let (c, q) = found n.clients i b.0 in
      rw (=ℕ-refl i, q, delete_process-head i p ps)
        (reap_each-returns ps (record n { clients = set_pid i (negsuc 0) n.clients }) (os.wait p w)
          (subst (λ m. All (λ i. i < m) (indexes ps)) (sym (length-set_pid i (negsuc 0) n.clients))
            b.1))

  -- Stopping all servers of a network whose running servers are those that have a process returns, if
  -- the operating system starts every program, and then no server runs and no process is left.
  pub servers_stop-none :
      IsReliable os
      → (n : Network) (w : W) → IsSound n
      → ((servers_stop os none n w).0 ≡ ok tt)
        × ((left (servers_stop os none n w)).running ≡ [])
        × (indexes (left (servers_stop os none n w)).processes ≡ [])
  unfolding servers_stop
  servers_stop-none reliable n w s =
      let o = tell_each os n.running n w in
      let e = tell_each-returns reliable n.running n w s.bounded in
      let t = Told-tell_each os n.running n w e in
      let r =
        reap_each-returns (left o).processes (left o) o.2
          (rw (t.processes, t.clients, ← s.agree) s.bounded) in
      let same : n.running ≡ indexes (left o).processes = s.agree ∙ ap indexes (sym t.processes) in
      let returns =
        and_then-returns o (reap_each os n.running) e
          (subst (λ is. (reap_each os is (left o) o.2).0 ≡ ok tt) (sym same) r) in
      let (sound, gone) = servers_stop-IsSound os none n w s returns in
      let empty = gone ∙ discard_all_self n.running in (returns, empty, sym sound.agree ∙ empty)

  absent : (i : ℕ) (ps : List (ℕ × ℤ)) → mem i (indexes ps) ≡ false → find_process i ps ≡ none
  unfolding find_process
  absent i [] h = refl
  absent i ((j, p) ∷ ps) h = ground (arith, absent i ps)

  -- Stopping a server that does not run raises a KeyError, in a network whose running servers are
  -- those that have a process.
  pub servers_stop-key_error :
      (i : ℕ) (n : Network) (w : W)
      → IsSound n
      → mem i n.running ≡ false
      → (servers_stop os (some (i ∷ [])) n w).0 ≡ err key_error
  unfolding servers_stop tell_each tell_one reap_each reap_one
  servers_stop-key_error i n w s h =
      rw (h, absent i n.processes (subst (λ r. mem i r ≡ false) s.agree h))
