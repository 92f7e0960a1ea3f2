-- ===== src/Testnet/WaitBounds.antt =====
-- How many messages `Network.wait_for_validated_ledger` sends to a server.
use xbridge_witness.Value.{Fields}
use xbridge_witness.Base.{
  ℕ, ◌+◌, ◌*◌, ◌≤◌, Bool, true, false, none, some, List, [], ◌∷◌, Result, ok, err, ◌≡◌, refl, arith,
  length, ◌=ℕ◌, ◌<◌,
}
use xbridge_witness.Session.App.{Server, App, Outcome, follow}
use xbridge_witness.Session.Requests.{Requests, ◌>>=◌, ◌>>◌, lift}
use xbridge_witness.Testnet.Network.{range}
use xbridge_witness.Testnet.Wait.{
  is_proposing, complete_ledgers, Round, found, again, round_of, stop_if, end_or_go_on, pause,
  ask_info, wait_proposing, wait_complete, wait_for_server, wait_at, wait_each,
  wait_for_validated_ledger,
}
use xbridge_witness.Testnet.WaitLaws.{ask_info-eq}

-- The count of the world grows by at most `k`, whether a function returns or raises.
pub record AtMost {W A : Type 0} (count : W → ℕ) (k : ℕ) (m : Requests W A) : Type 0 where
  pub bound : (app : App) (w : W) → count (m app w).2 ≤ count w + k

-- A message to the server adds at most `k` to the count.
abbrev pub Adds : {W : Type 0} → (W → ℕ) → ℕ → Server W → Type 0
Adds {W} count k server = (d : Fields) (w : W) → count (server.exchange d w).1 ≤ count w + k

module _ {W : Type 0} (count : W → ℕ) where
  AtMost-follow :
      {A B : Type 0} (k : ℕ) (o : Outcome A W) (f : A → Requests W B)
      → ((a : A) → AtMost count k (f a))
      → count (follow o f).2 ≤ count o.2 + k
  AtMost-follow k (ok a, app, w) f h = (h a).bound app w
  AtMost-follow k (err e, app, w) f h = omega arith

  pub AtMost->>= :
      {A B : Type 0} (j k : ℕ) (m : Requests W A) (f : A → Requests W B)
      → AtMost count j m
      → ((a : A) → AtMost count k (f a))
      → AtMost count (j + k) (m >>= f)
  unfolding ◌>>=◌
  AtMost->>= j k m f h g = record {
    bound = λ app w. omega (arith, h.bound app w, AtMost-follow k (m app w) f g);
  }

  pub AtMost->> :
      {B : Type 0} (j k : ℕ) (m : Requests W (Unit {0})) (f : Requests W B)
      → AtMost count j m
      → AtMost count k f
      → AtMost count (j + k) (m >> f)
  unfolding ◌>>◌
  AtMost->> j k m f h g = AtMost->>= j k m (λ u. f) h (λ u. g)

  AtMost-lift : {A : Type 0} (k : ℕ) (r : Result A) → AtMost count k (lift {W = W} r)
  AtMost-lift k r = record { bound = λ app w. omega arith }

  AtMost-weaker :
      {A : Type 0} (j k : ℕ) (m : Requests W A) → j ≤ k → AtMost count j m → AtMost count k m
  AtMost-weaker j k m l h = record { bound = λ app w. omega (arith, l, h.bound app w) }

one_more : (n e : ℕ) → e + (0 + (0 + n * e)) ≤ ℕ.suc n * e
one_more n e = omega arith

module _ {W : Type 0} (server : Server W) (sleep : W → W) (count : W → ℕ) (e : ℕ) where
  -- Neither a pause nor anything but a message changes the count.
  AtMost-pause : ((w : W) → count (sleep w) ≤ count w) → AtMost count 0 (pause server sleep)
  AtMost-pause calm = record { bound = λ app w. omega (arith, calm w) }

  AtMost-ask_info : Adds count e server → AtMost count e (ask_info server sleep)
  AtMost-ask_info h = record { bound = λ app w. rw (ask_info-eq server sleep app w) (h _ w) }

  AtMost-stop_if :
      (k : ℕ) (b : Bool) (rest : Unit {0} → Requests W (Unit {0}))
      → AtMost count k (rest tt)
      → AtMost count k (stop_if server sleep b rest)
  AtMost-stop_if k true rest h = AtMost-lift count k (ok tt)
  AtMost-stop_if k false rest h = h

  AtMost-end_or_go_on :
      (k : ℕ) (o : Round) (rest : Bool → Requests W (Unit {0}))
      → ((b : Bool) → AtMost count k (rest b))
      → AtMost count k (end_or_go_on server sleep o rest)
  AtMost-end_or_go_on k found rest h = AtMost-lift count k (ok tt)
  AtMost-end_or_go_on k (again b) rest h = h b

  module _ (adds : Adds count e server) (calm : (w : W) → count (sleep w) ≤ count w) where
    AtMost-wait_proposing : (n : ℕ) → AtMost count (n * e) (wait_proposing server sleep n)
    unfolding wait_proposing
    AtMost-wait_proposing ℕ.zero = AtMost-lift count (0 * e) (ok tt)
    AtMost-wait_proposing (ℕ.suc n) =
        AtMost-weaker count (e + (0 + (0 + n * e))) (ℕ.suc n * e) _ (one_more n e) (
          AtMost->>= count e (0 + (0 + n * e)) _ _ (AtMost-ask_info adds) λ r.
            AtMost->>= count 0 (0 + n * e) _ _ (AtMost-lift count 0 (is_proposing r)) λ b.
              AtMost-stop_if (0 + n * e) b _
                (AtMost->> count 0 (n * e) _ _ (AtMost-pause calm) (AtMost-wait_proposing n)))

    AtMost-wait_complete :
        (n i : ℕ) (bound : Bool) → AtMost count (n * e) (wait_complete server sleep n i bound)
    unfolding wait_complete
    AtMost-wait_complete ℕ.zero i bound = AtMost-lift count (0 * e) _
    AtMost-wait_complete (ℕ.suc n) i bound =
        AtMost-weaker count (e + (0 + (0 + n * e))) (ℕ.suc n * e) _ (one_more n e) (
          AtMost->>= count e (0 + (0 + n * e)) _ _ (AtMost-ask_info adds) λ r.
            AtMost->>= count 0 (0 + n * e) _ _ (AtMost-lift count 0 (complete_ledgers r)) λ l.
              AtMost-end_or_go_on (0 + n * e) (round_of bound l) _ λ b.
                AtMost->> count 0 (n * e) _ _
                  (AtMost->> count 0 0 _ _ (AtMost-lift count 0 _) (AtMost-pause calm))
                  (AtMost-wait_complete n (i + 1) b))

    AtMost-wait_for_server : AtMost count (1200 * e) (wait_for_server server sleep)
    unfolding wait_for_server
    AtMost-wait_for_server = AtMost-weaker count (600 * e + 600 * e) (1200 * e) _ (omega arith) (
        AtMost->> count (600 * e) (600 * e) _ _ (AtMost-wait_proposing 600)
          (AtMost-wait_complete 600 0 false))

abbrev pub one_if : Bool → ℕ
one_if true = 1
one_if false = 0

-- How often a number stands in a list.
abbrev occurs : ℕ → List ℕ → ℕ
occurs j [] = 0
occurs j (i ∷ is) = one_if (i =ℕ j) + occurs j is

occurs-range : (j n i : ℕ) → (occurs j (range i n) ≤ 1) × (j < i → occurs j (range i n) ≡ 0)
occurs-range j ℕ.zero i = (omega arith, λ l. refl)
occurs-range j (ℕ.suc n) i = let (a, b) = occurs-range j n (i + 1) in ground (arith, a, b)

-- A message to the server of index `j` adds at most one to the count, and one to another server nothing;
-- the first of the servers has index `i`.
abbrev pub CountsOnly : {W : Type 0} → (W → ℕ) → ℕ → ℕ → List (Server W) → Type 0
CountsOnly count j i [] = Unit
CountsOnly count j i (s ∷ ss) = Adds count (one_if (i =ℕ j)) s × CountsOnly count j (i + 1) ss

module _ {W : Type 0} (sleep : W → W) (count : W → ℕ) (calm : (w : W) → count (sleep w) ≤ count w)
    (j : ℕ) where
  AtMost-nth :
      (ss : List (Server W)) (i first k : ℕ)
      → CountsOnly count j first ss
      → k ≡ first + i
      → AtMost count (1200 * one_if (k =ℕ j)) (wait_at ss sleep i)
  unfolding ◌>>=◌
  AtMost-nth [] i first k h e = record { bound = λ app w. omega arith }
  AtMost-nth (s ∷ ss) ℕ.zero first k h e =
      let p : k ≡ first = omega (arith, e) in
      rw p (record { bound = (AtMost-wait_for_server s sleep count _ h.0 calm).bound })
  AtMost-nth (s ∷ ss) (ℕ.suc i) first k h e = record {
    bound = (AtMost-nth ss i (first + 1) k h.1 (omega (arith, e))).bound;
  }

  AtMost-wait_each :
      (ss : List (Server W))
      → CountsOnly count j 0 ss
      → (is : List ℕ) → AtMost count (1200 * occurs j is) (wait_each ss sleep is)
  unfolding wait_each
  AtMost-wait_each ss h [] = AtMost-lift count 0 (ok tt)
  AtMost-wait_each ss h (i ∷ is) =
      AtMost-weaker count (1200 * one_if (i =ℕ j) + 1200 * occurs j is) _ _ (omega arith) (
        AtMost->> count (1200 * one_if (i =ℕ j)) (1200 * occurs j is) _ _
          (AtMost-nth ss i 0 i h (omega arith)) (AtMost-wait_each ss h is))

-- Where a message to one of the servers adds at most one to a count, and neither a message to another server
-- nor a pause adds to it, waiting for all servers adds at most 1200, whatever the servers answer, whether the
-- wait returns or raises; so does waiting for that server, and waiting for another adds nothing.
pub wait_for_validated_ledger-AtMost :
    {W : Type 0} (servers : List (Server W)) (sleep : W → W) (count : W → ℕ) (j : ℕ)
    → CountsOnly count j 0 servers
    → ((w : W) → count (sleep w) ≤ count w)
    → (app : App) (w : W)
    → (count (wait_for_validated_ledger servers sleep none app w).2 ≤ count w + 1200)
      × ((i : ℕ)
          → count (wait_for_validated_ledger servers sleep (some i) app w).2
            ≤ count w + 1200 * one_if (i =ℕ j))
unfolding wait_for_validated_ledger
wait_for_validated_ledger-AtMost servers sleep count j h calm app w = (
  (AtMost-weaker count _ 1200 _ (omega (arith, (occurs-range j (length servers) 0).0))
        (AtMost-wait_each sleep count calm j servers h (range 0 (length servers)))).bound
      app w,
  λ i. (AtMost-nth sleep count calm j servers i 0 i h (omega arith)).bound app w,
)
