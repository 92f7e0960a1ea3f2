-- ===== src/Client/Retry.antt =====
-- `RippleClient._send_command_line_command` of bin/python/ripple_client.py.
use xbridge_witness.Base.{
  ℕ, ◌≡◌, ◌≤◌, ◌⊎◌, inl, inr, refl, ◌∙◌, arith, Bool, true, false, String, List, ◌∷◌, Result, ok,
  err, ◌>>=◌,
}
use xbridge_witness.Value.{Value, Fields, item}
use xbridge_witness.Command.CommandLine.{Arg, text}

-- `subprocess.check_output`, with the JSON object that its output decodes to.
pub record Shell (W : Type 0) : Type 0 where
  pub check_output : List Arg → W → Result Fields × W

-- The command that is run.
abbrev pub client_line : String → String → List Arg → List Arg
client_line exe config_file args =
    text exe ∷ text "-q" ∷ text "--conf" ∷ text config_file ∷ text "--" ∷ args

next : {P : Type 0} {n k : ℕ} → P ⊎ (ℕ.suc k ≡ ℕ.suc n) → P ⊎ (k ≡ n)
next (inl p) = inl p
next (inr e) = inr (omega arith)

module _ {W : Type 0} (shell : Shell W) where
  -- One run, up to the `result` of its output.
  abbrev pub run_once : List Arg → W → Result Value × W
  run_once line w = let (r, w') = shell.check_output line w in (r >>= item "result", w')

  -- What the loop does after a run: it returns its result, or goes on.
  abbrev pub or_again : Result Value × W → (W → Result Value × W) → Result Value × W
  or_again (ok v, w) again = (ok v, w)
  or_again (err e, w) again = again w

  -- The loop, with the number of retries that are left: a run that raises is tried again, and the
  -- last one passes its exception on. The sleep between the runs is left out.
  unfoldable pub retry : ℕ → List Arg → W → Result Value × W
  retry ℕ.zero line w = run_once line w
  retry (ℕ.suc n) line w = or_again (run_once line w) (retry n line)

  abbrev pub max_retries : ℕ
  max_retries = 4

  -- `RippleClient._send_command_line_command`
  unfoldable pub send_command_line_command : String → String → List Arg → W → Result Value × W
  unfolding retry
  send_command_line_command exe config_file args w =
      retry max_retries (client_line exe config_file args) w

  -- The run after `k` others, whatever those do.
  abbrev pub nth_run : ℕ → List Arg → W → Result Value × W
  nth_run ℕ.zero line w = run_once line w
  nth_run (ℕ.suc k) line w = nth_run k line (run_once line w).1

  abbrev pub returns : Result Value → Bool
  returns (ok v) = true
  returns (err e) = false

  -- The first `k` runs raise.
  abbrev pub AllRaise : ℕ → List Arg → W → Type 0
  AllRaise ℕ.zero line w = Unit
  AllRaise (ℕ.suc k) line w =
      (returns (run_once line w).0 ≡ false) × AllRaise k line (run_once line w).1

  or_again-returns :
      (o : Result Value × W) (again : W → Result Value × W)
      → returns o.0 ≡ true
      → or_again o again ≡ o
  or_again-returns (ok v, w) again h = refl
  or_again-returns (err e, w) again h = cc

  or_again-raises :
      (o : Result Value × W) (again : W → Result Value × W)
      → returns o.0 ≡ false
      → or_again o again ≡ again o.1
  or_again-raises (ok v, w) again h = cc
  or_again-raises (err e, w) again h = refl

  retry-nth_run :
      (n k : ℕ) (line : List Arg) (w : W)
      → k ≤ n
      → AllRaise k line w
      → (returns (nth_run k line w).0 ≡ true) ⊎ (k ≡ n)
      → retry n line w ≡ nth_run k line w
  unfolding retry
  retry-nth_run ℕ.zero ℕ.zero line w le a c = refl
  retry-nth_run (ℕ.suc n) ℕ.zero line w le a (inl r) =
      or_again-returns (run_once line w) (retry n line) r
  retry-nth_run (ℕ.suc n) ℕ.zero line w le a (inr e) = absurd (omega arith)
  retry-nth_run ℕ.zero (ℕ.suc k) line w le a c = absurd (omega arith)
  retry-nth_run (ℕ.suc n) (ℕ.suc k) line w le a c =
      or_again-raises (run_once line w) (retry n line) a.0
      ∙ retry-nth_run n k line (run_once line w).1 (omega arith) a.1 (next c)

  -- If the first `k` runs raise, at most four, and the next returns or is the fifth, then that run's
  -- result is what is returned or raised, and nothing is run after it.
  pub send_command_line_command-nth_run :
      (exe config_file : String) (args : List Arg) (w : W) (k : ℕ)
      → k ≤ 4
      → AllRaise k (client_line exe config_file args) w
      → (returns (nth_run k (client_line exe config_file args) w).0 ≡ true) ⊎ (k ≡ 4)
      → send_command_line_command exe config_file args w
        ≡ nth_run k (client_line exe config_file args) w
  unfolding send_command_line_command
  send_command_line_command-nth_run exe config_file args w k le a c =
      retry-nth_run 4 k (client_line exe config_file args) w le a c
