-- ===== src/Testnet/WaitLaws.antt =====
-- When `Network.wait_for_validated_ledger` returns.
use xbridge_witness.Base.{
  ℕ, ◌+◌, ◌%◌, ◌=ℕ◌, ◌&&◌, ◌≤◌, String, >>=-eq-ok, Bool, true, false, Option, none, some, Result,
  ok, err, value_error, require, ◌≡◌, refl, ap, ◌∙◌, ◌⊎◌, inl, inr, arith, Bool-cases,
}
use xbridge_witness.Base
use xbridge_witness.Base.Int.{pos}
use xbridge_witness.Value.{Value, Fields, field, end, str, num, int, get, put, is_json_fields}
use xbridge_witness.Command.Types.{init_command}
use xbridge_witness.Command.Websocket.{get_websocket_dict}
use xbridge_witness.Session.App.{Server, App, answer, call, send_websock_command}
use xbridge_witness.Session.Requests.{◌>>=◌, ◌>>◌}
use xbridge_witness.Testnet.Wait.{
  is_proposing, complete_ledgers, is_complete, ask_info, wait_proposing, wait_complete,
  wait_for_server,
}

-- What a client returns of what the server answers with.
abbrev pub read_answer : Result Fields → Result Value
read_answer (err e) = err e
read_answer (ok j) = require (value_error "Error sending websocket command") (get "result" j)

abbrev pub count_one : App → App
count_one app = record app { next_cmd_id = app.next_cmd_id + 1 }

abbrev pub info_message : ℕ → Fields
info_message id = field "id" (num (int (pos id))) (field "command" (str "server_info") end)

module _ {W : Type 0} (server : Server W) (sleep : W → W) where
  answer-read_answer :
      (app : App) (r : Result Fields) (w : W) → answer server app (r, w) ≡ (read_answer r, app, w)
  answer-read_answer app (err e) w = refl
  answer-read_answer app (ok j) w = refl

  pub ask_info-eq :
      (app : App) (w : W)
      → ask_info server sleep app w ≡ (
          let (r, v) = server.exchange (info_message app.next_cmd_id) w in
          (read_answer r, count_one app, v))
  unfolding ask_info call init_command send_websock_command get_websocket_dict is_json_fields get
      put
  ask_info-eq app w =
      let (r, v) = server.exchange (info_message app.next_cmd_id) w in
      answer-read_answer (count_one app) r v

and_false : (b : Bool) → (b && false) ≡ false
and_false true = refl
and_false false = refl

-- What the two loops read of an answer.
abbrev pub says_proposing : Result Fields → Result Bool
says_proposing r = Base.◌>>=◌ (read_answer r) is_proposing

abbrev pub says_ledgers : Result Fields → Result (Option Value)
says_ledgers r = Base.◌>>=◌ (read_answer r) complete_ledgers

module _ {W : Type 0} (server : Server W) (sleep : W → W) where
  -- In the worlds of `P` every answer has a state and ledgers, and the answer and the pause stay in `P`.
  pub record IsCalm (P : W → Type 0) : Type 0 where
    pub proposing :
        (d : Fields) (w : W) → P w → (b : Bool) × (says_proposing (server.exchange d w).0 ≡ ok b)
    pub ledgers :
        (d : Fields) (w : W)
        → P w
        → (l : Value) × (says_ledgers (server.exchange d w).0 ≡ ok (some l))
    pub answers : (d : Fields) (w : W) → P w → P (server.exchange d w).1
    pub pauses : (w : W) → P w → P (sleep w)

  -- The answer to the message has ledgers that are complete.
  abbrev pub IsDone : Fields → W → Type 0
  IsDone d w =
      (l : Value) × (says_ledgers (server.exchange d w).0 ≡ ok (some l)) × (is_complete l ≡ true)

  -- One of the next n + 1 answers has.
  abbrev pub Within : ℕ → W → Type 0
  Within ℕ.zero w = (d : Fields) → IsDone d w
  Within (ℕ.suc n) w = (d : Fields) → IsDone d w ⊎ Within n (sleep (server.exchange d w).1)

  module _ (P : W → Type 0) (calm : IsCalm P) where
    wait_proposing-ok :
        (n : ℕ) (app : App) (w : W)
        → P w
        → (a : App) × (v : W) × (wait_proposing server sleep n app w ≡ (ok tt, a, v)) × P v
    unfolding wait_proposing ◌>>=◌ ◌>>◌
    wait_proposing-ok ℕ.zero app w p = (app, w, refl, p)
    wait_proposing-ok (ℕ.suc n) app w p =
        let d = info_message app.next_cmd_id in
        let (b, e) = calm.proposing d w p in
        let (r, f, g) = >>=-eq-ok (read_answer (server.exchange d w).0) is_proposing e in
        let q = calm.answers d w p in
        elim (Bool-cases b) [
          | inl hit ↦ (
            count_one app,
            (server.exchange d w).1,
            rw (ask_info-eq server sleep app w, f, g, hit) refl,
            q,
          )
          | inr miss ↦
              let v = sleep (server.exchange d w).1 in
              let (a, u, h, k) = wait_proposing-ok n (count_one app) v (calm.pauses _ q) in
              (a, u, rw (ask_info-eq server sleep app w, f, g, miss) h, k)
        ]

    -- A round that finds complete ledgers is the last.
    round_done :
        (n i : ℕ) (bound : Bool) (app : App) (w : W)
        → IsDone (info_message app.next_cmd_id) w
        → (wait_complete server sleep (ℕ.suc n) i bound app w).0 ≡ ok tt
    unfolding wait_complete ◌>>=◌ ◌>>◌
    round_done n i bound app w (l, e, c) =
        let d = info_message app.next_cmd_id in
        let (r, f, g) = >>=-eq-ok (read_answer (server.exchange d w).0) complete_ledgers e in
        rw (ask_info-eq server sleep app w, f, g, c) refl

    -- A round whose answer has ledgers is followed by the next, unless it is the last.
    round_goes_on :
        (n i : ℕ) (bound : Bool) (app : App) (w : W)
        → P w
        → ((wait_complete server sleep (ℕ.suc n) i bound app w).0 ≡ ok tt)
          ⊎ (wait_complete server sleep (ℕ.suc n) i bound app w
              ≡ wait_complete server sleep n
                  (i + 1)
                  true
                  (count_one app)
                  (sleep (server.exchange (info_message app.next_cmd_id) w).1))
    unfolding wait_complete ◌>>=◌ ◌>>◌
    round_goes_on n i bound app w p =
        let d = info_message app.next_cmd_id in
        let (l, e) = calm.ledgers d w p in
        let (r, f, g) = >>=-eq-ok (read_answer (server.exchange d w).0) complete_ledgers e in
        elim (Bool-cases (is_complete l)) [
          | inl c ↦ inl (rw (ask_info-eq server sleep app w, f, g, c) refl)
          | inr c ↦ inr (rw (ask_info-eq server sleep app w, f, g, c, and_false (i % 10 =ℕ 0)) refl)
        ]

    wait_complete-ok :
        (n i : ℕ) (bound : Bool) (app : App) (w : W)
        → P w
        → Within n w
        → (wait_complete server sleep (ℕ.suc n) i bound app w).0 ≡ ok tt
    wait_complete-ok ℕ.zero i bound app w p h =
        round_done ℕ.zero i bound app w (h (info_message app.next_cmd_id))
    wait_complete-ok (ℕ.suc n) i bound app w p h =
        let d = info_message app.next_cmd_id in
        elim (h d) [
          | inl done ↦ round_done (ℕ.suc n) i bound app w done
          | inr later ↦ elim (round_goes_on (ℕ.suc n) i bound app w p) [
            | inl e ↦ e
            | inr e ↦ rw e (
                wait_complete-ok n (i + 1) true (count_one app) (sleep (server.exchange d w).1)
                  (calm.pauses _ (calm.answers d w p)) later)
          ]
        ]

    -- The wait for a validated ledger returns, if every answer of the server has a state and ledgers, and
    -- from each point on one of the next 600 answers has complete ledgers; whether the server ever proposes
    -- does not matter.
    pub wait_for_server-ok :
        (app : App) (w : W)
        → P w
        → ((v : W) → P v → Within 599 v)
        → (wait_for_server server sleep app w).0 ≡ ok tt
    unfolding wait_for_server ◌>>◌ ◌>>=◌
    wait_for_server-ok app w p h =
        let (a, v, e, q) = wait_proposing-ok 600 app w p in
        rw e (wait_complete-ok 599 0 false a v q (h v q))
