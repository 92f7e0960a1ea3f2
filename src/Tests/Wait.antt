-- ===== src/Tests/Wait.antt =====
-- The wait for a validated ledger at a concrete server.
use xbridge_witness.Base.{
  ℕ, ◌+◌, ◌*◌, ◌≤◌, String, true, false, none, some, [], ◌∷◌, ok, err, name_error, ◌≡◌, refl, inl,
  inr, List, arith, ◌=ℕ◌,
}
use xbridge_witness.Value.{Fields, field, end, str, dict, is_json_fields, get, put}
use xbridge_witness.Keys.AssetAliases.{init_asset_aliases}
use xbridge_witness.Keys.KeyManager.{init_key_manager}
use xbridge_witness.Command.Types.{init_command}
use xbridge_witness.Command.Websocket.{get_websocket_dict}
use xbridge_witness.Session.App.{Server, App, call, send_websock_command}
use xbridge_witness.Session.Requests.{◌>>=◌, ◌>>◌}
use xbridge_witness.Testnet.Wait.{
  is_proposing, complete_ledgers, ask_info, wait_complete, wait_for_server,
  wait_for_validated_ledger,
}
use xbridge_witness.Testnet.WaitLaws.{IsCalm, Within, wait_for_server-ok}
use xbridge_witness.Testnet.WaitBounds.{wait_for_validated_ledger-AtMost, one_if}

abbrev ledgers_at : ℕ → String
ledgers_at ℕ.zero = "empty"
ledgers_at (ℕ.suc n) = "1-2"

abbrev info_at : ℕ → Fields
info_at n =
    field "result"
      (dict (
        field "info"
          (dict
            (field "server_state" (str "full") (field "complete_ledgers" (str (ledgers_at n)) end)))
          end))
      end

-- It never proposes, and has complete ledgers from its second answer on.
abbrev server : Server ℕ
server = record { exchange = λ d n. (ok (info_at n), n + 1) }

abbrev app : App
app = record {
  standalone = true;
  key_manager = init_key_manager;
  asset_aliases = init_asset_aliases;
  next_cmd_id = 1;
}

calm : IsCalm server (λ n. n) (λ n. Unit)
unfolding is_proposing complete_ledgers get
calm = record {
  proposing = λ d n p. (false, refl);
  ledgers = λ d n p. (str (ledgers_at n), refl);
  answers = λ d n p. tt;
  pauses = λ n p. tt;
}

soon : (n : ℕ) → Unit {0} → Within server (λ n. n) 599 n
unfolding complete_ledgers get
soon ℕ.zero p d = inr λ d. inl (str "1-2", refl, refl)
soon (ℕ.suc n) p d = inl (str "1-2", refl, refl)

wait_for_server-ok_example : (wait_for_server server (λ n. n) app 0).0 ≡ ok tt
wait_for_server-ok_example = wait_for_server-ok server (λ n. n) (λ n. Unit) calm app 0 tt soon

-- A server whose messages are not counted
abbrev uncounted : Server ℕ
uncounted = record { exchange = λ d n. (ok (info_at 1), n) }

abbrev both : List (Server ℕ)
both = server ∷ uncounted ∷ []

wait_for_validated_ledger-AtMost_example :
    ((wait_for_validated_ledger both (λ n. n) none app 0).2 ≤ 0 + 1200)
    × ((i : ℕ)
        → (wait_for_validated_ledger both (λ n. n) (some i) app 0).2 ≤ 0 + 1200 * one_if (i =ℕ 0))
wait_for_validated_ledger-AtMost_example =
    wait_for_validated_ledger-AtMost both (λ n. n) (λ n. n) 0
      (λ d w. omega arith, (λ d w. omega arith, tt)) (λ w. omega arith) app 0

abbrev silent : Server ℕ
silent = record { exchange = λ d n. (ok (field "result" (dict end) end), n + 1) }

-- An answer without an info in the first round: the print reads a variable that is not bound.
unbound_test : (wait_complete silent (λ n. n) 600 0 false app 0).0 ≡ err name_error
unfolding wait_complete ◌>>=◌ ◌>>◌ ask_info call init_command send_websock_command
    get_websocket_dict is_json_fields get put complete_ledgers
unbound_test = refl
