-- ===== src/Tests/Client.antt =====
-- The theorems on the client at concrete inputs.
use xbridge_witness.Base.{
  ℕ, ◌+◌, ◌≡◌, inl, refl, arith, true, none, some, [], ◌∷◌, ok, err, type_error, leb, if◌then◌else◌,
}
use xbridge_witness.Value.{Fields, end, put, str, get, is_json_fields}
use xbridge_witness.Command.Types.{Subscribe}
use xbridge_witness.Command.CommandLine.{text}
use xbridge_witness.Client.Retry.{
  Shell, client_line, nth_run, send_command_line_command, send_command_line_command-nth_run,
}
use xbridge_witness.Client.Subscriptions.{Sockets, Subscriptions, send_subscribe_command}
use xbridge_witness.Client.SubscriptionLaws.{send_subscribe_command-twice}

reply : Fields
unfolding put
reply = put "result" (str "ok") end

-- A shell whose command works from the third run on.
abbrev late_shell : Shell ℕ
late_shell = record {
  check_output = λ line w. (if leb 2 w then ok reply else err type_error, w + 1);
}

send_command_line_command-nth_run_example :
    send_command_line_command late_shell "rippled" "a.cfg" (text "stop" ∷ []) 0
    ≡ nth_run late_shell 2 (client_line "rippled" "a.cfg" (text "stop" ∷ [])) 0
unfolding reply get
send_command_line_command-nth_run_example =
    send_command_line_command-nth_run late_shell "rippled" "a.cfg" (text "stop" ∷ []) 0 2
      (omega arith) (refl, (refl, tt)) (inl refl)

-- Connections that are numbered.
abbrev sockets : Sockets ℕ
sockets = record { connect = λ w. (ok w, w + 1); exchange = λ ws d w. (ok reply, w) }

abbrev streams : Subscribe
streams = record {
  streams = some ("ledger" ∷ []);
  accounts = none;
  account_history_account = none;
  accounts_proposed = none;
  books = none;
  url = none;
  url_username = none;
  url_password = none;
  websocket = none;
}

abbrev open_ones : Subscriptions
open_ones = record { command = streams; websockets = 3 ∷ []; tasks = 3 ∷ [] }

send_subscribe_command-twice_example :
    (send_subscribe_command sockets 2 true
      (send_subscribe_command sockets 1 true open_ones 5).1
      6).1
    ≡ record open_ones { tasks = 3 ∷ 5 ∷ [] }
unfolding reply get is_json_fields send_subscribe_command
send_subscribe_command-twice_example =
    send_subscribe_command-twice sockets 1 2 5 true true open_ones 5 6 (str "ok") (str "ok") refl
      refl refl refl refl
