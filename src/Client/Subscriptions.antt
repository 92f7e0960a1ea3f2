-- ===== src/Client/Subscriptions.antt =====
-- `RippleClient.send_subscribe_command` of bin/python/ripple_client.py.
use xbridge_witness.Base.{
  ℕ, Bool, Option, none, some, List, [], ◌∷◌, ◌++◌, ◌=ℕ◌, Result, ok, err, Exn, value_error,
  type_error, assert, require, if◌then◌else◌,
}
use xbridge_witness.Value.{Value, Fields, get, is_json_fields}
use xbridge_witness.Command.Types.{Subscribe, subscribe}
use xbridge_witness.Command.Websocket.{get_websocket_dict}

-- Websockets, by numbers: a new connection, and an exchange over a connection.
pub record Sockets (W : Type 0) : Type 0 where
  pub connect : W → Result ℕ × W
  pub exchange : ℕ → Fields → W → Result Fields × W

-- What changes: the command's own `websocket`, and the client's lists of open subscriptions and of the
-- connections that a task reads.
pub record Subscriptions : Type 0 where
  pub command : Subscribe
  pub websockets : List ℕ
  pub tasks : List ℕ

-- `l.remove(x)`; `none` is the ValueError
unfoldable pub remove : ℕ → List ℕ → Option (List ℕ)
remove x [] = none
remove x (y ∷ l) =
    let rest = remove x l in
    if y =ℕ x then some l else (elim rest [ none ↦ none | some r ↦ some (y ∷ r) ])

abbrev pub Outcome : Type 0 → Type 0 → Type 0
Outcome A W = Result A × Subscriptions × W

abbrev pub follow :
    {A B W : Type 0} → Outcome A W → (A → Subscriptions → W → Outcome B W) → Outcome B W
follow (ok a, s, w) f = f a s w
follow (err e, s, w) f = (err e, s, w)

abbrev pub not_sent : Exn
not_sent = value_error "Error sending websocket command"

-- What `list.remove` raises.
abbrev pub not_in_list : Exn
not_in_list = value_error "list.remove(x): x not in list"

module _ {W : Type 0} (sockets : Sockets W) where
  abbrev pub answered : Subscriptions → Result Fields × W → Outcome Value W
  answered s (err e, w) = (err e, s, w)
  answered s (ok j, w) = (require not_sent (get "result" j), s, w)

  abbrev pub transmit : ℕ → Fields → Subscriptions → W → Outcome Value W
  transmit ws d s w =
      if is_json_fields d then answered s (sockets.exchange ws d w) else (err type_error, s, w)

  -- `self._send_websock_command(cmd, ws)` for the command with the id `cmd_id`
  unfoldable pub send_over : ℕ → ℕ → Subscriptions → W → Outcome Value W
  unfolding get_websocket_dict
  send_over cmd_id ws s w =
      follow (get_websocket_dict (record { cmd_id = cmd_id; body = subscribe s.command }), s, w)
        (transmit ws)

  abbrev pub opened : Subscriptions → Result ℕ × W → Outcome ℕ W
  opened s (err e, w) = (err e, s, w)
  opened s (ok ws, w) = (ok ws, record s { websockets = s.websockets ++ ws ∷ [] }, w)

  abbrev pub open_websocket : Bool → Subscriptions → W → Outcome ℕ W
  open_websocket callback s w = follow (assert callback, s, w) λ u s w. opened s (sockets.connect w)

  abbrev pub set_websocket : Option ℕ → Subscriptions → Subscriptions
  set_websocket ws s = record s { command = record s.command { websocket = ws } }

  abbrev pub after_send : ℕ → Value → Subscriptions → W → Outcome Value W
  after_send ws r s w = (ok r, record (set_websocket (some ws) s) { tasks = s.tasks ++ ws ∷ [] }, w)

  abbrev pub after_open : ℕ → ℕ → Subscriptions → W → Outcome Value W
  after_open cmd_id ws s w = follow (send_over cmd_id ws s w) (after_send ws)

  -- The command is subscribed: a task reads the connection from then on.
  abbrev pub subscribe_with : ℕ → Bool → Subscriptions → W → Outcome Value W
  subscribe_with cmd_id callback s w = follow (open_websocket callback s w) (after_open cmd_id)

  abbrev pub closed : Value → Option (List ℕ) → Subscriptions → W → Outcome Value W
  closed r none s w = (err not_in_list, s, w)
  closed r (some l) s w = (ok r, set_websocket none (record s { websockets = l }), w)

  abbrev pub after_leave : ℕ → Value → Subscriptions → W → Outcome Value W
  after_leave ws r s w = closed r (remove ws s.websockets) s w

  -- The command is unsubscribed. (`cmd.websocket.close()` makes a coroutine that nothing runs.)
  abbrev pub unsubscribe_from : ℕ → ℕ → Subscriptions → W → Outcome Value W
  unsubscribe_from cmd_id ws s w = follow (send_over cmd_id ws s w) (after_leave ws)

  abbrev pub send_by : Option ℕ → ℕ → Bool → Subscriptions → W → Outcome Value W
  send_by none cmd_id callback s w = subscribe_with cmd_id callback s w
  send_by (some ws) cmd_id callback s w = unsubscribe_from cmd_id ws s w

  -- `RippleClient.send_subscribe_command`
  unfoldable pub send_subscribe_command : ℕ → Bool → Subscriptions → W → Outcome Value W
  unfolding send_over remove
  send_subscribe_command cmd_id callback s w = send_by s.command.websocket cmd_id callback s w
