-- ===== src/Client/SubscriptionLaws.antt =====
-- Subscribing and then unsubscribing, in bin/python/ripple_client.py.
use xbridge_witness.Base.{
  ℕ, ◌≡◌, refl, ap, sym, subst, ◌∙◌, Bool, true, false, Option, none, some, List, [], ◌∷◌, ◌++◌,
  Result, ok, err, ok-injective, Bool-cases, inl, inr, arith,
}
use xbridge_witness.Value.{Value, Fields, is_json_fields}
use xbridge_witness.Command.Types.{subscribe}
use xbridge_witness.Command.Websocket.{get_websocket_dict}
use xbridge_witness.Client.Subscriptions.{
  Sockets, Subscriptions, remove, Outcome, follow, answered, transmit, send_over, opened,
  open_websocket, set_websocket, after_open, after_send, after_leave, subscribe_with, send_by,
  closed, unsubscribe_from, send_subscribe_command,
}

remove-append : (x : ℕ) (l : List ℕ) → remove x l ≡ none → remove x (l ++ x ∷ []) ≡ some l
unfolding remove
remove-append x [] h = ground arith
remove-append x (y ∷ l) h = ground (arith, remove-append x l)

some-injective : {A : Type 0} {a b : A} → some a ≡ some b → a ≡ b
some-injective e = cc

follow-ok :
    {A B W : Type 0} (o : Outcome A W) (f : A → Subscriptions → W → Outcome B W) {b : B}
    → (follow o f).0 ≡ ok b
    → (a : A) × (o.0 ≡ ok a) × (follow o f ≡ f a o.1 o.2)
follow-ok (ok a, s, w) f h = (a, refl, refl)
follow-ok (err e, s, w) f h = cc

module _ {W : Type 0} (sockets : Sockets W) where
  answered-keeps : (s : Subscriptions) (r : Result Fields × W) → (answered sockets s r).1 ≡ s
  answered-keeps s (ok j, w) = refl
  answered-keeps s (err e, w) = refl

  transmit-keeps :
      (ws : ℕ) (d : Fields) (s : Subscriptions) (w : W) → (transmit sockets ws d s w).1 ≡ s
  transmit-keeps ws d s w = elim (Bool-cases (is_json_fields d)) [
    | inl e ↦ rw e (answered-keeps s (sockets.exchange ws d w))
    | inr e ↦ rw e
  ]

  sent-keeps :
      (r : Result Fields) (ws : ℕ) (s : Subscriptions) (w : W)
      → (follow (r, s, w) (transmit sockets ws)).1 ≡ s
  sent-keeps (ok d) ws s w = transmit-keeps ws d s w
  sent-keeps (err e) ws s w = refl

  send_over-keeps :
      (cmd_id ws : ℕ) (s : Subscriptions) (w : W) → (send_over sockets cmd_id ws s w).1 ≡ s
  unfolding send_over
  send_over-keeps cmd_id ws s w =
      sent-keeps (get_websocket_dict (record { cmd_id = cmd_id; body = subscribe s.command })) ws s
        w

  opened-state :
      (s : Subscriptions) (r : Result ℕ × W) (v : ℕ)
      → (opened sockets s r).0 ≡ ok v
      → ((opened sockets s r).1 ≡ record s { websockets = s.websockets ++ v ∷ [] }) × (r.0 ≡ ok v)
  opened-state s (ok x, w) v h =
      (ap (λ x. record s { websockets = s.websockets ++ x ∷ [] }) (ok-injective h), h)
  opened-state s (err e, w) v h = cc

  open_websocket-state :
      (callback : Bool) (s : Subscriptions) (w : W) (v : ℕ)
      → (open_websocket sockets callback s w).0 ≡ ok v
      → ((open_websocket sockets callback s w).1 ≡ record s { websockets = s.websockets ++ v ∷ [] })
        × ((sockets.connect w).0 ≡ ok v)
  open_websocket-state true s w v h = opened-state s (sockets.connect w) v h
  open_websocket-state false s w v h = cc

  closed-state :
      (r : Value) (s : Subscriptions) (w : W) (l : List ℕ) {m : Option (List ℕ)}
      → m ≡ some l
      → (closed sockets r m s w).1 ≡ set_websocket sockets none (record s { websockets = l })
  closed-state r s w l {m = none} e = cc
  closed-state r s w l {m = some k} e =
      ap (λ k. set_websocket sockets none (record s { websockets = k })) (some-injective e)

  -- The state after a new subscription, over the connection `v`.
  abbrev subscribed : ℕ → Subscriptions → Subscriptions
  subscribed v s = record (set_websocket sockets (some v) s) { tasks = s.tasks ++ v ∷ [] }

  abbrev with_socket : ℕ → Subscriptions → Subscriptions
  with_socket v s = record s { websockets = s.websockets ++ v ∷ [] }

  -- A new subscription that returns.
  subscribe_with-state :
      (cmd_id : ℕ) (callback : Bool) (s : Subscriptions) (w : W) (r : Value) (ws : ℕ)
      → (sockets.connect w).0 ≡ ok ws
      → (subscribe_with sockets cmd_id callback s w).0 ≡ ok r
      → (subscribe_with sockets cmd_id callback s w).1 ≡ subscribed ws (with_socket ws s)
  subscribe_with-state cmd_id callback s w r ws c h =
      let o = open_websocket sockets callback s w in
      let (v, p, q) = follow-ok o (after_open sockets cmd_id) h in
      let (e, d) = open_websocket-state callback s w v p in
      let sent = send_over sockets cmd_id v o.1 o.2 in
      let (a, p', q') = follow-ok sent (after_send sockets v) (sym (ap (λ o. o.0) q) ∙ h) in
      ap (λ o. o.1) (q ∙ q')
      ∙ ap (subscribed v) (send_over-keeps cmd_id v o.1 o.2 ∙ e)
      ∙ ap (λ v. subscribed v (with_socket v s)) (ok-injective (sym d ∙ c))

  -- An unsubscription that returns.
  unsubscribe_from-state :
      (cmd_id ws : ℕ) (s : Subscriptions) (w : W) (r : Value) (l : List ℕ)
      → remove ws s.websockets ≡ some l
      → (unsubscribe_from sockets cmd_id ws s w).0 ≡ ok r
      → (unsubscribe_from sockets cmd_id ws s w).1
        ≡ set_websocket sockets none (record s { websockets = l })
  unsubscribe_from-state cmd_id ws s w r l m h =
      let sent = send_over sockets cmd_id ws s w in
      let (a, p, q) = follow-ok sent (after_leave sockets ws) h in
      ap (λ o. o.1) q
      ∙ closed-state a (sent.1) sent.2 l
          (ap (λ s. remove ws s.websockets) (send_over-keeps cmd_id ws s w) ∙ m)
      ∙ ap (λ s. set_websocket sockets none (record s { websockets = l }))
          (send_over-keeps cmd_id ws s w)

  left_after :
      (cmd_id ws : ℕ) (again : Bool) (s : Subscriptions) (w : W) (r : Value)
      → remove ws s.websockets ≡ none
      → (t : Subscriptions) → t ≡ subscribed ws (with_socket ws s)
      → (send_subscribe_command sockets cmd_id again t w).0 ≡ ok r
      → (send_subscribe_command sockets cmd_id again t w).1
        ≡ record s { command = record s.command { websocket = none }; tasks = s.tasks ++ ws ∷ [] }
  unfolding send_subscribe_command
  left_after cmd_id ws again s w r new t e =
      subst
        (λ t.
          (send_subscribe_command sockets cmd_id again t w).0 ≡ ok r
          → (send_subscribe_command sockets cmd_id again t w).1 ≡ record s {
            command = record s.command { websocket = none };
            tasks = s.tasks ++ ws ∷ [];
          })
        (sym e)
        (unsubscribe_from-state cmd_id ws (subscribed ws (with_socket ws s)) w r s.websockets
          (remove-append ws s.websockets new))

  -- Subscribing and then unsubscribing with the same command, where both return and the connection is
  -- a new one, leaves the command and the list of open subscriptions as they were. The task that reads
  -- the connection stays in the list of tasks.
  pub send_subscribe_command-twice :
      (first second ws : ℕ) (callback again : Bool) (s : Subscriptions) (w v : W) (r q : Value)
      → s.command.websocket ≡ none
      → (sockets.connect w).0 ≡ ok ws
      → remove ws s.websockets ≡ none
      → (send_subscribe_command sockets first callback s w).0 ≡ ok r
      → (send_subscribe_command sockets second again
          (send_subscribe_command sockets first callback s w).1
          v).0
        ≡ ok q
      → (send_subscribe_command sockets second again
          (send_subscribe_command sockets first callback s w).1
          v).1
        ≡ record s { tasks = s.tasks ++ ws ∷ [] }
  unfolding send_subscribe_command
  send_subscribe_command-twice first second ws callback again s w v r q idle c new h k =
      let one = ap (λ o. send_by sockets o first callback s w) idle in
      let e =
        ap (λ o. o.1) one
        ∙ subscribe_with-state first callback s w r ws c (sym (ap (λ o. o.0) one) ∙ h) in
      left_after second ws again s v q new _ e k
      ∙ ap
          (λ o. record s {
            command = record s.command { websocket = o };
            tasks = s.tasks ++ ws ∷ [];
          })
          (sym idle)
