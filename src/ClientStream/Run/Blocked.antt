-- ===== src/ClientStream/Run/Blocked.antt =====
-- A ReadMsg that waits for the caller reads no Pong: the heartbeat of a stream whose received payloads
-- are not taken.
use nats_grpc.Base.{
  ℕ, ◌-◌, ◌<◌, ◌≡◌, refl, sym, ap, subst, ◌∙◌, true, false, Option, none, some, List, [], ◌∷◌,
  arith, ltb, All, if_keeps, if_true,
}
use nats_grpc.Wire.{Bytes, Request, Error, Result, ok, err}
use nats_grpc.Env.{Env}
use nats_grpc.Client.{Client, Body, body_bytes}
use nats_grpc.ClientStream.{
  ClientFocus, report_end, tear_down, done, write_request, close, close_send, end_request,
}
use nats_grpc.ClientStream.Frames.{
  read_msg, set_last_err, call_maybe, send_data, send_msg, ping_tick, monitor_tick, heartbeat_error,
}
use nats_grpc.ClientStream.Run.{ClientAction, watch_on, client_step, client_run}

-- what the heartbeat and the waiting ReadMsg have
record Waits (f g : ClientFocus) : Type 0 where
  pong : g.last_pong ≡ f.last_pong
  wait : g.blocked ≡ f.blocked
  limit : g.client ≡ f.client

abbrev still : (f : ClientFocus) → Waits f f
still f = record { pong = refl; wait = refl; limit = refl }

Waits-trans : (f g h : ClientFocus) → Waits f g → Waits g h → Waits f h
Waits-trans f g h v w = record {
  pong = w.pong ∙ v.pong;
  wait = w.wait ∙ v.wait;
  limit = w.limit ∙ v.limit;
}

done-Waits : (f : ClientFocus) → Waits f (done f)
unfolding done tear_down report_end
done-Waits f = record { pong = ground arith; wait = ground arith; limit = ground arith }

watch_on-Waits : (e : Option Error) (f : ClientFocus) → Waits f (watch_on e f)
unfolding watch_on
watch_on-Waits none f = still f
watch_on-Waits (some e) f = done-Waits f

done-closed : (f : ClientFocus) → (done f).closed ≡ true
unfolding done tear_down report_end
done-closed f = ground arith

module _ {M : Type 0} (env : Env M) where
  write_request-Waits : (r : Request) (f : ClientFocus) → Waits f (write_request env r f).0
  unfolding write_request
  write_request-Waits r f = record {
    pong = ground arith;
    wait = ground arith;
    limit = ground arith;
  }

  close-Waits : (e : Error) (f : ClientFocus) → Waits f (close env e f)
  unfolding close
  close-Waits e f =
      let g : ClientFocus = record f { stream = record f.stream { end_err = some e } } in
      let v = write_request-Waits (end_request env (some e)) g in
      Waits-trans f _ _ (record { pong = v.pong; wait = v.wait; limit = v.limit })
        (done-Waits (write_request env (end_request env (some e)) g).0)

  call_maybe-Waits : (f : ClientFocus) → Waits f (call_maybe env f)
  unfolding call_maybe
  call_maybe-Waits f =
      if_keeps (Waits f) f.has_begun _ _ (still f) (
        let v = write_request-Waits _ _ in record { pong = v.pong; wait = v.wait; limit = v.limit })

  send_data-Waits : (r : Result Bytes) (f : ClientFocus) → Waits f (send_data env r f).0
  unfolding send_data
  send_data-Waits (err e) f = still f
  send_data-Waits (ok b) f =
      let v = write_request-Waits (Request.payload b) _ in
      record { pong = v.pong; wait = v.wait; limit = v.limit }

  send_msg-Waits : (m : Body M) (f : ClientFocus) → Waits f (send_msg env m f).0
  unfolding send_msg
  send_msg-Waits m f =
      if_keeps (λ (r : ClientFocus × Option Error). Waits f r.0) f.closed _ _ (still f)
        (Waits-trans f _ _ (call_maybe-Waits f)
          (send_data-Waits (body_bytes env m) (call_maybe env f)))

  set_last_err-Waits : (o e : Option Error) (f : ClientFocus) → Waits f (set_last_err env o e f)
  unfolding set_last_err
  set_last_err-Waits none e f = record { pong = refl; wait = refl; limit = refl }
  set_last_err-Waits (some x) e f = record { pong = refl; wait = refl; limit = refl }

  monitor_tick-Waits : (now : ℕ) (f : ClientFocus) → Waits f (monitor_tick env now f)
  unfolding monitor_tick
  monitor_tick-Waits now f =
      let v =
        close-Waits heartbeat_error
          (record f { stream = record f.stream { monitoring = false } }) in
      if_keeps (Waits f) _ _ _ (record { pong = v.pong; wait = v.wait; limit = v.limit }) (still f)

  -- any action but RecvMsg
  abbrev pub TakesNothing : ClientAction M → Type 0
  TakesNothing (ClientAction.recv quit old) = ⊥
  TakesNothing _ = Unit

  step-Waits :
      (b : Bytes) (a : ClientAction M) (f : ClientFocus)
      → f.blocked ≡ some b
      → TakesNothing a
      → Waits f (client_step env a f)
  unfolding client_step close_send ping_tick
  step-Waits b (ClientAction.arrive m) f e h =
      if_keeps (Waits f) f.closed _ _ (still f) (record { pong = refl; wait = refl; limit = refl })
  step-Waits b (ClientAction.read quit now) f e h =
      subst (λ o. Waits f (read_msg env quit now o f)) (sym e) (unfold read_msg in still f)
  step-Waits b (ClientAction.recv quit old) f e h = absurd h
  step-Waits b ClientAction.record_error f e h = set_last_err-Waits f.last_err f.failed f
  step-Waits b (ClientAction.send m) f e h = send_msg-Waits m f
  step-Waits b ClientAction.half_close f e h = write_request-Waits (end_request env none) f
  step-Waits b (ClientAction.ping now) f e h =
      if_keeps (Waits f) f.pinging _ _
        (if_keeps (Waits f) f.closed _ _ (record { pong = refl; wait = refl; limit = refl })
          (write_request-Waits _ f))
        (still f)
  step-Waits b (ClientAction.monitor now) f e h =
      if_keeps (Waits f) f.monitoring _ _ (monitor_tick-Waits now f) (still f)
  step-Waits b (ClientAction.cancel x) f e h = record { pong = refl; wait = refl; limit = refl }
  step-Waits b ClientAction.watch f e h = watch_on-Waits f.ctx_err f

  run-Waits :
      (b : Bytes) (actions : List (ClientAction M)) (f : ClientFocus)
      → f.blocked ≡ some b
      → All TakesNothing actions
      → Waits f (client_run env actions f)
  unfolding client_run
  run-Waits b [] f e h = still f
  run-Waits b (a ∷ more) f e h =
      let v = step-Waits b a f e h.0 in
      Waits-trans f _ _ v (run-Waits b more (client_step env a f) (v.wait ∙ e) h.1)

  late_tick-closes :
      (now : ℕ) (f : ClientFocus)
      → f.monitoring ≡ true
      → f.client.pong_timeout < now - f.last_pong
      → (client_step env (ClientAction.monitor now) f).closed ≡ true
  unfolding client_step monitor_tick close
  late_tick-closes now f m h =
      let late : ltb f.client.pong_timeout (now - f.last_pong) ≡ true = ground (arith, h) in
      ap (λ (g : ClientFocus). g.closed)
        (if_true (monitor_tick env now f) f f.monitoring m ∙ if_true _ f _ late)
      ∙ done-closed _

  -- Let ReadMsg wait with a payload for which the channel is full. Over every interleaving with no
  -- RecvMsg, whatever messages the server sends, its Pongs as well, the waiting payload stays and no
  -- Pong is counted; so if pongMonitor still runs, its first tick more than pongTimeout after the
  -- last Pong before the wait closes the stream.
  pub blocked_reader_closes :
      (b : Bytes) (actions : List (ClientAction M)) (f : ClientFocus) (now : ℕ)
      → f.blocked ≡ some b
      → All TakesNothing actions
      → f.client.pong_timeout < now - f.last_pong
      → (client_run env actions f).monitoring ≡ true
      → let g = client_run env actions f in
        (g.blocked ≡ some b)
        × (g.last_pong ≡ f.last_pong)
        × ((client_step env (ClientAction.monitor now) g).closed ≡ true)
  blocked_reader_closes b actions f now e h late m =
      let v = run-Waits b actions f e h in
      (
        v.wait ∙ e,
        v.pong,
        late_tick-closes now (client_run env actions f) m (
            subst (λ t. t < now - (client_run env actions f).last_pong)
              (ap (λ (c : Client). c.pong_timeout) (sym v.limit))
              (subst (λ t. f.client.pong_timeout < now - t) (sym v.pong) late)),
      )
