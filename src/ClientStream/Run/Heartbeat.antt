-- ===== src/ClientStream/Run/Heartbeat.antt =====
-- How long a client stream waits for a silent server, and what RecvMsg can return after the end.
use nats_grpc.Base.{
  ℕ, zero, suc, ◌+◌, ◌-◌, ◌*◌, ◌≡◌, refl, sym, ap, ◌∙◌, subst, Bool, true, false, not, arith, ltb,
  if◌then◌else◌, if_true, if_false,
}
use nats_grpc.Wire.{Error, Request}
use nats_grpc.Env.{Env}
use nats_grpc.ClientStream.{ClientFocus, report_end, tear_down, done, write_request, close}
use nats_grpc.ClientStream.Frames.{monitor_tick, heartbeat_error}
use nats_grpc.ClientStream.Run.{ClientAction, client_step}

-- The fields that the heartbeat looks at.
pub record Pulse (closed monitoring : Bool) (last_pong interval timeout : ℕ) (f : ClientFocus)
    : Type 0 where
  pub closed_is : f.closed ≡ closed
  pub monitoring_is : f.monitoring ≡ monitoring
  pub last_pong_is : f.last_pong ≡ last_pong
  pub interval_is : f.client.ping_interval ≡ interval
  pub timeout_is : f.client.pong_timeout ≡ timeout

module _ {M : Type 0} (env : Env M) where
  -- the first `n` ticks of pongMonitor, from the time of the last Pong, with nothing between them
  unfoldable pub ticks : ℕ → ClientFocus → ClientFocus
  ticks zero f = f
  ticks (suc n) f =
      client_step env (ClientAction.monitor (f.last_pong + suc n * f.client.ping_interval))
        (ticks n f)

  done-Pulse :
      {c m : Bool} {p i t : ℕ} (f : ClientFocus) → Pulse c m p i t f → Pulse true m p i t (done f)
  unfolding done tear_down report_end
  done-Pulse f v = record {
    closed_is = ground arith;
    monitoring_is = ground (arith, v.monitoring_is);
    last_pong_is = ground (arith, v.last_pong_is);
    interval_is = ground (arith, v.interval_is);
    timeout_is = ground (arith, v.timeout_is);
  }

  write_request-Pulse :
      {c m : Bool} {p i t : ℕ} (r : Request) (f : ClientFocus)
      → Pulse c m p i t f
      → Pulse c m p i t (write_request env r f).0
  unfolding write_request
  write_request-Pulse r f v = record {
    closed_is = ground (arith, v.closed_is);
    monitoring_is = ground (arith, v.monitoring_is);
    last_pong_is = ground (arith, v.last_pong_is);
    interval_is = ground (arith, v.interval_is);
    timeout_is = ground (arith, v.timeout_is);
  }

  close-Pulse :
      {c m : Bool} {p i t : ℕ} (e : Error) (f : ClientFocus)
      → Pulse c m p i t f
      → Pulse true m p i t (close env e f)
  unfolding close
  close-Pulse e f v = done-Pulse _ (
      write_request-Pulse _ _ (record {
        closed_is = v.closed_is;
        monitoring_is = v.monitoring_is;
        last_pong_is = v.last_pong_is;
        interval_is = v.interval_is;
        timeout_is = v.timeout_is;
      }))

  abbrev expired : ClientFocus → ClientFocus
  expired f =
      close env heartbeat_error (record f { stream = record f.stream { monitoring = false } })

  fire-Pulse :
      {p i t : ℕ} (b : Bool) (f : ClientFocus)
      → Pulse false true p i t f
      → Pulse b (not b) p i t (if b then expired f else f)
  fire-Pulse true f v =
      close-Pulse heartbeat_error (record f { stream = record f.stream { monitoring = false } })
        (record {
          closed_is = v.closed_is;
          monitoring_is = refl;
          last_pong_is = v.last_pong_is;
          interval_is = v.interval_is;
          timeout_is = v.timeout_is;
        })
  fire-Pulse false f v = v

  -- a tick at `now`, where the monitor runs as long as the stream is open
  tick-Pulse :
      {p i t : ℕ} (now : ℕ) (late : Bool) (f : ClientFocus)
      → (late ≡ true → ltb t (now - p) ≡ true)
      → Pulse late (not late) p i t f
      → Pulse
          (ltb t (now - p))
          (not (ltb t (now - p)))
          p
          i
          t
          (client_step env (ClientAction.monitor now) f)
  unfolding client_step monitor_tick
  tick-Pulse {p} {i} {t} now true f h v =
      subst (Pulse (ltb t (now - p)) (not (ltb t (now - p))) p i t)
        (sym (if_false _ _ f.monitoring v.monitoring_is))
        (subst (λ b. Pulse b (not b) p i t f) (sym (h refl)) v)
  tick-Pulse {p} {i} {t} now false f h v =
      subst (Pulse (ltb t (now - p)) (not (ltb t (now - p))) p i t)
        (sym (
          if_true _ _ f.monitoring v.monitoring_is
          ∙ ap (λ (b : Bool). if b then expired f else f) same))
        (fire-Pulse (ltb t (now - p)) f v)
    where
      same : ltb f.client.pong_timeout (now - f.last_pong) ≡ ltb t (now - p)
      same = rw (v.timeout_is, v.last_pong_is) refl

  mul_suc : (n i : ℕ) → suc n * i ≡ i + n * i
  mul_suc n i = ground arith

  ltb_later : (t p i n : ℕ) → ltb t (n * i) ≡ true → ltb t ((p + suc n * i) - p) ≡ true
  ltb_later t p i n e = ground (arith, mul_suc n i)

  ticks-Pulse :
      (n : ℕ) (f : ClientFocus)
      → f.closed ≡ false
      → f.monitoring ≡ true
      → let late = ltb f.client.pong_timeout (n * f.client.ping_interval) in
        Pulse late (not late) f.last_pong f.client.ping_interval f.client.pong_timeout (ticks n f)
  unfolding ticks
  ticks-Pulse zero f o m = record {
    closed_is = o ∙ ground arith;
    monitoring_is = m ∙ ground arith;
    last_pong_is = refl;
    interval_is = refl;
    timeout_is = refl;
  }
  ticks-Pulse (suc n) f o m =
      subst
        (λ x.
          Pulse (ltb f.client.pong_timeout x) (not (ltb f.client.pong_timeout x)) f.last_pong
            f.client.ping_interval f.client.pong_timeout (ticks (suc n) f))
        (omega arith)
        (tick-Pulse (f.last_pong + suc n * f.client.ping_interval) _ (ticks n f)
          (ltb_later f.client.pong_timeout f.last_pong f.client.ping_interval n)
          (ticks-Pulse n f o m))

  -- With no Pong since the last one, an open stream whose monitor runs is still open after as many
  -- ticks as fit into pongTimeout, and closed after any more: it closes at the first tick later than
  -- pongTimeout, and so within pongTimeout and one pingInterval.
  pub silent_server_closes :
      (n : ℕ) (f : ClientFocus)
      → f.closed ≡ false
      → f.monitoring ≡ true
      → (ticks n f).closed ≡ ltb f.client.pong_timeout (n * f.client.ping_interval)
  silent_server_closes n f o m = (ticks-Pulse n f o m).closed_is
