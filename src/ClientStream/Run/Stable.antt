-- ===== src/ClientStream/Run/Stable.antt =====
-- One induction for all invariants of a client stream: what the primitive operations keep, every
-- sequence of actions keeps.
use nats_grpc.Base.{
  ℕ, String, ◌≡◌, refl, Bool, true, false, ◌||◌, ◌&&◌, ◌-◌, ltb, Option, none, some, List, [], ◌∷◌,
  arith, GoMap, if_keeps,
}
use nats_grpc.Wire.{Bytes, Request, Response, Metadata, Error, Status, Result, ok, err, Md}
use nats_grpc.Stats.{Context, RpcStats, Log, handle_rpc}
use nats_grpc.Stats.Counts.{is_begin, is_end}
use nats_grpc.Env.{Env}
use nats_grpc.Client.{Client, Body, body_bytes}
use nats_grpc.ServerStream.Frames.{is_error}
use nats_grpc.ClientStream.{
  ClientFocus, done, write_request, close_send, close, end_request, first_error,
}
use nats_grpc.ClientStream.Frames.{
  is_empty, send_recv, take_recv, process_begin, process_data, end_status, process_end, join_end,
  process_pong, on_response_frame, on_message, stop_reading, read_on, read_live, read_msg,
  set_last_err, call_maybe, send_data, send_msg, recv_on, recv_live, recv_msg, ping_tick,
  monitor_tick,
}
use nats_grpc.ClientStream.Run.{ClientAction, watch_on, client_step, client_run}

-- The part of the state that the invariants are about.
pub record Core : Type 0 where
  pub client : Client
  pub trailer : Option Md
  pub has_begun : Bool
  pub closed : Bool
  pub ended : Bool
  pub ctx_err : Option Error
  pub reply : String
  pub streams : GoMap ℕ
  pub log : Log

abbrev pub core : ClientFocus → Core
core f = record {
  client = f.client;
  trailer = f.trailer;
  has_begun = f.has_begun;
  closed = f.closed;
  ended = f.ended;
  ctx_err = f.ctx_err;
  reply = f.reply;
  streams = f.streams;
  log = f.log;
}

-- a request that is neither a Call nor a Data frame
abbrev pub is_control : Request → Bool
is_control (Request.call c) = false
is_control (Request.payload b) = false
is_control _ = true

module _ {M : Type 0} (env : Env M) (Q : Core → Type 0) where
  abbrev P : ClientFocus → Type 0
  P f = Q (core f)

  pub record Stable : Type 0 where
    -- a payload event
    pub event :
        (ctx : Context) (ev : RpcStats) (f : ClientFocus)
        → is_begin ev ≡ false
        → is_end ev ≡ false
        → P f
        → P (record f { log = handle_rpc f.client.stats_handlers ctx ev f.log })
    pub finish : (f : ClientFocus) → P f → P (done f)
    pub write :
        (r : Request) (f : ClientFocus) → is_control r ≡ true → P f → P (write_request env r f).0
    pub call : (f : ClientFocus) → P f → P (call_maybe env f)
    pub data_frame :
        (b : Bytes) (f : ClientFocus)
        → f.has_begun ≡ true
        → P f
        → P (write_request env (Request.payload b) f).0
    pub trailers :
        (m : Option Metadata) (f : ClientFocus)
        → P f
        → P (record f { stream = record f.stream { trailer = join_end env f.trailer m } })
    pub cancel :
        (e : Error) (f : ClientFocus)
        → P f
        → P (record f { stream = record f.stream { ctx_err = some (first_error f.ctx_err e) } })

-- After callMaybe the stream has begun.
begun-call_maybe :
    {M : Type 0} (env : Env M) (f : ClientFocus) → (call_maybe env f).has_begun ≡ true
unfolding call_maybe write_request
begun-call_maybe env f = ground arith

module _ {M : Type 0} (env : Env M) (Q : Core → Type 0) (s : Stable env Q) where
  abbrev R : ClientFocus → Type 0
  R f = Q (core f)

  close-Stable : (e : Error) (f : ClientFocus) → R f → R (close env e f)
  unfolding close
  close-Stable e f v = s.finish _ (s.write (end_request env (some e)) _ refl v)

  process_data-Stable : (b : Bytes) (f : ClientFocus) → R f → R (process_data env b f)
  unfolding process_data send_recv
  process_data-Stable b f v = if_keeps R f.recv_open _ _ (s.event _ _ f refl refl v) v

  end_status-Stable : (o : Option Status) (f : ClientFocus) → R f → R (end_status env o f).0
  unfolding end_status
  end_status-Stable none f v = s.finish _ v
  end_status-Stable (some x) f v =
      if_keeps (λ (r : ClientFocus × Option Error). R r.0) (is_error (some x)) _ _ (s.finish _ v)
        (s.finish _ v)

  on_response_frame-Stable :
      (now : ℕ) (r : Response) (f : ClientFocus) → R f → R (on_response_frame env now r f).0
  unfolding on_response_frame process_begin process_end process_pong
  on_response_frame-Stable now (Response.begin b) f v = v
  on_response_frame-Stable now (Response.payload b) f v = process_data-Stable b f v
  on_response_frame-Stable now (Response.end e) f v =
      end_status-Stable e.status _ (s.trailers e.trailer f v)
  on_response_frame-Stable now (Response.pong t) f v = v
  on_response_frame-Stable now Response.unset f v = v
  on_response_frame-Stable now (Response.unary u) f v = v

  on_message-Stable :
      (now : ℕ) (r : Result Response) (f : ClientFocus) → R f → R (on_message env now r f).0
  unfolding on_message
  on_message-Stable now (err e) f v = v
  on_message-Stable now (ok r) f v = on_response_frame-Stable now r f v

  stop_reading-Stable : (r : ClientFocus × Option Error) → R r.0 → R (stop_reading env r)
  unfolding stop_reading
  stop_reading-Stable (f, none) v = v
  stop_reading-Stable (f, some e) v = v

  read_on-Stable : (now : ℕ) (bs : List Bytes) (f : ClientFocus) → R f → R (read_on env now bs f)
  unfolding read_on
  read_on-Stable now [] f v = v
  read_on-Stable now (b ∷ more) f v =
      if_keeps R f.reading _ _
        (stop_reading-Stable _ (on_message-Stable now (env.unmarshal_response b) _ v)) v

  read_msg-Stable :
      (quit : Bool) (now : ℕ) (o : Option Bytes) (f : ClientFocus)
      → R f
      → R (read_msg env quit now o f)
  unfolding read_msg
  read_msg-Stable quit now (some b) f v = v
  read_msg-Stable quit now none f v = live f.ctx_err
    where
      live : (o : Option Error) → R (read_live env quit now o f)
      live none = unfold read_live in read_on-Stable now f.msgs f v
      live (some e) =
          unfold read_live in
          if_keeps R (quit || is_empty f.msgs) _ _ v (read_on-Stable now f.msgs f v)

  set_last_err-Stable : (o e : Option Error) (f : ClientFocus) → R f → R (set_last_err env o e f)
  unfolding set_last_err
  set_last_err-Stable none e f v = v
  set_last_err-Stable (some old) e f v = v

  send_data-Stable :
      (r : Result Bytes) (f : ClientFocus) → f.has_begun ≡ true → R f → R (send_data env r f).0
  unfolding send_data
  send_data-Stable (err e) f h v = v
  send_data-Stable (ok b) f h v = s.data_frame b _ h (s.event _ _ f refl refl v)

  send_msg-Stable : (m : Body M) (f : ClientFocus) → R f → R (send_msg env m f).0
  unfolding send_msg
  send_msg-Stable m f v =
      if_keeps (λ (r : ClientFocus × Option Error). R r.0) f.closed _ _ v
        (send_data-Stable (body_bytes env m) _ (begun-call_maybe env f) (s.call f v))

  recv_on-Stable :
      (old : Body M) (bs : List Bytes) (f : ClientFocus) → R f → R (recv_on env old bs f).0
  unfolding recv_on take_recv
  recv_on-Stable old [] f v = v
  recv_on-Stable old (b ∷ bs) f v = v

  recv_live-Stable :
      (quit : Bool) (old : Body M) (o : Option Error) (f : ClientFocus)
      → R f
      → R (recv_live env quit old o f).0
  unfolding recv_live
  recv_live-Stable quit old none f v = recv_on-Stable old f.recv f v
  recv_live-Stable quit old (some e) f v =
      if_keeps (λ (r : ClientFocus × Option (Result (Body M))). R r.0)
        (quit || (f.recv_open && is_empty f.recv)) _ _ v (recv_on-Stable old f.recv f v)

  ping_tick-Stable : (now : ℕ) (f : ClientFocus) → R f → R (ping_tick env now f)
  unfolding ping_tick
  ping_tick-Stable now f v = if_keeps R f.closed _ _ v (s.write _ f refl v)

  monitor_tick-Stable : (now : ℕ) (f : ClientFocus) → R f → R (monitor_tick env now f)
  unfolding monitor_tick
  monitor_tick-Stable now f v =
      if_keeps R (ltb f.client.pong_timeout (now - f.last_pong)) _ _ (close-Stable _ _ v) v

  watch_on-Stable : (o : Option Error) (f : ClientFocus) → R f → R (watch_on o f)
  unfolding watch_on
  watch_on-Stable none f v = v
  watch_on-Stable (some e) f v = s.finish f v

  client_step-Stable : (a : ClientAction M) (f : ClientFocus) → R f → R (client_step env a f)
  unfolding client_step close_send recv_msg
  client_step-Stable (ClientAction.arrive b) f v = if_keeps R f.closed _ _ v v
  client_step-Stable (ClientAction.read quit now) f v = read_msg-Stable quit now f.blocked f v
  client_step-Stable ClientAction.record_error f v = set_last_err-Stable f.last_err f.failed f v
  client_step-Stable (ClientAction.send m) f v = send_msg-Stable m f v
  client_step-Stable (ClientAction.recv quit old) f v = recv_live-Stable quit old f.ctx_err f v
  client_step-Stable ClientAction.half_close f v = s.write _ f refl v
  client_step-Stable (ClientAction.ping now) f v =
      if_keeps R f.pinging _ _ (ping_tick-Stable now f v) v
  client_step-Stable (ClientAction.monitor now) f v =
      if_keeps R f.monitoring _ _ (monitor_tick-Stable now f v) v
  client_step-Stable (ClientAction.cancel e) f v = s.cancel e f v
  client_step-Stable ClientAction.watch f v = watch_on-Stable f.ctx_err f v

  pub client_run-Stable :
      (actions : List (ClientAction M)) (f : ClientFocus) → R f → R (client_run env actions f)
  unfolding client_run
  client_run-Stable [] f v = v
  client_run-Stable (a ∷ more) f v = client_run-Stable more _ (client_step-Stable a f v)
