-- ===== src/ServerStream/Run/Stable.antt =====
-- One induction for all invariants of a server stream: what the primitive operations keep, every
-- sequence of actions keeps.
use nats_grpc.Base.{
  ℕ, String, ◌≡◌, refl, Bool, true, false, not, ◌&&◌, ◌||◌, Option, none, some, List, [], ◌∷◌,
  arith, GoMap, lookup, if_keeps,
}
use nats_grpc.Wire.{Bytes, Call, Request, Response, Error, Result, ok, err, Md, Status}
use nats_grpc.Stats.{Context, Log, RpcStats, handle_rpc}
use nats_grpc.Stats.Counts.{is_begin, is_end}
use nats_grpc.Env.{Env}
use nats_grpc.ServerStream.{
  HandlerFunc, unary_func, stream_func, ServerConf, Focus, stats_begin, finalize, done,
  write_response, begin_maybe, write_end, close,
}
use nats_grpc.ServerStream.Frames.{
  enqueue, send_recv, is_error, start_call, call_handler, process_call, process_data, end_status,
  process_end, process_ping, on_request, read_frame, work_on, work,
}
use nats_grpc.ServerStream.Handler.{
  take_recv, set_header, begin_header, send_header, set_trailer, send_payload, send_begun, send_msg,
  recv_on, recv_msg, close_sent, respond_unary, return_unary, return_stream,
}
use nats_grpc.ServerStream.Run.{
  Action, stop_error, error_of, finish_handler, handler_call, while_running, step, run,
}

-- The part of the state that the invariants are about.
pub record Core : Type 0 where
  pub log : Log
  pub streams : GoMap ℕ
  pub reply : String
  pub cancelled : Bool
  pub has_begun : Bool
  pub stats_begun : Bool
  pub ended : Bool

abbrev pub core : Focus → Core
core f = record {
  log = f.log;
  streams = f.streams;
  reply = f.reply;
  cancelled = f.cancelled;
  has_begun = f.has_begun;
  stats_begun = f.stats_begun;
  ended = f.ended;
}

module _ {M : Type 0} (env : Env M) (srv : ServerConf) (Q : Core → Type 0) where
  abbrev P : Focus → Type 0
  P f = Q (core f)

  pub record Stable : Type 0 where
    -- a payload event
    pub event :
        (ctx : Context) (ev : RpcStats) (f : Focus)
        → is_begin ev ≡ false
        → is_end ev ≡ false
        → P f
        → P (record f { log = handle_rpc srv.stats_handlers ctx ev f.log })
    pub stats : (f : Focus) → P f → P (stats_begin srv f)
    pub final : (e : Option Error) (f : Focus) → P f → P (finalize srv e f)
    pub pong : (t : ℕ) (f : Focus) → P f → P (write_response env (Response.pong t) f).0
    pub first : (f : Focus) → P f → P (begin_maybe env srv f).0
    pub data_frame :
        (b : Bytes) (f : Focus)
        → f.has_begun ≡ true
        → P f
        → P (write_response env (Response.payload b) f).0
    pub last_frame :
        (e : Option Error) (f : Focus) → f.has_begun ≡ true → P f → P (write_end env e f).0

-- After beginMaybe the stream has begun.
begun-begin_maybe :
    {M : Type 0} (env : Env M) (srv : ServerConf) (f : Focus)
    → (begin_maybe env srv f).0.has_begun ≡ true
unfolding begin_maybe write_response
begun-begin_maybe env srv f = ground arith

module _ {M : Type 0} (env : Env M) (srv : ServerConf) (Q : Core → Type 0)
    (s : Stable env srv Q) where
  abbrev R : Focus → Type 0
  R f = Q (core f)

  close-Stable : (e : Option Error) (f : Focus) → R f → R (close env srv e f)
  unfolding close
  close-Stable e f p = s.final e _ (s.last_frame e _ (begun-begin_maybe env srv f) (s.first f p))

  enqueue-Stable : (drop : Bool) (b : Bytes) (f : Focus) → R f → R (enqueue drop b f)
  unfolding enqueue
  enqueue-Stable drop b f p = ground arith

  start_call-Stable : (c : Call) (h : HandlerFunc) (f : Focus) → R f → R (start_call env srv c h f)
  unfolding start_call
  start_call-Stable c h f p = s.stats _ p

  call_handler-Stable :
      (o : Option HandlerFunc) (c : Call) (f : Focus) → R f → R (call_handler env srv o c f)
  unfolding call_handler
  call_handler-Stable none c f p = close-Stable _ f p
  call_handler-Stable (some h) c f p = start_call-Stable c h f p

  process_data-Stable : (b : Bytes) (f : Focus) → R f → R (process_data env srv b f)
  unfolding process_data send_recv
  process_data-Stable b f p =
      if_keeps R f.recv_open _ f (s.event _ _ (stats_begin srv f) refl refl (s.stats f p)) p

  end_status-Stable : (o : Option Status) (f : Focus) → R f → R (end_status env srv o f)
  unfolding end_status
  end_status-Stable none f p = p
  end_status-Stable (some x) f p =
      if_keeps R (is_error (some x)) _ _ (s.final (env.error_proto x) f p) p

  on_request-Stable : (r : Request) (f : Focus) → R f → R (on_request env srv r f)
  unfolding on_request process_call process_end process_ping
  on_request-Stable Request.unset f p = p
  on_request-Stable (Request.call c) f p = call_handler-Stable (lookup f.method srv.handlers) c _ p
  on_request-Stable (Request.payload b) f p = process_data-Stable b f p
  on_request-Stable (Request.end e) f p = end_status-Stable e.status f p
  on_request-Stable (Request.ping t) f p = s.pong t f p
  on_request-Stable (Request.unary u) f p = p

  read_frame-Stable : (r : Result Request) (f : Focus) → R f → R (read_frame env srv r f)
  unfolding read_frame
  read_frame-Stable (err e) f p = p
  read_frame-Stable (ok r) f p = on_request-Stable r f p

  work_on-Stable :
      (quit : Bool) (o : Option Bytes) (bs : List Bytes) (f : Focus)
      → R f
      → R (work_on env srv quit o bs f)
  unfolding work_on
  work_on-Stable quit (some b) bs f p = p
  work_on-Stable quit none [] f p = p
  work_on-Stable quit none (b ∷ bs) f p =
      if_keeps R (not f.working) f _ p
        (if_keeps R (f.cancelled && quit) _ _ p (read_frame-Stable (env.unmarshal_request b) _ p))

  set_header-Stable : (md : Option Md) (f : Focus) → R f → R (set_header env srv md f).0
  unfolding set_header
  set_header-Stable md f p = if_keeps (λ (r : Focus × Option Error). R r.0) f.has_begun _ _ p p

  begin_header-Stable : (r : Focus × Option Error) → R r.0 → R (begin_header env srv r).0
  unfolding begin_header
  begin_header-Stable (f, none) p = s.first f p
  begin_header-Stable (f, some e) p = p

  send_payload-Stable :
      (m : M) (r : Result Bytes) (f : Focus)
      → f.has_begun ≡ true
      → R f
      → R (send_payload env srv m r f)
  unfolding send_payload
  send_payload-Stable m (err e) f h p = p
  send_payload-Stable m (ok b) f h p = s.data_frame b _ h (s.event _ _ f refl refl p)

  send_begun-Stable :
      (m : M) (r : Focus × Option Error)
      → r.0.has_begun ≡ true
      → R r.0
      → R (send_begun env srv m r).0
  unfolding send_begun
  send_begun-Stable m (f, none) h p = send_payload-Stable m (env.marshal m) f h p
  send_begun-Stable m (f, some e) h p = close-Stable (some e) f p

  send_msg-Stable : (m : M) (f : Focus) → R f → R (send_msg env srv m f).0
  unfolding send_msg
  send_msg-Stable m f p =
      send_begun-Stable m (begin_maybe env srv f) (begun-begin_maybe env srv f) (s.first f p)

  recv_on-Stable :
      (quit : Bool) (bs : List Bytes) (f : Focus) → R f → R (recv_on env srv quit bs f).0
  unfolding recv_on take_recv
  recv_on-Stable quit [] f p =
      if_keeps Q' (f.cancelled && (quit || f.recv_open)) _ _ p (if_keeps Q' f.recv_open _ _ p p)
    where
      Q' : Focus × Option (Result M) → Type 0
      Q' r = R r.0
  recv_on-Stable quit (b ∷ bs) f p =
      if_keeps (λ (r : Focus × Option (Result M)). R r.0) (f.cancelled && quit) _ _ p p

  close_sent-Stable : (r : Focus × Option Error) → R r.0 → R (close_sent env srv r)
  unfolding close_sent
  close_sent-Stable (f, none) p = close-Stable none f p
  close_sent-Stable (f, some e) p = p

  respond_unary-Stable : (r : Result M) (f : Focus) → R f → R (respond_unary env srv r f)
  unfolding respond_unary
  respond_unary-Stable (err e) f p = close-Stable (some e) f p
  respond_unary-Stable (ok m) f p = close_sent-Stable _ (send_msg-Stable m f p)

  finish_handler-Stable :
      (r : Result M) (hs : List HandlerFunc) (f : Focus) → R f → R (finish_handler env srv r hs f)
  unfolding finish_handler return_unary return_stream
  finish_handler-Stable r [] f p = p
  finish_handler-Stable r (unary_func i ∷ hs) f p =
      if_keeps R f.cancelled _ _ p (respond_unary-Stable r _ p)
  finish_handler-Stable r (stream_func i ∷ hs) f p =
      if_keeps R f.cancelled _ _ p (close-Stable (error_of r) _ p)

  handler_call-Stable : (a : Action M) (f : Focus) → R f → R (handler_call env srv a f)
  unfolding handler_call recv_msg send_header set_trailer
  handler_call-Stable (Action.recv quit) f p = recv_on-Stable quit f.recv f p
  handler_call-Stable (Action.set_header md) f p = set_header-Stable md f p
  handler_call-Stable (Action.send_header md) f p = begin_header-Stable _ (set_header-Stable md f p)
  handler_call-Stable (Action.send m) f p = send_msg-Stable m f p
  handler_call-Stable _ f p = p

  running-Stable :
      (a : Action M) (hs : List HandlerFunc) (f : Focus) → R f → R (while_running env srv a hs f)
  unfolding while_running
  running-Stable a [] f p = p
  running-Stable a (h ∷ hs) f p = handler_call-Stable a f p

  pub step-Stable : (a : Action M) (f : Focus) → R f → R (step env srv a f)
  unfolding step work done
  step-Stable (Action.deliver drop b) f p = enqueue-Stable drop b f p
  step-Stable (Action.work quit) f p = work_on-Stable quit f.blocked f.inbox f p
  step-Stable (Action.finish r) f p = finish_handler-Stable r f.running f p
  step-Stable Action.stop f p = s.final (some stop_error) f p
  step-Stable Action.disconnect f p = s.final f.end_err f p
  step-Stable a f p = running-Stable a f.running f p

  pub run-Stable : (actions : List (Action M)) (f : Focus) → R f → R (run env srv actions f)
  unfolding run
  run-Stable [] f p = p
  run-Stable (a ∷ more) f p = run-Stable more (step env srv a f) (step-Stable a f p)
