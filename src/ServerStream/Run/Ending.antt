-- ===== src/ServerStream/Run/Ending.antt =====
-- How a stream ends: the return of its handler, and the events that go with it.
use nats_grpc.Base.{
  String, ◌≡◌, refl, sym, subst, ◌∙◌, true, false, Option, none, some, List, ◌∷◌, arith, lookup,
  lookup-delete_self, if_keeps, if◌then◌else◌,
}
use nats_grpc.Wire.{Response, Error, Result, ok, err}
use nats_grpc.Stats.{StatsHandler}
use nats_grpc.Stats.Counts.{is_end, seen, registered, seen-handle_rpc}
use nats_grpc.Env.{status_proto, Env}
use nats_grpc.Metadata.{make_metadata}
use nats_grpc.ServerStream.{
  HandlerFunc, unary_func, stream_func, ServerConf, Focus, set_begun, begin_response, end_response,
  stats_begin, end_once, finalize, write_response, begin_maybe, write_end, close,
}
use nats_grpc.ServerStream.Handler.{
  send_begun, send_msg, close_sent, respond_unary, return_unary, return_stream,
}
use nats_grpc.ServerStream.Run.{Action, error_of, finish_handler, step}
use nats_grpc.ServerStream.Run.Stable.{Core, core, Stable, step-Stable}

-- A stream that has begun: its handlers have seen End as often as they are registered from the
-- moment that endOnce fires, and before that not at all.
pub record Balanced (h : String) (hs : List StatsHandler) (c : Core) : Type 0 where
  pub begun : c.stats_begun ≡ true
  pub ends : seen h is_end c.log ≡ (if c.ended then registered h hs else 0)

module _ (h : String) (srv : ServerConf) where
  abbrev Bal : Focus → Type 0
  Bal f = Balanced h srv.stats_handlers (core f)

  module _ {M : Type 0} (env : Env M) where
    write_response-Bal : (r : Response) (f : Focus) → Bal f → Bal (write_response env r f).0
    unfolding write_response seen
    write_response-Bal r f v = ground arith

    begin_maybe-Bal : (f : Focus) → Bal f → Bal (begin_maybe env srv f).0
    unfolding begin_maybe
    begin_maybe-Bal f v =
        if_keeps (λ (r : Focus × Option Error). Bal r.0) f.has_begun _ _ v
          (write_response-Bal (begin_response srv f) (set_begun f)
            (record { begun = v.begun; ends = v.ends }))

    stable : Stable env srv (Balanced h srv.stats_handlers)
    unfolding write_end stats_begin finalize end_once
    stable = record {
      event = λ ctx ev f b e v. grind (arith, seen-handle_rpc);
      stats = λ f v. grind arith;
      final = λ e f v. grind (arith, seen-handle_rpc);
      pong = λ t f v. write_response-Bal (Response.pong t) f v;
      first = begin_maybe-Bal;
      data_frame = λ b f _ v. write_response-Bal (Response.payload b) f v;
      last_frame = λ e f _ v.
          write_response-Bal (end_response (status_proto env e) (make_metadata f.trailer)) f v;
    }

-- A stream that is torn down.
pub record IsClosed (f : Focus) : Type 0 where
  pub cancelled : f.cancelled ≡ true
  pub ended : f.ended ≡ true
  pub removed : lookup f.reply f.streams ≡ none

finalize-IsClosed : (srv : ServerConf) (e : Option Error) (f : Focus) → IsClosed (finalize srv e f)
unfolding finalize end_once
finalize-IsClosed srv e f = record {
  cancelled = refl;
  ended = ground arith;
  removed = lookup-delete_self _ _;
}

module _ {M : Type 0} (env : Env M) (srv : ServerConf) where
  close-IsClosed : (e : Option Error) (f : Focus) → IsClosed (close env srv e f)
  unfolding close
  close-IsClosed e f = finalize-IsClosed srv e _

  close_sent-send_begun-IsClosed :
      (m : M) (r : Focus × Option Error) → IsClosed (close_sent env srv (send_begun env srv m r))
  unfolding send_begun close_sent
  close_sent-send_begun-IsClosed m (f, none) = close-IsClosed none _
  close_sent-send_begun-IsClosed m (f, some e) = close-IsClosed (some e) f

  respond_unary-IsClosed : (r : Result M) (f : Focus) → IsClosed (respond_unary env srv r f)
  unfolding respond_unary send_msg
  respond_unary-IsClosed (err e) f = close-IsClosed (some e) f
  respond_unary-IsClosed (ok m) f = close_sent-send_begun-IsClosed m (begin_maybe env srv f)

  finish_handler-IsClosed :
      (r : Result M) (h : HandlerFunc) (hs : List HandlerFunc) (f : Focus)
      → f.cancelled ≡ false
      → IsClosed (finish_handler env srv r (h ∷ hs) f)
  unfolding finish_handler return_unary return_stream
  finish_handler-IsClosed r (unary_func i) hs f e = rw e (respond_unary-IsClosed r _)
  finish_handler-IsClosed r (stream_func i) hs f e = rw e (close-IsClosed (error_of r) _)

  -- When a handler of a live stream returns, with a response or an error, the stream is cancelled
  -- and its entry leaves Server.streams, also where sending the response fails. If the stream had
  -- begun and not ended, every stats handler has then seen exactly one End for each registration.
  pub finish_ends :
      (r : Result M) (h : HandlerFunc) (hs : List HandlerFunc) (f : Focus) (name : String)
      → f.running ≡ h ∷ hs
      → f.cancelled ≡ false
      → f.ended ≡ false
      → f.stats_begun ≡ true
      → seen name is_end f.log ≡ 0
      → let g = step env srv (Action.finish r) f in
        IsClosed g × (seen name is_end g.log ≡ registered name srv.stats_handlers)
  unfolding step
  finish_ends r h hs f name one live fresh begun zero =
      (closed, balanced.ends ∙ rw closed.ended refl)
    where
      closed : IsClosed (step env srv (Action.finish r) f)
      closed =
          subst (λ todo. IsClosed (finish_handler env srv r todo f)) (sym one)
            (finish_handler-IsClosed r h hs f live)

      balanced : Balanced name srv.stats_handlers (core (step env srv (Action.finish r) f))
      balanced =
          step-Stable env srv (Balanced name srv.stats_handlers) (stable name srv env)
            (Action.finish r) f (record { begun = begun; ends = rw fresh zero })
