-- ===== src/ServerStream/Run/Lifecycle.antt =====
-- The stats events of a stream: Begin at most once and End at most once for each registration.
use nats_grpc.Base.{
  ℕ, String, ◌≡◌, ◌⊎◌, inl, refl, true, false, Option, List, arith, GoMap, if_keeps, if◌then◌else◌,
}
use nats_grpc.Wire.{Response, Error}
use nats_grpc.Stats.{Context, RpcStats, StatsHandler, handle_rpc}
use nats_grpc.Stats.Counts.{is_begin, is_end, seen, registered, seen-handle_rpc}
use nats_grpc.Env.{status_proto, Env}
use nats_grpc.Metadata.{make_metadata}
use nats_grpc.ServerStream.{
  ServerConf, Focus, new_server_stream, fresh, set_begun, begin_response, end_response, stats_begin,
  end_once, finalize, write_response, begin_maybe, write_end,
}
use nats_grpc.ServerStream.Run.{Action, run}
use nats_grpc.ServerStream.Run.Stable.{Core, core, Stable, run-Stable}

-- What the handlers named `h` have seen of the stream.
pub record Lifecycle (h : String) (hs : List StatsHandler) (c : Core) : Type 0 where
  pub begins : seen h is_begin c.log ≡ (if c.stats_begun then registered h hs else 0)
  pub ends :
      (seen h is_end c.log ≡ 0)
      ⊎ ((c.stats_begun ≡ true) × (c.ended ≡ true) × (seen h is_end c.log ≡ registered h hs))

module _ (h : String) (srv : ServerConf) where
  abbrev pub Lives : Focus → Type 0
  Lives f = Lifecycle h srv.stats_handlers (core f)

  event-Lives :
      (ctx : Context) (ev : RpcStats) (f : Focus)
      → is_begin ev ≡ false
      → is_end ev ≡ false
      → Lives f
      → Lives (record f { log = handle_rpc srv.stats_handlers ctx ev f.log })
  event-Lives ctx ev f b e v = grind (arith, seen-handle_rpc)

  stats_begin-Lives : (f : Focus) → Lives f → Lives (stats_begin srv f)
  unfolding stats_begin
  stats_begin-Lives f v = grind (arith, seen-handle_rpc)

  finalize-Lives : (e : Option Error) (f : Focus) → Lives f → Lives (finalize srv e f)
  unfolding finalize end_once
  finalize-Lives e f v = grind (arith, seen-handle_rpc)

  module _ {M : Type 0} (env : Env M) where
    write_response-Lives : (r : Response) (f : Focus) → Lives f → Lives (write_response env r f).0
    unfolding write_response seen
    write_response-Lives r f v = ground arith

    begin_maybe-Lives : (f : Focus) → Lives f → Lives (begin_maybe env srv f).0
    unfolding begin_maybe
    begin_maybe-Lives f v =
        if_keeps (λ (r : Focus × Option Error). Lives r.0) f.has_begun _ _ v
          (write_response-Lives (begin_response srv f) (set_begun f)
            (record { begins = v.begins; ends = v.ends }))

    stable : Stable env srv (Lifecycle h srv.stats_handlers)
    unfolding write_end
    stable = record {
      event = event-Lives;
      stats = stats_begin-Lives;
      final = finalize-Lives;
      pong = λ t f v. write_response-Lives (Response.pong t) f v;
      first = begin_maybe-Lives;
      data_frame = λ b f _ v. write_response-Lives (Response.payload b) f v;
      last_frame = λ e f _ v.
          write_response-Lives (end_response (status_proto env e) (make_metadata f.trailer)) f v;
    }

-- Over every interleaving of frames, worker rounds, handler calls, handler returns, stops and
-- disconnects from a new stream, the stats handlers of a name have seen Begin as often as they are
-- registered if the stream has begun, and otherwise not at all. They have seen End not at all, or
-- as often as they are registered, and then the stream has begun and endOnce has fired.
pub run-Lifecycle :
    {M : Type 0} (env : Env M) (srv : ServerConf) (h method reply : String) (streams : GoMap ℕ)
    (actions : List (Action M))
    → Lifecycle h srv.stats_handlers (core (run env srv actions (fresh method reply streams)))
unfolding seen
run-Lifecycle env srv h method reply streams actions =
    run-Stable env srv (Lifecycle h srv.stats_handlers) (stable h srv env) actions
      (fresh method reply streams)
      (unfold new_server_stream in record { begins = refl; ends = inl refl })
