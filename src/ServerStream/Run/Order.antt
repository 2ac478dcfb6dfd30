-- ===== src/ServerStream/Run/Order.antt =====
-- The order of the frames that a stream publishes: Begin once, before all Data and End frames.
use nats_grpc.Base.{
  ℕ, suc, ◌+◌, ◌<◌, String, ◌≡◌, refl, sym, ap, subst, ◌∙◌, Bool, true, false, none, List, [], ◌∷◌,
  arith, GoMap, if◌then◌else◌,
}
use nats_grpc.Wire.{Bytes, Response, ok}
use nats_grpc.Stats.{Log, Frame, Effect}
use nats_grpc.Stats.Counts.{frames, frames-handle_rpc}
use nats_grpc.Env.{status_proto, Env}
use nats_grpc.Metadata.{make_metadata}
use nats_grpc.ServerStream.{
  ServerConf, Focus, new_server_stream, fresh, set_begun, begin_response, end_response, stats_begin,
  end_once, finalize, write_response, publish_bytes, begin_maybe, write_end,
}
use nats_grpc.ServerStream.Run.{Action, run}
use nats_grpc.ServerStream.Run.Stable.{Core, core, Stable, run-Stable}

-- how many Begin frames there are
unfoldable pub begins : List Frame → ℕ
begins [] = 0
begins (Frame.response (Response.begin b) ∷ fs) = suc (begins fs)
begins (_ ∷ fs) = begins fs

abbrev pub needs_begin : Frame → Bool
needs_begin (Frame.response (Response.payload b)) = true
needs_begin (Frame.response (Response.end e)) = true
needs_begin _ = false

-- Newest first: a Begin stands behind every Data and every End frame.
abbrev pub IsOrdered : List Frame → Type 0
IsOrdered [] = Unit
IsOrdered (f ∷ fs) = (needs_begin f ≡ true → 0 < begins fs) × IsOrdered fs

-- A connection that accepts every frame.
pub record IsReliable {M : Type 0} (env : Env M) : Type 0 where
  pub encodes : (r : Response) → (b : Bytes) × (env.marshal_response r ≡ ok b)
  pub accepts : (log : Log) (s : String) (b : Bytes) → env.publish log s b ≡ none

pub record Begun (c : Core) : Type 0 where
  pub ordered : IsOrdered (frames c.log)
  pub once : begins (frames c.log) ≡ (if c.has_begun then 1 else 0)

begins-response :
    (r : Response) (fs : List Frame)
    → begins (Frame.response r ∷ fs) ≡ begins (Frame.response r ∷ []) + begins fs
unfolding begins
begins-response (Response.begin b) fs = omega arith
begins-response _ fs = omega arith

abbrev B : Focus → Type 0
B f = Begun (core f)

module _ {M : Type 0} (env : Env M) (rel : IsReliable env) where
  -- a frame that is written goes to the head of the log, and nothing else changes
  write-frames :
      (r : Response) (f : Focus)
      → (b : Bytes) × ((write_response env r f).0
          ≡ record f { log = Effect.published f.reply "" (Frame.response r) b ∷ f.log })
  unfolding write_response
  write-frames r f = (
    (rel.encodes r).0,
    rw (
      (rel.encodes r).1,
      rel.accepts f.log f.reply (rel.encodes r).0,
      write_response,
      publish_bytes,
    ),
  )

  write-Begun :
      (r : Response) (f : Focus)
      → begins (Frame.response r ∷ []) ≡ 0
      → (needs_begin (Frame.response r) ≡ true → f.has_begun ≡ true)
      → B f
      → B (write_response env r f).0
  unfolding frames
  write-Begun r f none_here need v = subst B (sym (write-frames r f).1) (record {
    ordered = (λ n. rw (v.once, need n) (omega arith), v.ordered);
    once = begins-response r (frames f.log) ∙ rw none_here (omega (arith, v.once));
  })

  begin_maybe-Begun : (srv : ServerConf) (f : Focus) → B f → B (begin_maybe env srv f).0
  unfolding begin_maybe frames begins
  begin_maybe-Begun srv f v = choose f.has_begun refl
    where
      choose :
          (b : Bool)
          → f.has_begun ≡ b
          → B (if b then (f, none) else write_response env (begin_response srv f) (set_begun f)).0
      choose true e = v
      choose false e =
          subst B (sym (write-frames (begin_response srv f) (set_begun f)).1)
            (record { ordered = (λ n. cc, v.ordered); once = ap suc (rw e at v.once) })

  stable : (srv : ServerConf) → Stable env srv Begun
  unfolding write_end stats_begin finalize end_once begins
  stable srv = record {
    event = λ ctx ev f b e v. grind (arith, frames-handle_rpc);
    stats = λ f v. grind (arith, frames-handle_rpc);
    final = λ e f v. grind (arith, frames-handle_rpc);
    pong = λ t f v. write-Begun (Response.pong t) f refl (λ n. cc) v;
    first = begin_maybe-Begun srv;
    data_frame = λ b f h v. write-Begun (Response.payload b) f refl (λ _. h) v;
    last_frame = λ e f h v.
        write-Begun (end_response (status_proto env e) (make_metadata f.trailer)) f refl (λ _. h) v;
  }

  -- On a connection that accepts every frame, over every interleaving of actions from a new stream,
  -- Begin is published at most once, and no Data and no End frame is published before it. Once a
  -- Begin is due (hasBegun) it has been published.
  pub run-Begun :
      (srv : ServerConf) (method reply : String) (streams : GoMap ℕ) (actions : List (Action M))
      → Begun (core (run env srv actions (fresh method reply streams)))
  unfolding frames begins
  run-Begun srv method reply streams actions =
      run-Stable env srv Begun (stable srv) actions (fresh method reply streams)
        (unfold new_server_stream in record { ordered = tt; once = refl })
