-- ===== src/ClientStream/Run/Order.antt =====
-- The order of the frames that a client stream publishes: Call once, before all Data frames.
use nats_grpc.Base.{
  ℕ, suc, ◌<◌, String, ◌≡◌, refl, sym, ap, subst, ◌∙◌, Bool, true, false, Option, List, [], ◌∷◌,
  arith, GoMap, if_keeps, if◌then◌else◌,
}
use nats_grpc.Wire.{Bytes, Request, ok, Md}
use nats_grpc.Stats.{Context, RpcStats, Log, Frame, Effect, handle_rpc}
use nats_grpc.Stats.Counts.{frames, frames-handle_rpc}
use nats_grpc.Env.{Env}
use nats_grpc.Metadata.{make_metadata}
use nats_grpc.Client.{Client}
use nats_grpc.ClientStream.{
  ClientFocus, stream_on_subject, report_end, tear_down, done, write_request, publish_request_bytes,
}
use nats_grpc.ClientStream.Frames.{call_maybe}
use nats_grpc.ClientStream.Run.{ClientAction, client_run}
use nats_grpc.ClientStream.Run.Stable.{Core, core, is_control, Stable, client_run-Stable}

-- how many Call frames there are
unfoldable pub calls : List Frame → ℕ
calls [] = 0
calls (Frame.request (Request.call c) ∷ fs) = suc (calls fs)
calls (_ ∷ fs) = calls fs

abbrev pub is_data : Frame → Bool
is_data (Frame.request (Request.payload b)) = true
is_data _ = false

-- Newest first: a Call stands behind every Data frame.
abbrev pub IsOrdered : List Frame → Type 0
IsOrdered [] = Unit
IsOrdered (f ∷ fs) = (is_data f ≡ true → 0 < calls fs) × IsOrdered fs

-- A connection that accepts every request.
pub record IsReliable {M : Type 0} (env : Env M) : Type 0 where
  pub encodes : (r : Request) → (b : Bytes) × (env.marshal_request r ≡ ok b)
  pub accepts : (log : Log) (s : String) (b : Bytes) → env.publish log s b ≡ Option.none

pub record CallOrder (log : Log) (has_begun : Bool) : Type 0 where
  pub ordered : IsOrdered (frames log)
  pub once : calls (frames log) ≡ (if has_begun then 1 else 0)

abbrev pub Called : Core → Type 0
Called c = CallOrder c.log c.has_begun

abbrev B : ClientFocus → Type 0
B f = Called (core f)

calls-control :
    (r : Request) (fs : List Frame) → is_control r ≡ true → calls (Frame.request r ∷ fs) ≡ calls fs
unfolding calls
calls-control (Request.call c) fs k = absurd (cc)
calls-control (Request.payload b) fs k = absurd (cc)
calls-control _ fs k = refl

control-not-data : (r : Request) → is_control r ≡ true → is_data (Frame.request r) ≡ false
control-not-data (Request.payload b) k = absurd (cc)
control-not-data _ k = refl

event-frames :
    (ctx : Context) (ev : RpcStats) (f : ClientFocus)
    → frames (handle_rpc f.client.stats_handlers ctx ev f.log) ≡ frames f.log
event-frames ctx ev f = frames-handle_rpc f.client.stats_handlers ctx ev f.log

-- an operation that publishes nothing
silent : {l k : Log} {b : Bool} → frames l ≡ frames k → CallOrder k b → CallOrder l b
silent e v = record { ordered = subst IsOrdered (sym e) v.ordered; once = ap calls e ∙ v.once }

module _ {M : Type 0} (env : Env M) (rel : IsReliable env) where
  -- a frame that is written goes to the head of the log, and nothing else changes
  pub write-frames :
      (r : Request) (f : ClientFocus)
      → (b : Bytes) × ((write_request env r f).0
          ≡ record f { log = Effect.published f.subject f.reply (Frame.request r) b ∷ f.log })
  unfolding write_request
  write-frames r f = (
    (rel.encodes r).0,
    rw (
      (rel.encodes r).1,
      rel.accepts f.log f.subject (rel.encodes r).0,
      write_request,
      publish_request_bytes,
    ),
  )

  write-Called :
      (r : Request) (f : ClientFocus) → is_control r ≡ true → B f → B (write_request env r f).0
  unfolding frames
  write-Called r f k v = subst B (sym (write-frames r f).1) (record {
    ordered = (λ d. absurd (cc (control-not-data r k)), v.ordered);
    once = calls-control r (frames f.log) k ∙ v.once;
  })

  data-Called :
      (b : Bytes) (f : ClientFocus)
      → f.has_begun ≡ true
      → B f
      → B (write_request env (Request.payload b) f).0
  unfolding frames calls
  data-Called b f h v =
      subst B (sym (write-frames (Request.payload b) f).1)
        (record { ordered = (λ _. rw (v.once, h) (omega arith), v.ordered); once = v.once })

  call_maybe-Called : (f : ClientFocus) → B f → B (call_maybe env f)
  unfolding call_maybe frames calls
  call_maybe-Called f v = choose f.has_begun refl
    where
      r : Request
      r =
          Request.call
            (record { method = f.method; metadata = make_metadata f.md; nid = f.client.nid })

      g : ClientFocus
      g = record f { stream = record f.stream { has_begun = true } }

      choose : (b : Bool) → f.has_begun ≡ b → B (if b then f else (write_request env r g).0)
      choose true e = v
      choose false e =
          subst B (sym (write-frames r g).1)
            (record { ordered = (λ n. cc, v.ordered); once = ap suc (rw e at v.once) })

  report_end-Called : (f : ClientFocus) → B f → B (report_end f)
  unfolding report_end
  report_end-Called f v = if_keeps B f.ended _ _ v (silent (event-frames _ _ f) v)

  done-Called : (f : ClientFocus) → B f → B (done f)
  unfolding done tear_down frames
  done-Called f v = if_keeps B f.closed _ _ v (silent refl (report_end-Called _ v))

  stable : Stable env Called
  stable = record {
    event = λ ctx ev f b e v. silent (event-frames ctx ev f) v;
    finish = done-Called;
    write = write-Called;
    call = call_maybe-Called;
    data_frame = data-Called;
    trailers = λ m f v. v;
    cancel = λ e f v. v;
  }

  -- On a connection that accepts every request, over every interleaving of actions from a new stream
  -- on which clientStream.Invoke is not called, Call is published at most once, and no Data frame is
  -- published before it. Once a message has been sent (hasBegun) it has been published.
  pub client_run-Called :
      (c : Client) (ctx : Context) (subject method inbox : String) (id now : ℕ)
      (header trailer : Option Md) (streams : GoMap ℕ) (actions : List (ClientAction M))
      → Called (
          core (
            client_run env actions
              (stream_on_subject c ctx subject method inbox id now header trailer streams [])))
  unfolding stream_on_subject frames calls
  client_run-Called c ctx subject method inbox id now header trailer streams actions =
      let f = stream_on_subject c ctx subject method inbox id now header trailer streams [] in
      let e = frames-handle_rpc c.stats_handlers f.stats_ctx RpcStats.begin [] in
      client_run-Stable env Called stable actions f
        (record { ordered = subst IsOrdered (sym e) tt; once = ap calls e })
