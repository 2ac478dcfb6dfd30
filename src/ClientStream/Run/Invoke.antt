-- ===== src/ClientStream/Run/Invoke.antt =====
-- The frames of clientStream.Invoke, and of a SendMsg that follows it.
use nats_grpc.Base.{suc, ◌+◌, ◌≡◌, refl, ap, ◌∙◌, false, String, Option, ◌∷◌, arith, if_false}
use nats_grpc.Wire.{Bytes, Request, Error, Result, ok, err}
use nats_grpc.Stats.{Frame}
use nats_grpc.Stats.Counts.{frames, frames-handle_rpc}
use nats_grpc.Env.{Env}
use nats_grpc.Metadata.{make_metadata}
use nats_grpc.Client.{Body, body_bytes}
use nats_grpc.ClientStream.{ClientFocus, write_request, close_send, end_request}
use nats_grpc.ClientStream.Frames.{call_maybe, send_data, send_msg}
use nats_grpc.ClientStream.Calls.{invoke_request, invoke_ends}
use nats_grpc.ClientStream.Run.Order.{calls, IsReliable, write-frames}

module _ {M : Type 0} (env : Env M) (rel : IsReliable env) where
  frames-write :
      (r : Request) (f : ClientFocus)
      → frames (write_request env r f).0.log ≡ Frame.request r ∷ frames f.log
  unfolding frames
  frames-write r f = ap (λ (g : ClientFocus). frames g.log) (write-frames env rel r f).1

  stays_open :
      (r : Request) (f : ClientFocus)
      → ((write_request env r f).0.closed ≡ f.closed)
        × ((write_request env r f).0.has_begun ≡ f.has_begun)
  stays_open r f = (
    ap (λ (g : ClientFocus). g.closed) (write-frames env rel r f).1,
    ap (λ (g : ClientFocus). g.has_begun) (write-frames env rel r f).1,
  )

  calls-call_maybe :
      (f : ClientFocus)
      → f.has_begun ≡ false
      → calls (frames (call_maybe env f).log) ≡ suc (calls (frames f.log))
  unfolding call_maybe calls
  calls-call_maybe f e =
      ap (λ (g : ClientFocus). calls (frames g.log)) (if_false _ _ f.has_begun e)
      ∙ ap calls (frames-write _ _)

  calls-send_data :
      (r : Result Bytes) (f : ClientFocus)
      → calls (frames (send_data env r f).0.log) ≡ calls (frames f.log)
  unfolding send_data calls
  calls-send_data (err e) f = refl
  calls-send_data (ok b) f =
      ap calls (frames-write (Request.payload b) _)
      ∙ ap calls (frames-handle_rpc f.client.stats_handlers f.stats_ctx _ f.log)

  calls-send_msg :
      (m : Body M) (f : ClientFocus)
      → f.closed ≡ false
      → f.has_begun ≡ false
      → calls (frames (send_msg env m f).0.log) ≡ suc (calls (frames f.log))
  unfolding send_msg
  calls-send_msg m f o e =
      ap (λ (r : ClientFocus × Option Error). calls (frames r.0.log)) (if_false _ _ f.closed o)
      ∙ calls-send_data (body_bytes env m) (call_maybe env f)
      ∙ calls-call_maybe f e

  -- On a connection that accepts every request, Invoke publishes a Call, the Data of its argument and,
  -- after its RecvMsg, an End without an error. It does not mark the stream as begun: on an open stream
  -- that has not begun a SendMsg after it publishes a Call again, which makes two.
  pub invoke_publishes :
      (method : String) (b : Bytes) (m : Body M) (f h : ClientFocus)
      → f.closed ≡ false
      → f.has_begun ≡ false
      → let g = invoke_request env method b f in
        (frames g.log
          ≡ Frame.request (Request.payload b)
            ∷ Frame.request
                (Request.call (record { method = method; metadata = make_metadata f.md; nid = "" }))
            ∷ frames f.log)
        × (frames (invoke_ends env h).log
            ≡ Frame.request (end_request env Option.none) ∷ frames h.log)
        × (calls (frames (send_msg env m g).0.log) ≡ 2 + calls (frames f.log))
  unfolding invoke_request invoke_ends close_send calls
  invoke_publishes method b m f h o e =
      let call =
        Request.call (record { method = method; metadata = make_metadata f.md; nid = "" }) in
      let g = (write_request env call f).0 in
      (
        frames-write (Request.payload b) g
            ∙ ap (λ l. Frame.request (Request.payload b) ∷ l) (frames-write call f),
        frames-write (end_request env Option.none) h,
        calls-send_msg m (write_request env (Request.payload b) g).0
              ((stays_open (Request.payload b) g).0 ∙ (stays_open call f).0 ∙ o)
              ((stays_open (Request.payload b) g).1 ∙ (stays_open call f).1 ∙ e)
            ∙ ap suc
                (ap calls (frames-write (Request.payload b) g) ∙ ap calls (frames-write call f))
            ∙ omega arith,
      )
