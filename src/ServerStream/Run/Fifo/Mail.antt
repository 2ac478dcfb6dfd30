-- ===== src/ServerStream/Run/Fifo/Mail.antt =====
-- The part of a stream through which payloads go, and the operations that leave it alone.
use nats_grpc.Base.{◌≡◌, refl, ◌∙◌, Bool, Option, none, some, List, [], ◌∷◌, arith, if_keeps}
use nats_grpc.Wire.{Bytes, Call, Response, Error, Result, ok, err, Md}
use nats_grpc.Env.{Env}
use nats_grpc.ServerStream.{
  HandlerFunc, unary_func, stream_func, ServerConf, Focus, set_begun, begin_response, stats_begin,
  end_once, finalize, write_response, begin_maybe, write_end, close,
}
use nats_grpc.ServerStream.Frames.{start_call, call_handler}
use nats_grpc.ServerStream.Handler.{
  set_header, begin_header, send_header, send_payload, send_begun, send_msg, close_sent,
  respond_unary, return_unary, return_stream,
}
use nats_grpc.ServerStream.Run.{error_of, finish_handler}

pub record Mailbox : Type 0 where
  pub recv : List Bytes
  pub blocked : Option Bytes
  pub recv_open : Bool
  pub inbox : List Bytes

abbrev pub mail : Focus → Mailbox
mail f = record { recv = f.recv; blocked = f.blocked; recv_open = f.recv_open; inbox = f.inbox }

module _ (srv : ServerConf) where
  pub stats_begin-mail : (f : Focus) → mail (stats_begin srv f) ≡ mail f
  unfolding stats_begin
  stats_begin-mail f = ground arith

  pub finalize-mail : (e : Option Error) (f : Focus) → mail (finalize srv e f) ≡ mail f
  unfolding finalize end_once
  finalize-mail e f = ground arith

module _ {M : Type 0} (env : Env M) where
  pub write_response-mail : (r : Response) (f : Focus) → mail (write_response env r f).0 ≡ mail f
  unfolding write_response
  write_response-mail r f = ground arith

module _ {M : Type 0} (env : Env M) (srv : ServerConf) where
  begin_maybe-mail : (f : Focus) → mail (begin_maybe env srv f).0 ≡ mail f
  unfolding begin_maybe
  begin_maybe-mail f =
      if_keeps (λ (r : Focus × Option Error). mail r.0 ≡ mail f) f.has_begun _ _ refl
        (write_response-mail env (begin_response srv f) (set_begun f))

  pub close-mail : (e : Option Error) (f : Focus) → mail (close env srv e f) ≡ mail f
  unfolding close write_end
  close-mail e f = finalize-mail srv e _ ∙ write_response-mail env _ _ ∙ begin_maybe-mail f

  pub call_handler-mail :
      (o : Option HandlerFunc) (c : Call) (f : Focus) → mail (call_handler env srv o c f) ≡ mail f
  unfolding call_handler start_call
  call_handler-mail none c f = close-mail _ f
  call_handler-mail (some h) c f = stats_begin-mail srv _

  pub set_header-mail : (md : Option Md) (f : Focus) → mail (set_header env srv md f).0 ≡ mail f
  unfolding set_header
  set_header-mail md f =
      if_keeps (λ (r : Focus × Option Error). mail r.0 ≡ mail f) f.has_begun _ _ refl refl

  begin_header-mail : (r : Focus × Option Error) → mail (begin_header env srv r).0 ≡ mail r.0
  unfolding begin_header
  begin_header-mail (f, none) = begin_maybe-mail f
  begin_header-mail (f, some e) = refl

  send_payload-mail :
      (m : M) (r : Result Bytes) (f : Focus) → mail (send_payload env srv m r f) ≡ mail f
  unfolding send_payload
  send_payload-mail m (err e) f = refl
  send_payload-mail m (ok b) f = write_response-mail env (Response.payload b) _

  send_begun-mail : (m : M) (r : Focus × Option Error) → mail (send_begun env srv m r).0 ≡ mail r.0
  unfolding send_begun
  send_begun-mail m (f, none) = send_payload-mail m (env.marshal m) f
  send_begun-mail m (f, some e) = close-mail (some e) f

  pub send_msg-mail : (m : M) (f : Focus) → mail (send_msg env srv m f).0 ≡ mail f
  unfolding send_msg
  send_msg-mail m f = send_begun-mail m (begin_maybe env srv f) ∙ begin_maybe-mail f

  close_sent-mail : (r : Focus × Option Error) → mail (close_sent env srv r) ≡ mail r.0
  unfolding close_sent
  close_sent-mail (f, none) = close-mail none f
  close_sent-mail (f, some e) = refl

  respond_unary-mail : (r : Result M) (f : Focus) → mail (respond_unary env srv r f) ≡ mail f
  unfolding respond_unary
  respond_unary-mail (err e) f = close-mail (some e) f
  respond_unary-mail (ok m) f = close_sent-mail (send_msg env srv m f) ∙ send_msg-mail m f

  pub finish_handler-mail :
      (r : Result M) (hs : List HandlerFunc) (f : Focus)
      → mail (finish_handler env srv r hs f) ≡ mail f
  unfolding finish_handler return_unary return_stream
  finish_handler-mail r [] f = refl
  finish_handler-mail r (unary_func i ∷ hs) f =
      if_keeps (λ g. mail g ≡ mail f) f.cancelled _ _ refl (respond_unary-mail r _)
  finish_handler-mail r (stream_func i ∷ hs) f =
      if_keeps (λ g. mail g ≡ mail f) f.cancelled _ _ refl (close-mail (error_of r) _)

  pub send_header-mail : (md : Option Md) (f : Focus) → mail (send_header env srv md f).0 ≡ mail f
  unfolding send_header
  send_header-mail md f = begin_header-mail (set_header env srv md f) ∙ set_header-mail md f
