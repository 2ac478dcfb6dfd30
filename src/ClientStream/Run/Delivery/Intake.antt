-- ===== src/ClientStream/Run/Delivery/Intake.antt =====
-- The part of a client stream through which payloads come in, and the operations that leave it alone.
use nats_grpc.Base.{ℕ, Bool, ◌≡◌, refl, ◌∙◌, Option, none, some, List, arith, if_keeps}
use nats_grpc.Wire.{Bytes, Request, Error, Result, ok, err}
use nats_grpc.Env.{Env}
use nats_grpc.Client.{Body, body_bytes}
use nats_grpc.ClientStream.{
  ClientFocus, report_end, tear_down, done, write_request, end_request, close,
}
use nats_grpc.ClientStream.Frames.{set_last_err, call_maybe, send_data, send_msg, monitor_tick}
use nats_grpc.ClientStream.Run.{watch_on}

pub record Inbox : Type 0 where
  pub recv : List Bytes
  pub blocked : Option Bytes
  pub recv_open : Bool
  pub msgs : List Bytes
  pub reading : Bool

abbrev pub inbox : ClientFocus → Inbox
inbox f = record {
  recv = f.recv;
  blocked = f.blocked;
  recv_open = f.recv_open;
  msgs = f.msgs;
  reading = f.reading;
}

pub done-inbox : (f : ClientFocus) → inbox (done f) ≡ inbox f
unfolding done tear_down report_end
done-inbox f = ground arith

pub watch_on-inbox : (e : Option Error) (f : ClientFocus) → inbox (watch_on e f) ≡ inbox f
unfolding watch_on
watch_on-inbox none f = refl
watch_on-inbox (some e) f = done-inbox f

module _ {M : Type 0} (env : Env M) where
  pub write_request-inbox :
      (r : Request) (f : ClientFocus) → inbox (write_request env r f).0 ≡ inbox f
  unfolding write_request
  write_request-inbox r f = ground arith

  close-inbox : (e : Error) (f : ClientFocus) → inbox (close env e f) ≡ inbox f
  unfolding close
  close-inbox e f =
      let g = record f { stream = record f.stream { end_err = some e } } in
      done-inbox (write_request env (end_request env (some e)) g).0
      ∙ write_request-inbox (end_request env (some e)) g

  call_maybe-inbox : (f : ClientFocus) → inbox (call_maybe env f) ≡ inbox f
  unfolding call_maybe
  call_maybe-inbox f =
      if_keeps (λ g. inbox g ≡ inbox f) f.has_begun _ _ refl (write_request-inbox _ _)

  send_data-inbox : (r : Result Bytes) (f : ClientFocus) → inbox (send_data env r f).0 ≡ inbox f
  unfolding send_data
  send_data-inbox (err e) f = refl
  send_data-inbox (ok b) f = write_request-inbox (Request.payload b) _

  pub send_msg-inbox : (m : Body M) (f : ClientFocus) → inbox (send_msg env m f).0 ≡ inbox f
  unfolding send_msg
  send_msg-inbox m f =
      if_keeps (λ (r : ClientFocus × Option Error). inbox r.0 ≡ inbox f) f.closed _ _ refl
        (send_data-inbox (body_bytes env m) (call_maybe env f) ∙ call_maybe-inbox f)

  pub set_last_err-inbox :
      (o e : Option Error) (f : ClientFocus) → inbox (set_last_err env o e f) ≡ inbox f
  unfolding set_last_err
  set_last_err-inbox none e f = refl
  set_last_err-inbox (some x) e f = refl

  pub monitor_tick-inbox : (now : ℕ) (f : ClientFocus) → inbox (monitor_tick env now f) ≡ inbox f
  unfolding monitor_tick
  monitor_tick-inbox now f = if_keeps (λ g. inbox g ≡ inbox f) _ _ _ (close-inbox _ _) refl
