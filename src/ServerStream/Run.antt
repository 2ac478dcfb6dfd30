-- ===== src/ServerStream/Run.antt =====
-- The interleavings of one server stream: NATS delivers frames, the worker takes them, handler
-- goroutines call the stream and return, and the server stops or drops the stream. An action that
-- is not enabled changes nothing.
pub mod Stable
pub mod Lifecycle
pub mod Ending
pub mod Order
pub mod Fifo
pub mod Delivery
use nats_grpc.Base.{Bool, Option, none, some, List, [], ◌∷◌}
use nats_grpc.Wire.{Bytes, Error, Result, ok, err, Md, status_with}
use nats_grpc.Wire.Code
use nats_grpc.Env.{Env}
use nats_grpc.ServerStream.{HandlerFunc, unary_func, stream_func, ServerConf, Focus, finalize, done}
use nats_grpc.ServerStream.Frames as Frames
use nats_grpc.ServerStream.Handler as Handler

pub data Action (M : Type 0) : Type 0 where
  deliver : Bool → Bytes → Action M
  work : Bool → Action M
  recv : Bool → Action M
  set_header send_header set_trailer : Option Md → Action M
  send : M → Action M
  finish : Result M → Action M
  stop disconnect : Action M

abbrev pub stop_error : Error
stop_error = status_with Code.unavailable "server stopping"

abbrev pub error_of {ℓ} : {A : Type ℓ} → Result A → Option Error
error_of (ok a) = none
error_of (err e) = some e

module _ {M : Type 0} (env : Env M) (srv : ServerConf) where
  unfoldable pub finish_handler : Result M → List HandlerFunc → Focus → Focus
  finish_handler r [] f = f
  finish_handler r (unary_func i ∷ hs) f =
      Handler.return_unary env srv r (record f { stream = record f.stream { running = hs } })
  finish_handler r (stream_func i ∷ hs) f =
      Handler.return_stream env srv (error_of r)
        (record f { stream = record f.stream { running = hs } })

  -- the calls that a handler makes on its stream
  unfoldable pub handler_call : Action M → Focus → Focus
  handler_call (Action.recv quit) f = (Handler.recv_msg env srv quit f).0
  handler_call (Action.set_header md) f = (Handler.set_header env srv md f).0
  handler_call (Action.send_header md) f = (Handler.send_header env srv md f).0
  handler_call (Action.set_trailer md) f = Handler.set_trailer env srv md f
  handler_call (Action.send m) f = (Handler.send_msg env srv m f).0
  handler_call _ f = f

  -- without a handler no call is made
  unfoldable pub while_running : Action M → List HandlerFunc → Focus → Focus
  while_running a [] f = f
  while_running a (h ∷ hs) f = handler_call a f

  unfoldable pub step : Action M → Focus → Focus
  step (Action.deliver drop b) f = Frames.enqueue drop b f
  step (Action.work quit) f = Frames.work env srv quit f
  step (Action.finish r) f = finish_handler r f.running f
  step Action.stop f = finalize srv (some stop_error) f
  step Action.disconnect f = done srv f
  step a f = while_running a f.running f

  unfoldable pub run : List (Action M) → Focus → Focus
  run [] f = f
  run (a ∷ more) f = run more (step a f)
