-- ===== src/ClientStream/Run.antt =====
-- The interleavings of one client stream: NATS delivers messages, ReadMsg takes them, the caller
-- sends and receives, the heartbeat ticks, and the context ends. An action that is not enabled
-- changes nothing.
pub mod Stable
pub mod Order
pub mod Teardown
pub mod Heartbeat
pub mod Completion
pub mod Trailer
pub mod Invoke
pub mod Blocked
pub mod Delivery
use nats_grpc.Base.{ℕ, Bool, false, Option, none, some, List, [], ◌∷◌, ◌++◌, if◌then◌else◌}
use nats_grpc.Wire.{Bytes, Error}
use nats_grpc.Env.{Env}
use nats_grpc.Client.{Body}
use nats_grpc.ClientStream.{ClientFocus, done, close_send, first_error}
use nats_grpc.ClientStream.Frames.{
  read_msg, set_last_err, send_msg, recv_msg, ping_tick, monitor_tick,
}

pub data ClientAction (M : Type 0) : Type 0 where
  arrive : Bytes → ClientAction M
  read : Bool → ℕ → ClientAction M
  record_error : ClientAction M
  send : Body M → ClientAction M
  recv : Bool → Body M → ClientAction M
  half_close : ClientAction M
  ping monitor : ℕ → ClientAction M
  cancel : Error → ClientAction M
  watch : ClientAction M

-- the goroutine that waits for the context
unfoldable pub watch_on : Option Error → ClientFocus → ClientFocus
watch_on none f = f
watch_on (some e) f = done f

module _ {M : Type 0} (env : Env M) where
  unfoldable pub client_step : ClientAction M → ClientFocus → ClientFocus
  client_step (ClientAction.arrive b) f =
      if f.closed then f else record f { stream = record f.stream { msgs = f.msgs ++ b ∷ [] } }
  client_step (ClientAction.read quit now) f = read_msg env quit now f.blocked f
  client_step ClientAction.record_error f = set_last_err env f.last_err f.failed f
  client_step (ClientAction.send m) f = (send_msg env m f).0
  client_step (ClientAction.recv quit old) f = (recv_msg env quit old f).0
  client_step ClientAction.half_close f = (close_send env f).0
  client_step (ClientAction.ping now) f = if f.pinging then ping_tick env now f else f
  client_step (ClientAction.monitor now) f = if f.monitoring then monitor_tick env now f else f
  client_step (ClientAction.cancel e) f = record f {
    stream = record f.stream { ctx_err = some (first_error f.ctx_err e) };
  }
  client_step ClientAction.watch f = watch_on f.ctx_err f

  unfoldable pub client_run : List (ClientAction M) → ClientFocus → ClientFocus
  client_run [] f = f
  client_run (a ∷ more) f = client_run more (client_step a f)
