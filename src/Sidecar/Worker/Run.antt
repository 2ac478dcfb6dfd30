-- ===== src/Sidecar/Worker/Run.antt =====
-- The interleavings of one worker: NATS delivers frames, run and its goroutine make rounds, the
-- registration is torn down.
pub mod Last
pub mod Draining
pub mod Fifo
pub mod Queue
use nats_grpc.Base.{ℕ, String, Bool, List, [], ◌∷◌, Option, none, some}
use nats_grpc.Wire.{Bytes, Error, Result, ok, err}
use nats_grpc.Env.{Env}
use nats_grpc.Sidecar.Ingress.{teardown}
use nats_grpc.Sidecar.Worker.{WorkerFocus, Ready, deliver, unwait, run_round, pump_round}

pub data WorkerAction : Type 0 where
  arrive : Bytes → WorkerAction
  resume : Bool → WorkerAction
  round : Ready → WorkerAction
  pump : Result Bytes → WorkerAction
  tear_down : WorkerAction

module _ {M : Type 0} (env : Env M) (nid : String) where
  unfoldable pub worker_step : WorkerAction → WorkerFocus → WorkerFocus
  worker_step (arrive b) f = deliver env nid b f
  worker_step (resume quit) f = unwait env nid quit f.waiting f
  worker_step (round r) f = run_round env nid r f
  worker_step (pump r) f = pump_round env nid r f
  worker_step tear_down f = record f { reg = teardown f.reg }

  unfoldable pub worker_run : List WorkerAction → WorkerFocus → WorkerFocus
  worker_run [] f = f
  worker_run (a ∷ more) f = worker_run more (worker_step a f)
