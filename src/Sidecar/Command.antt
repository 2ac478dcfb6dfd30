-- ===== src/Sidecar/Command.antt =====
-- The command of cmd/nats-grpc-sidecar/main.go: flags, Start, and Close after a signal.
use nats_grpc.Base.{Bool, String, Option, none, some, List, GoMap, lookup}
use nats_grpc.Base.Text.{◌+++◌}
use nats_grpc.Wire.{Error}
use nats_grpc.Sidecar.{Config, new_config, Started, start}
use nats_grpc.Sidecar.Ingress.{Registration}
use nats_grpc.Sidecar.Shutdown.{Sidecar, Stop, running, close}

-- The flags of the command line, by name; flag.String gives the default where a flag is left out.
unfoldable pub flag_value : String → String → GoMap String → String
flag_value name default flags = elim (lookup name flags) [ none ↦ default | some v ↦ v ]

unfoldable pub main_config : GoMap String → Config
unfolding flag_value
main_config flags = record {
  nats_url = flag_value "nats" "nats://localhost:4222" flags;
  egress_addr = flag_value "egress" "127.0.0.1:50051" flags;
  http_admin_addr = flag_value "http-admin" "127.0.0.1:50101" flags;
  nid = flag_value "nid" "" flags;
}

-- How the command ends: log.Fatalf, or a Close after the signal, which may still wait. The error of
-- Close is dropped.
pub data Exit : Type 0 where
  fatal : String → Exit
  closed : Option (Sidecar × List Stop) → Exit

module _ (text : Error → String) where
  unfoldable pub after_start : Started → Bool → GoMap Registration → Exit
  after_start s drained rs = elim s.error [
    | some e ↦ fatal ("sidecar.Start: " +++ text e)
    | none ↦ closed (close drained (running s rs))
  ]

  -- `random` is randomNid(), `rs` are the registrations when the signal comes, and `drained` says that
  -- every call through the egress ends
  unfoldable pub main :
      String
      → GoMap String
      → Option Error
      → Option Error
      → Option Error
      → Bool
      → GoMap Registration
      → Exit
  main random flags connect listen_egress listen_admin drained rs =
      after_start
        (start text (new_config random (main_config flags)) connect listen_egress listen_admin)
        drained rs
