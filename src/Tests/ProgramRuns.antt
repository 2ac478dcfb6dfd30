-- ===== src/Tests/ProgramRuns.antt =====
-- CloseStream and the command at concrete inputs.
use nats_grpc.Base.{
  ℕ, zero, suc, eq_iff, ◌≡◌, refl, true, String, none, List, [], ◌∷◌, arith, lookup, GoMap,
}
use nats_grpc.Wire.{Error}
use nats_grpc.Server.{Node, close_stream}
use nats_grpc.Server.CloseStream.{close_stream-peer}
use nats_grpc.ServerStream.{ServerStream, new_server_stream}
use nats_grpc.Sidecar.Ingress.{Registration, new_registration}
use nats_grpc.Sidecar.Shutdown.{Sidecar}

-- a server with a stream of the peer "p" and one of the peer "q"
abbrev objects : ℕ → ServerStream
objects zero = record (new_server_stream "s" "r") { pnid = "p" }
objects (suc k) = record (new_server_stream "s" "t") { pnid = "q" }

abbrev two_peers : Node
two_peers = record {
  server = record {
    nid = "n1";
    handlers = [];
    unary_handlers = [];
    subs = [];
    services = [];
    stats_handlers = [];
  };
  streams = ("r", 0) ∷ ("t", 1) ∷ [];
  objects = objects;
  next = 2;
  tasks = [];
  log = [];
}

close_stream-peer_example :
    let m = close_stream "p" two_peers in
    (((m.objects 0).cancelled ≡ true)
      × ((m.objects 0).ended ≡ true)
      × (lookup "r" m.streams ≡ none))
    × (m.objects 1 ≡ two_peers.objects 1)
unfolding lookup new_server_stream
close_stream-peer_example =
    close_stream-peer "p" "r" 0 1 two_peers refl refl refl (λ e. ground (arith, eq_iff "q" "p"))

-- the command with a NATS URL, a call through the egress that does not end, and a registration
abbrev show_error : Error → String
show_error e = "error"

abbrev flags : GoMap String
flags = ("nats", "nats://n:4222") ∷ []

abbrev held : GoMap Registration
held = ("id", new_registration "id" "v" "localhost:1" ("S" ∷ [])) ∷ []
