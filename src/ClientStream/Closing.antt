-- ===== src/ClientStream/Closing.antt =====
-- Close and CloseStream of Client in pkg/rpc/client.go. The errors of Unsubscribe, which Close
-- returns, are left out; Client's own context has no stream under it.
pub mod Snapshot
use nats_grpc.Base.{
  ℕ, String, ◌≡◌, ◌≢◌, ◌⊎◌, inl, inr, refl, sym, ap, subst, ◌∙◌, Bool, true, false, Option, none,
  some, List, [], ◌∷◌, arith, ◌==◌, eq_refl, nat_eq, GoMap, lookup, delete, lookup-delete,
  lookup-delete_self, if_keeps, if_true, if_false, if◌then◌else◌,
}
use nats_grpc.Stats.{Log}
use nats_grpc.Client.{Client}
use nats_grpc.ClientStream.{ClientStream, ClientFocus, done, tear_down, report_end}

-- The client with its streams: `objects` is the heap, and an entry of `streams` a pointer to it.
pub record ClientNode : Type 0 where
  pub client : Client
  pub streams : GoMap ℕ
  pub objects : ℕ → ClientStream
  pub log : Log

abbrev pub client_focus : ℕ → ClientNode → ClientFocus
client_focus id n = record { stream = n.objects id; streams = n.streams; log = n.log }

abbrev pub client_unfocus : ℕ → ClientFocus → ClientNode → ClientNode
client_unfocus id f n = record n {
  streams = f.streams;
  objects = λ k. if nat_eq k id then f.stream else n.objects k;
  log = f.log;
}

abbrev pub done_at : ℕ → ClientNode → ClientNode
done_at id n = client_unfocus id (done (client_focus id n)) n

-- the loop of Close over its snapshot
unfoldable pub done_all : GoMap ℕ → ClientNode → ClientNode
done_all [] n = n
done_all ((reply, id) ∷ more) n = done_all more (done_at id n)

unfoldable pub close_client : ClientNode → ClientNode
close_client n = done_all n.streams n

unfoldable pub close_client_stream : String → ClientNode → ClientNode × Bool
close_client_stream nid n = if n.client.svcid == nid then (close_client n, true) else (n, false)
