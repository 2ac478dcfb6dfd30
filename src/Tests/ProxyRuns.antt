-- ===== src/Tests/ProxyRuns.antt =====
-- Concrete runs of the proxy, of the copying goroutines and of the random values, and their
-- properties at concrete inputs.
use nats_grpc.Base.{ℕ, ◌≤◌, ◌<◌, String, ◌≡◌, refl, List, [], ◌∷◌, arith}
use nats_grpc.Wire.{Bytes, eof, canceled, other, Result, ok, err}
use nats_grpc.Stats.{Context}
use nats_grpc.ServerStream.{background}
use nats_grpc.Pump.{PumpEvent, s2c, c2s}
use nats_grpc.Proxy.{Conn, nrpc_client}
use nats_grpc.Random.{rank, rand_int, rand_int_bounds}

-- the caller half-closes, and then the upstream ends with an error
abbrev both_end : List PumpEvent
both_end = s2c eof ∷ c2s canceled ∷ []

abbrev director : String → Result (Context × Conn)
director method = ok (background, nrpc_client)

abbrev zeros : ℕ → Result Bytes
zeros n = ok (0 ∷ 0 ∷ 0 ∷ 0 ∷ 0 ∷ 0 ∷ 1 ∷ 200 ∷ [])

-- from -3 to 4
abbrev low : ℕ
low = 18446744073709551613

rand_int_bounds_example :
    (rank 4 ≤ rank low → rand_int zeros low 4 ≡ err (other "RandInt: min must be < max"))
    × (rank low < rank 4
        → (r : ℕ) × (rand_int zeros low 4 ≡ ok r) × (rank low ≤ rank r) × (rank r < rank 4))
rand_int_bounds_example =
    rand_int_bounds zeros low 4 (0 ∷ 0 ∷ 0 ∷ 0 ∷ 0 ∷ 0 ∷ 1 ∷ 200 ∷ []) refl (omega arith)
      (omega arith)
