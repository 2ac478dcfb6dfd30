-- ===== src/Proxy.antt =====
-- The handler of pkg/rpc/proxy/handler.go, which copies frames between a server stream and a client
-- stream. The goroutines that copy are in Pump.antt; RegisterService and the constructors make
-- handlers only.
use nats_grpc.Base.{
  ℕ, zero, suc, String, Bool, Option, none, some, List, [], ◌∷◌, ◌++◌, if◌then◌else◌,
}
use nats_grpc.Base.Text.{◌+++◌}
use nats_grpc.Wire.{Bytes, Error, Result, ok, err, Md, status_with}
use nats_grpc.Wire.Code
use nats_grpc.Stats.{Context}
use nats_grpc.Env.{Env}
use nats_grpc.Pump.{is_eof, Forwarded, forward, PumpEvent, s2c, c2s, normalize_eof}

-- What the director returns as a connection.
pub data Conn : Type 0 where
  nrpc_client grpc_conn other_conn : Conn

-- What the handler does to its streams, in order.
pub data ProxyAction : Type 0 where
  close_send set_trailer cancel : ProxyAction

pub data Proxied : Type 0 where
  -- it returned, with the error or nil
  returned : List ProxyAction → Option Error → Proxied
  -- it waits for a goroutine
  waits : List ProxyAction → Proxied
  -- it called a method of a nil stream
  panics : Proxied

abbrev pub before : List ProxyAction → Proxied → Proxied
before acts (returned bs e) = returned (acts ++ bs) e
before acts (waits bs) = waits (acts ++ bs)
before acts panics = panics

-- forwardServerToClient
unfoldable pub forward_server_to_client : (Bytes → Option Error) → List (Result Bytes) → Forwarded
forward_server_to_client send_msg = forward (λ i b. send_msg b) 0

-- the header goes before the first frame
unfoldable pub send_first :
    Result Md → (Md → Option Error) → (Bytes → Option Error) → Bytes → Option Error
send_first (err e) send_header send_msg b = some e
send_first (ok md) send_header send_msg b = elim (send_header md) [
  | some e ↦ some e
  | none ↦ send_msg b
]

unfoldable pub send_framed :
    Result Md → (Md → Option Error) → (Bytes → Option Error) → ℕ → Bytes → Option Error
send_framed header send_header send_msg zero b = send_first header send_header send_msg b
send_framed header send_header send_msg (suc i) b = send_msg b

-- forwardClientToServer
unfoldable pub forward_client_to_server :
    Result Md → (Md → Option Error) → (Bytes → Option Error) → List (Result Bytes) → Forwarded
forward_client_to_server header send_header send_msg =
    forward (send_framed header send_header send_msg) 0

module _ {M : Type 0} (env : Env M) (auto_close_send : Bool) where
  abbrev pub unreachable : Error
  unreachable = status_with Code.internal "gRPC proxying should never reach this stage."

  abbrev pub half_close : List ProxyAction
  half_close = if auto_close_send then close_send ∷ [] else []

  -- the cases of the select
  unfoldable pub on_s2c : Error → Proxied → Proxied
  on_s2c e next =
      if is_eof e
      then before half_close next
      else returned (cancel ∷ [])
          (some (status_with Code.internal ("failed proxying s2c: " +++ env.error_text e)))

  unfoldable pub on_c2s : Error → Proxied
  on_c2s e = returned (set_trailer ∷ []) (normalize_eof e)

  -- the loop, with the rounds that are left
  unfoldable pub proxy_rounds : ℕ → List PumpEvent → Proxied
  proxy_rounds zero es = returned [] (some unreachable)
  proxy_rounds (suc n) [] = waits []
  proxy_rounds (suc n) (s2c e ∷ es) = on_s2c e (proxy_rounds n es)
  proxy_rounds (suc n) (c2s e ∷ es) = on_c2s e

  -- the deferred CloseSend
  unfoldable pub with_close_send : Proxied → Proxied
  with_close_send (returned acts e) = returned (acts ++ close_send ∷ []) e
  with_close_send (waits acts) = waits acts
  with_close_send panics = panics

  -- `opened` is what NewStream returned
  unfoldable pub on_conn : Conn → Option Error → List PumpEvent → Proxied
  on_conn other_conn opened es = panics
  on_conn _ (some e) es = returned [] (some e)
  on_conn _ none es = with_close_send (proxy_rounds 2 es)

  unfoldable pub directed : Result (Context × Conn) → Option Error → List PumpEvent → Proxied
  directed (err e) opened es = returned [] (some e)
  directed (ok (ctx, conn)) opened es = on_conn conn opened es

  unfoldable pub handler :
      Option String → (String → Result (Context × Conn)) → Option Error → List PumpEvent → Proxied
  handler none director opened es =
      returned [] (some (status_with Code.internal "lowLevelServerStream not exists in context"))
  handler (some method) director opened es = directed (director method) opened es

  -- The loop with no bound on its rounds.
  unfoldable pub proxy_on : List PumpEvent → Proxied
  proxy_on [] = waits []
  proxy_on (s2c e ∷ es) = on_s2c e (proxy_on es)
  proxy_on (c2s e ∷ es) = on_c2s e
