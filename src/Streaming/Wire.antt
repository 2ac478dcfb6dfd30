-- ===== src/Streaming/Wire.antt =====
-- What the two ends of a stream put on the wire: the bytes of the frames in a log, and the payloads
-- that they carry.
use nats_grpc.Base.{◌≡◌, refl, sym, ap, ◌∙◌, List, [], ◌∷◌, ◌++◌, append-nil, append_assoc}
use nats_grpc.Wire.{Bytes, Request, Response, Result, ok}
use nats_grpc.Stats.{Context, RpcStats, StatsHandler, Frame, Effect, Log, handle_rpc}
use nats_grpc.Env.{Env}

-- the bytes of the requests and of the responses that the connection accepted, oldest first
unfoldable pub requests : Log → List Bytes
requests [] = []
requests (Effect.published s r (Frame.request q) b ∷ log) = requests log ++ b ∷ []
requests (_ ∷ log) = requests log

unfoldable pub responses : Log → List Bytes
responses [] = []
responses (Effect.published s r (Frame.response q) b ∷ log) = responses log ++ b ∷ []
responses (_ ∷ log) = responses log

pub requests-handle_rpc :
    (hs : List StatsHandler) (ctx : Context) (ev : RpcStats) (log : Log)
    → requests (handle_rpc hs ctx ev log) ≡ requests log
unfolding handle_rpc requests
requests-handle_rpc [] ctx ev log = refl
requests-handle_rpc (h ∷ hs) ctx ev log =
    requests-handle_rpc hs ctx ev (Effect.handled h.name ctx ev ∷ log)

pub responses-handle_rpc :
    (hs : List StatsHandler) (ctx : Context) (ev : RpcStats) (log : Log)
    → responses (handle_rpc hs ctx ev log) ≡ responses log
unfolding handle_rpc responses
responses-handle_rpc [] ctx ev log = refl
responses-handle_rpc (h ∷ hs) ctx ev log =
    responses-handle_rpc hs ctx ev (Effect.handled h.name ctx ev ∷ log)

abbrev pub request_data : Result Request → List Bytes
request_data (ok (Request.payload b)) = b ∷ []
request_data _ = []

abbrev pub response_data : Result Response → List Bytes
response_data (ok (Response.payload b)) = b ∷ []
response_data _ = []

-- the payloads of the Data frames among the bytes that `decode` reads
module _ {R : Type 0} (data_of : R → List Bytes) (decode : Bytes → R) where
  unfoldable pub data_in : List Bytes → List Bytes
  data_in [] = []
  data_in (b ∷ bs) = data_of (decode b) ++ data_in bs

  pub data_in-append : (xs ys : List Bytes) → data_in (xs ++ ys) ≡ data_in xs ++ data_in ys
  unfolding data_in
  data_in-append [] ys = refl
  data_in-append (x ∷ xs) ys =
      ap (λ l. data_of (decode x) ++ l) (data_in-append xs ys)
      ∙ sym (append_assoc (data_of (decode x)) (data_in xs) (data_in ys))

  pub data_in-snoc :
      (xs : List Bytes) (b : Bytes) → data_in (xs ++ b ∷ []) ≡ data_in xs ++ data_of (decode b)
  data_in-snoc xs b =
      data_in-append xs (b ∷ [])
      ∙ ap (λ l. data_in xs ++ l) (unfold data_in in append-nil (data_of (decode b)))

module _ {M : Type 0} (env : Env M) where
  -- the payloads that a log's requests and responses carry to the other end
  abbrev pub sent_up : Log → List Bytes
  sent_up log = data_in request_data env.unmarshal_request (requests log)

  abbrev pub sent_down : Log → List Bytes
  sent_down log = data_in response_data env.unmarshal_response (responses log)
