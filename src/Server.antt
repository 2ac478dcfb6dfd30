-- ===== src/Server.antt =====
-- Server of pkg/rpc/server.go: registration, dispatch of NATS messages to streams, and shutdown.
-- The unary fast path is in Server/Unary.antt, a stream in ServerStream.antt.
pub mod Unary
pub mod Registration
pub mod Dispatch
pub mod Shutdown
pub mod CloseStream
pub mod Info
pub mod Options
use nats_grpc.Base.{
  ℕ, suc, String, Bool, true, false, Option, none, some, List, [], ◌∷◌, ◌==◌, nat_eq, GoMap, lookup,
  insert, if◌then◌else◌,
}
use nats_grpc.Base.Text.{◌+++◌}
use nats_grpc.Wire.{Bytes, Msg, Request, UnaryRequest, Result, ok, err}
use nats_grpc.Stats.{StatsHandler, Effect, Log}
use nats_grpc.Env.{Env}
use nats_grpc.Subjects.{service_prefix, subscription}
use nats_grpc.ServerStream.{
  Impl, HandlerFunc, unary_func, stream_func, ServerConf, ServerStream, Focus, new_server_stream,
  finalize, done,
}
use nats_grpc.ServerStream.Frames.{enqueue}
use nats_grpc.ServerStream.Run.{stop_error}

-- grpc.StreamDesc and grpc.ServiceDesc, without the handlers: the user's code is named by an Impl.
pub record StreamDesc : Type 0 where
  pub stream_name : String
  pub server_streams : Bool
  pub client_streams : Bool

pub record ServiceDesc : Type 0 where
  pub service_name : String
  pub methods : List String
  pub streams : List StreamDesc
  pub metadata : String

pub record ServiceInfo : Type 0 where
  pub methods : GoMap String
  pub streams : GoMap StreamDesc
  pub mdata : String

pub record Server : Type 0 where
  pub nid : String
  pub handlers : GoMap HandlerFunc
  pub unary_handlers : GoMap Impl
  -- the subject of each service's subscription
  pub subs : GoMap String
  pub services : GoMap ServiceInfo
  pub stats_handlers : List StatsHandler

abbrev pub conf : Server → ServerConf
conf s = record { nid = s.nid; handlers = s.handlers; stats_handlers = s.stats_handlers }

-- A unary call that runs in a goroutine of its own.
pub record UnaryTask : Type 0 where
  pub impl : Impl
  pub reply : String
  pub request : UnaryRequest

-- The running server. `objects` is the heap of streams, and an entry of `streams` a pointer to it.
pub record Node : Type 0 where
  pub server : Server
  pub open server use *
  pub streams : GoMap ℕ
  pub objects : ℕ → ServerStream
  pub next : ℕ
  pub tasks : List UnaryTask
  pub log : Log

-- whether validateStreamingNid returns a warning
unfoldable pub warns_streaming_nid : ServiceDesc → String → Bool
warns_streaming_nid sd nid = elim sd.streams [ [] ↦ false | s ∷ ss ↦ nid == "" ]

unfoldable pub add_methods : String → String → List String → Server → Server
add_methods service prefix [] s = s
add_methods service prefix (m ∷ ms) s = add_methods service prefix ms (record s {
  handlers =
      insert (prefix +++ "." +++ m) (unary_func (record { service = service; method = m }))
        s.handlers;
  unary_handlers =
      insert (prefix +++ "." +++ m) (record { service = service; method = m }) s.unary_handlers;
})

unfoldable pub add_streams : String → String → List StreamDesc → Server → Server
add_streams service prefix [] s = s
add_streams service prefix (d ∷ ds) s = add_streams service prefix ds (record s {
  handlers =
      insert (prefix +++ "." +++ d.stream_name)
        (stream_func (record { service = service; method = d.stream_name })) s.handlers;
})

unfoldable pub method_map : List String → GoMap String → GoMap String
method_map [] m = m
method_map (n ∷ ns) m = method_map ns (insert n n m)

unfoldable pub stream_map : List StreamDesc → GoMap StreamDesc → GoMap StreamDesc
stream_map [] m = m
stream_map (d ∷ ds) m = stream_map ds (insert d.stream_name d m)

-- `register`; `none` is Fatalf, which ends the process: the service is there already
unfoldable pub register : ServiceDesc → Server → Option Server
register sd s = elim (lookup sd.service_name s.services) [
  | some old ↦ none
  | none ↦ some (record s {
    services =
        insert sd.service_name
          (record {
            methods = method_map sd.methods [];
            streams = stream_map sd.streams [];
            mdata = sd.metadata;
          })
          s.services;
  })
]

unfoldable pub register_service : ServiceDesc → Server → Option Server
register_service sd s =
    let prefix = service_prefix s.nid sd.service_name in
    register sd (
      add_streams sd.service_name prefix sd.streams (
        add_methods sd.service_name prefix sd.methods
          (record s { subs = insert sd.service_name (subscription s.nid sd.service_name) s.subs })))

-- The state of stream `id`, with what it shares; and its state after an operation.
abbrev pub focus : ℕ → Node → Focus
focus id n = record { stream = n.objects id; streams = n.streams; log = n.log }

abbrev pub write_object : ℕ → ServerStream → (ℕ → ServerStream) → ℕ → ServerStream
write_object id s objects k = if nat_eq k id then s else objects k

abbrev pub unfocus : ℕ → Focus → Node → Node
unfocus id f n = record n {
  objects = write_object id f.stream n.objects;
  streams = f.streams;
  log = f.log;
}

unfoldable pub new_stream : Msg → Node → Node
new_stream msg n = record n {
  objects = write_object n.next (new_server_stream msg.subject msg.reply) n.objects;
  streams = insert msg.reply n.next n.streams;
  next = suc n.next;
}

unfoldable pub enqueue_at : Bool → Msg → ℕ → Node → Node
enqueue_at drop msg id n = unfocus id (enqueue drop msg.payload (focus id n)) n

unfoldable pub to_stream : Bool → Option ℕ → Msg → Node → Node
to_stream drop (some id) msg n = enqueue_at drop msg id n
to_stream drop none msg n = enqueue_at drop msg n.next (new_stream msg n)

unfoldable pub dispatch : Bool → Option Impl → UnaryRequest → Msg → Node → Node
dispatch drop (some i) u msg n = record n {
  tasks = record { impl = i; reply = msg.reply; request = u } ∷ n.tasks;
}
dispatch drop none u msg n = to_stream drop (lookup msg.reply n.streams) msg n

unfoldable pub on_decoded : Bool → Result Request → Msg → Node → Node
on_decoded drop (ok (Request.unary u)) msg n =
    dispatch drop (lookup msg.subject n.unary_handlers) u msg n
on_decoded drop _ msg n = to_stream drop (lookup msg.reply n.streams) msg n

-- onMessage; `drop` is the choice of the stream's enqueue
unfoldable pub on_message : {M : Type 0} → Env M → Bool → Msg → Node → Node
on_message env drop msg n = on_decoded drop (env.unmarshal_request msg.payload) msg n

-- the loop of Stop over its snapshot of the streams
unfoldable pub finalize_all : GoMap ℕ → Node → Node
finalize_all [] n = n
finalize_all ((reply, id) ∷ snapshot) n =
    finalize_all snapshot (unfocus id (finalize (conf n.server) (some stop_error) (focus id n)) n)

unfoldable pub unsubscribe_all : GoMap String → Log → Log
unsubscribe_all [] log = log
unsubscribe_all ((name, subject) ∷ subs) log =
    unsubscribe_all subs (Effect.unsubscribed subject ∷ log)

-- s.cancel() cancels the context that every stream's context derives from
unfoldable pub cancel_all : Node → Node
cancel_all n = record n { objects = λ id. record (n.objects id) { cancelled = true } }

unfoldable pub stop : Node → Node
stop n =
    let m = cancel_all (finalize_all n.streams n) in record m { log = unsubscribe_all m.subs m.log }

-- the loop of CloseStream, over the streams as they were
unfoldable pub close_streams : String → GoMap ℕ → Node → Node
close_streams nid [] n = n
close_streams nid ((reply, id) ∷ snapshot) n =
    close_streams nid snapshot
      (if (n.objects id).pnid == nid then unfocus id (done (conf n.server) (focus id n)) n else n)

unfoldable pub close_stream : String → Node → Node
close_stream nid n = close_streams nid n.streams n
