-- ===== src/Lib.antt =====
-- nats-grpc: gRPC services over NATS messages.
--
-- A client sends a unary call as one NATS request and a streaming call as a sequence of frames
-- (Call, Data, End, Ping) on the subject of the method, with a reply subject that names the stream.
-- A server subscribes to the subjects of its services, answers a unary request in one message, and
-- keeps a stream for each reply subject, with a worker goroutine that handles its frames in order
-- and handler goroutines that run the user's code. A sidecar is such a client for the calls of a
-- local application, and answers calls from NATS with the calls of an upstream gRPC server. The proxy
-- copies frames between two gRPC streams, and the reflection service describes a server's services.
--
-- The files, and the code that each is about:
--   Wire, Wire/Code        the messages of pkg/protos/nrpc/nrpc.pb.go, errors and status codes
--   Env                    the third-party functions that the code calls, as parameters
--   Stats                  tagRPC and handleRPC of pkg/rpc/server.go and pkg/rpc/client.go, and the
--                          log of what the code does to the outside
--   Metadata               MakeMetadata of pkg/utils/utils.go, and the loops that read metadata
--   Subjects               pkg/rpc/subjects.go, and the paths of RegisterService
--   ServerStream           serverStream of pkg/rpc/server.go: newServerStream, statsBegin, finalize,
--                          done, beginMaybe, writeResponse, writeEnd, close
--   ServerStream/Frames    its worker: enqueue, runInbox, onRequest, processCall, processData,
--                          processEnd, processPing
--   ServerStream/Handler   the handler's side: SetHeader, SendHeader, SetTrailer, SendMsg, RecvMsg,
--                          serverUnaryHandler, serverStreamHandler
--   ServerStream/Run       the interleavings of a stream, as a list of actions; the files below it
--                          hold the proofs over all of them
--   Server                 Server of pkg/rpc/server.go: RegisterService, onMessage, Stop, CloseStream,
--                          GetServiceInfo
--   Server/Options         NewServerWithOptions of pkg/rpc/server.go and its options
--   Server/Unary           serverUnaryRequestHandler of pkg/rpc/server.go
--   Client                 Invoke, InvokeWithSvcID and invokeOnSubject of pkg/rpc/client.go
--   Client/EndToEnd        a client call answered by the server's unary handler
--   ClientStream           clientStream of pkg/rpc/client.go: newClientStream, done, writeRequest,
--                          CloseSend, close, and the checks of NewStreamWithSvcID
--   ClientStream/Frames    its frame handlers, ReadMsg, SendMsg, RecvMsg, pingLoop, pongMonitor
--   ClientStream/Run       the interleavings of a client stream, and the proofs over them
--   ClientStream/Closing   Close and CloseStream of Client in pkg/rpc/client.go
--   ClientStream/Opening   NewStream, streamer and NewStreamWithSvcID of Client in pkg/rpc/client.go
--   ClientStream/Calls     Header, Trailer and Invoke of clientStream
--   Client/Options         NewClientWithOptions of pkg/rpc/client.go and its options
--   Client/Interceptors    Invoke through an interceptor, and the interceptors of
--                          examples/interceptor/client/main.go
--   Streaming              a client stream and a server stream together: Sent and Replied are about
--                          what each publishes, Uplink and Downlink about what the other end reads,
--                          and Whole about both ways of a link that loses nothing
--   HttpErrors             the codes, HTTP statuses and JSON of pkg/rpc/reflection/errors/errors.go
--   Nats                   SetupConnOptions of pkg/rpc/nats.go
--   Codec                  RawCodec and protoCodec of pkg/rpc/codec.go
--   Random                 RandInt and the other random values of pkg/utils/utils.go
--   Pump                   pumpBidi of pkg/sidecar/egress.go, and the goroutines that copy frames
--   Proxy                  pkg/rpc/proxy/handler.go
--   Sidecar                New and Start of pkg/sidecar/sidecar.go, randomNid in Nid, Close in Shutdown
--   Sidecar/Command        cmd/nats-grpc-sidecar/main.go
--   Sidecar/Headers, Egress   pkg/sidecar/egress.go: the x-nats- headers, and handleEgress
--   Sidecar/Ingress        pkg/sidecar/ingress.go: registrations, their teardown, and onUnary; Bridge
--                          joins the egress of one sidecar with the ingress of another
--   Sidecar/Worker         pkg/sidecar/ingress.go: onStreamFrame and the stream workers; Run and the
--                          files below it hold the proofs over all interleavings
--   Sidecar/Admin          handleHTTPRegister of pkg/sidecar/admin_http.go, and the registrations
--                          in Sidecar.Close of pkg/sidecar/sidecar.go
--   Reflection             descriptors and the protobuf registry that
--                          pkg/rpc/reflection/serverreflection.go reads
--   Reflection/Symbols     processFile and getSymbols
--   Reflection/Files       fileDescWithDependencies
--   Reflection/Service     the requests of ServerReflectionInfo
--   Reflection/Client      pkg/rpc/reflection/reflection.go
--   Examples/Register      registerWithSidecar of examples/sidecar/server/main.go
--   Examples/Swap          swapSenderTarget of examples/sidecar/docker-compose/go-server/main.go
--   Examples/Benchmark     podOrdinalOffset and dialNATSPool of examples/benchmark/server/main.go
--   Examples/Echo          the Echo handler of examples/echo/server/main.go
--   Base, Tests            shared names and lemmas; a small environment, tests and examples
--
-- How the model stands to the code. An operation of a stream takes and returns a Focus, which is the
-- stream with Server.streams and the log. A mutex is a step that is not interrupted: each frame that
-- the worker handles, each call of a handler and each teardown is one action, and a run is any list
-- of actions. Where a Go select has two ready cases, a Boolean of the action chooses. A pointer to a
-- stream is a number, and the server's objects are a function from numbers to streams. A loop over a
-- list or a map is structural recursion. Only the walks over the imports of protobuf files take fuel,
-- and end with `none` where it does not last: the number of files that fileDescWithDependencies takes
-- from its queue, and the depth of the calls of processFile. Both are bounded, with proofs, where the
-- imports have no cycle, as protobuf requires. The receive channel
-- holds one payload, as in the code, and on a full one the worker waits. Of the inbox of 8192 frames
-- the model has the drop on a cancelled stream; on a live one a frame that the dispatcher would have
-- to wait with is in the queue at once, so there are more runs than the code has. A
-- stream worker of the sidecar has a channel of 64 frames. Stats events carry no times; the
-- clock is an argument of the heartbeat's ticks. A text is a list of code points.
--
-- The two ends of Streaming share no state. What one end takes in is assumed to be the first part of
-- what the other has published, in its order, as NATS promises for one subject; nothing is assumed
-- of when a message arrives.
--
-- Parameters: protobuf encoding, status.Convert and status.ErrorProto, metadata.Join and md.Append,
-- the answers of the NATS connection (Env), the stats handlers, the user's code, the upstream
-- connection of the sidecar, the director of the proxy, the random source, and the registry of
-- protobuf descriptors. StatusLaws and
-- ProtoLaws state what their documentation says of them.
--
-- Not modelled: the errors of Unsubscribe, logging, the encoding of JSON, the parsing of the command
-- line, and the codec of the sidecar, which passes its calls on to that of Codec. Of the examples only
-- the functions above are modelled; the others are demonstrations or generated code.
mod Base
pub mod Wire
pub mod Stats
pub mod Env
pub mod Metadata
pub mod Streaming
pub mod Examples
pub mod Subjects
pub mod ServerStream
pub mod Server
pub mod Client
pub mod ClientStream
pub mod Codec
pub mod HttpErrors
pub mod Random
pub mod Nats
pub mod Pump
pub mod Proxy
pub mod Sidecar
pub mod Reflection
mod Tests
