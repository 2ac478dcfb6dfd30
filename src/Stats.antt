-- ===== src/Stats.antt =====
-- The stats.Handler fan-out of pkg/rpc/client.go and pkg/rpc/server.go, and the log of effects.
pub mod Counts
use nats_grpc.Base.{ℕ, String, Option, List, [], ◌∷◌}
use nats_grpc.Wire.{Bytes, Md, Error, Request, Response}

-- What the code puts into a context.Context: incoming and outgoing metadata, and other values.
pub record Context : Type 0 where
  pub incoming : Option Md
  pub outgoing : Option Md
  pub values : List (String × String)

-- stats.RPCStats without its times; a payload event has the length on the wire.
pub data RpcStats : Type 0 where
  begin : RpcStats
  in_payload : ℕ → RpcStats
  out_payload : ℕ → RpcStats
  end : Option Error → RpcStats

-- A registered stats.Handler: its name, and what its TagRPC makes of the context and the method.
pub record StatsHandler : Type 0 where
  pub name : String
  pub tag : Context → String → Context

pub data Frame : Type 0 where
  request : Request → Frame
  response : Response → Frame

-- What an operation does to the world outside its own state.
pub data Effect : Type 0 where
  -- one call of HandleRPC, on the named handler
  handled : String → Context → RpcStats → Effect
  -- a message that the NATS connection accepted: subject, reply subject ("" for none), and the
  -- frame beside the bytes that carry it
  published : String → String → Frame → Bytes → Effect
  -- a NATS subscription was given up
  unsubscribed : String → Effect

-- Newest first.
abbrev pub Log : Type 0
Log = List Effect

-- `tagRPC`: each handler tags the context that the one before it returned
unfoldable pub tag_rpc : List StatsHandler → Context → String → Context
tag_rpc [] ctx method = ctx
tag_rpc (h ∷ hs) ctx method = tag_rpc hs (h.tag ctx method) method

-- `handleRPC`: every handler gets the event, in registration order
unfoldable pub handle_rpc : List StatsHandler → Context → RpcStats → Log → Log
handle_rpc [] ctx ev log = log
handle_rpc (h ∷ hs) ctx ev log = handle_rpc hs ctx ev (Effect.handled h.name ctx ev ∷ log)
