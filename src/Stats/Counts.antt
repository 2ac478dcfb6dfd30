-- ===== src/Stats/Counts.antt =====
-- Reading a log: how often a handler saw an event, and which frames were published.
use nats_grpc.Base.{
  ℕ, suc, ◌+◌, String, ◌≡◌, refl, Bool, true, false, ◌&&◌, List, [], ◌∷◌, arith, ◌==◌,
  if◌then◌else◌,
}
use nats_grpc.Stats.{Context, RpcStats, StatsHandler, Frame, Effect, Log, handle_rpc}

abbrev pub is_begin : RpcStats → Bool
is_begin RpcStats.begin = true
is_begin _ = false

abbrev pub is_end : RpcStats → Bool
is_end (RpcStats.end _) = true
is_end _ = false

-- how many of the events that the handler `h` saw pass the test
unfoldable pub seen : String → (RpcStats → Bool) → Log → ℕ
seen h p [] = 0
seen h p (Effect.handled k ctx ev ∷ log) =
    let rest = seen h p log in if (k == h) && p ev then suc rest else rest
seen h p (Effect.published s r f b ∷ log) = seen h p log
seen h p (Effect.unsubscribed s ∷ log) = seen h p log

-- how often a handler of that name is registered
unfoldable pub registered : String → List StatsHandler → ℕ
registered h [] = 0
registered h (k ∷ ks) = let rest = registered h ks in if k.name == h then suc rest else rest

-- the published frames, newest first
unfoldable pub frames : Log → List Frame
frames [] = []
frames (Effect.handled k ctx ev ∷ log) = frames log
frames (Effect.published s r f b ∷ log) = f ∷ frames log
frames (Effect.unsubscribed s ∷ log) = frames log

pub seen-handle_rpc :
    (h : String) (p : RpcStats → Bool) (hs : List StatsHandler) (ctx : Context) (ev : RpcStats)
    (log : Log)
    → seen h p (handle_rpc hs ctx ev log) ≡ (if p ev then registered h hs else 0) + seen h p log
unfolding seen handle_rpc registered
seen-handle_rpc h p [] ctx ev log = ground arith
seen-handle_rpc h p (k ∷ ks) ctx ev log =
    ground (arith, seen-handle_rpc h p ks ctx ev (Effect.handled k.name ctx ev ∷ log))

pub frames-handle_rpc :
    (hs : List StatsHandler) (ctx : Context) (ev : RpcStats) (log : Log)
    → frames (handle_rpc hs ctx ev log) ≡ frames log
unfolding frames handle_rpc
frames-handle_rpc [] ctx ev log = refl
frames-handle_rpc (k ∷ ks) ctx ev log =
    frames-handle_rpc ks ctx ev (Effect.handled k.name ctx ev ∷ log)
