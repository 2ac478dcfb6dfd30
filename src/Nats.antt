-- ===== src/Nats.antt =====
-- SetupConnOptions of pkg/rpc/nats.go. The interface NatsConn is a part of Env.
use nats_grpc.Base.{
  ℕ, ◌*◌, ◌/◌, ◌≡◌, refl, ap, ◌∙◌, String, Bool, not, Option, none, some, List, [], ◌∷◌, ◌++◌,
  append_assoc, if◌then◌else◌,
}
use nats_grpc.Base.Text.{◌+++◌}

-- What a connection is at a callback.
pub record ConnState : Type 0 where
  pub is_closed : Bool
  pub connected_url : String

-- The options of package nats that the code uses. A duration is in nanoseconds, and a handler is what
-- it logs.
pub data ConnOption : Type 0 where
  timeout reconnect_wait max_reconnects : ℕ → ConnOption
  disconnect_handler reconnect_handler closed_handler : (ConnState → Option String) → ConnOption

abbrev second : ℕ
second = 1000000000

abbrev pub total_wait : ℕ
total_wait = 10 * 60 * second

abbrev pub reconnect_delay : ℕ
reconnect_delay = second

abbrev pub connect_timeout : ℕ
connect_timeout = 5 * second

unfoldable pub on_disconnect : ConnState → Option String
on_disconnect c =
    if not c.is_closed then some "Disconnected, will attempt reconnects for 10m" else none

unfoldable pub on_reconnect : ConnState → Option String
on_reconnect c = some ("Reconnected [" +++ c.connected_url +++ "]")

unfoldable pub on_closed : ConnState → Option String
on_closed c = if not c.is_closed then some "Exiting: no servers available" else some "Exiting"

unfoldable pub setup_conn_options : List ConnOption → List ConnOption
setup_conn_options opts =
    (((((opts ++ timeout connect_timeout ∷ []) ++ reconnect_wait reconnect_delay ∷ [])
          ++ max_reconnects (total_wait / reconnect_delay) ∷ [])
        ++ disconnect_handler on_disconnect ∷ [])
      ++ reconnect_handler on_reconnect ∷ [])
    ++ closed_handler on_closed ∷ []

-- how long a connection with the options goes on trying: the last wait times the last number of tries
abbrev pub tries_for : ℕ → ℕ → List ConnOption → ℕ
tries_for wait tries [] = wait * tries
tries_for wait tries (reconnect_wait w ∷ opts) = tries_for w tries opts
tries_for wait tries (max_reconnects n ∷ opts) = tries_for wait n opts
tries_for wait tries (_ ∷ opts) = tries_for wait tries opts

-- the options that SetupConnOptions adds
abbrev conn_options : List ConnOption
conn_options =
    timeout connect_timeout
    ∷ reconnect_wait reconnect_delay
    ∷ max_reconnects (total_wait / reconnect_delay)
    ∷ disconnect_handler on_disconnect
    ∷ reconnect_handler on_reconnect
    ∷ closed_handler on_closed
    ∷ []

tries_for-append :
    (wait tries : ℕ) (opts : List ConnOption)
    → tries_for wait tries (opts ++ conn_options) ≡ total_wait
tries_for-append wait tries [] = refl
tries_for-append wait tries (timeout t ∷ opts) = tries_for-append wait tries opts
tries_for-append wait tries (reconnect_wait t ∷ opts) = tries_for-append t tries opts
tries_for-append wait tries (max_reconnects t ∷ opts) = tries_for-append wait t opts
tries_for-append wait tries (disconnect_handler h ∷ opts) = tries_for-append wait tries opts
tries_for-append wait tries (reconnect_handler h ∷ opts) = tries_for-append wait tries opts
tries_for-append wait tries (closed_handler h ∷ opts) = tries_for-append wait tries opts

-- Whatever options a connection had before, with SetupConnOptions it tries to reconnect for ten
-- minutes, as it logs when it is disconnected.
pub setup_conn_options-total_wait :
    (wait tries : ℕ) (opts : List ConnOption)
    → tries_for wait tries (setup_conn_options opts) ≡ total_wait
setup_conn_options-total_wait wait tries opts =
    let ends : setup_conn_options opts ≡ opts ++ conn_options =
      unfold setup_conn_options in simp append_assoc in
    ap (tries_for wait tries) ends ∙ tries_for-append wait tries opts
