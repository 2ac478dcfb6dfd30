-- ===== src/Sidecar/Shutdown.antt =====
-- Sidecar.Close of pkg/sidecar/sidecar.go, after a Start.
use nats_grpc.Base.{
  ◌≡◌, refl, sym, subst, String, Bool, true, false, Option, none, some, List, [], ◌∷◌, ◌++◌, any,
  ◌==◌, GoMap, arith, if◌then◌else◌,
}
use nats_grpc.Wire.{Error}
use nats_grpc.Sidecar.Ingress.{Registration}
use nats_grpc.Sidecar.Admin.{torn_down, close_registrations}
use nats_grpc.Sidecar.{
  Config, Resource, nats_conn, egress_listener, admin_listener, Started, start, start_nats,
  start_egress, start_admin,
}

-- The fields of Sidecar that Close reads: whether `done` is closed, the registrations, and which of
-- the servers, the client and the connection are not nil.
pub record Sidecar : Type 0 where
  pub done : Bool
  pub registrations : GoMap Registration
  pub egress_srv : Bool
  pub http_admin_srv : Bool
  pub cli : Bool
  pub nc : Bool

-- What Close does, in its order; `egress_waits` is a GracefulStop that waits for calls in flight.
pub data Stop : Type 0 where
  done_closed : Stop
  torndown : Registration → Stop
  egress_waits egress_stopped admin_closed client_closed nats_closed : Stop

abbrev is_resource : Resource → Resource → Bool
is_resource nats_conn nats_conn = true
is_resource egress_listener egress_listener = true
is_resource admin_listener admin_listener = true
is_resource _ _ = false

abbrev pub holds : Resource → List Resource → Bool
holds r rs = any (is_resource r) rs

-- the fields that Start sets beside what it opens
unfoldable pub running : Started → GoMap Registration → Sidecar
running s rs = record {
  done = false;
  registrations = rs;
  egress_srv = holds egress_listener s.opened;
  http_admin_srv = holds admin_listener s.opened;
  cli = holds nats_conn s.opened;
  nc = holds nats_conn s.opened;
}

abbrev pub teardowns : List Registration → List Stop
teardowns [] = []
teardowns (r ∷ rs) = torndown r ∷ teardowns rs

abbrev when : Bool → Stop → List Stop
when b s = if b then s ∷ [] else []

-- what Close does after GracefulStop of the egress server
abbrev pub after_egress : Sidecar → List Stop
after_egress s =
    when s.http_admin_srv admin_closed ++ (when s.cli client_closed ++ when s.nc nats_closed)

-- GracefulStop returns only when the calls through the egress have ended, which is `drained`; until
-- then Close goes no further.
unfoldable pub stop_egress : Bool → Sidecar → List Stop
stop_egress drained s =
    if s.egress_srv
    then (if drained then egress_stopped ∷ after_egress s else egress_waits ∷ [])
    else after_egress s

-- `none` is the panic of closing `done` a second time.
unfoldable pub close : Bool → Sidecar → Option (Sidecar × List Stop)
close drained s =
    let (after, regs) = close_registrations s.registrations in
    if s.done
    then none
    else some (
      record s { done = true; registrations = after },
      done_closed ∷ (teardowns regs ++ stop_egress drained s),
    )

-- Which stop gives a resource back: GracefulStop and http.Server.Close close the listener that the
-- server serves.
abbrev pub releases : Resource → Stop → Bool
releases nats_conn nats_closed = true
releases egress_listener egress_stopped = true
releases admin_listener admin_closed = true
releases _ _ = false

abbrev pub Released : List Resource → List Stop → Type 0
Released rs stops = (r : Resource) → holds r rs ≡ true → any (releases r) stops ≡ true

any-append : (p : Stop → Bool) (xs ys : List Stop) → any p ys ≡ true → any p (xs ++ ys) ≡ true
any-append p [] ys h = h
any-append p (x ∷ xs) ys h = ground (arith, any-append p xs ys h)

-- Close has let go of every registration first: each is torn down, and the map is empty.
abbrev pub TornFirst : GoMap Registration → Sidecar × List Stop → List Stop → Type 0
TornFirst rs m rest =
    (m.0.registrations ≡ []) × (m.1 ≡ done_closed ∷ (teardowns (torn_down rs) ++ rest))

-- What Close does for a sidecar that holds these resources: with no call in flight it gives all of
-- them back, the NATS connection last, and else it waits in GracefulStop.
abbrev pub Ended : GoMap Registration → List Resource → Bool → Sidecar × List Stop → Type 0
Ended rs opened true m =
    Released opened m.1 × ((between : List Stop) × TornFirst rs m (between ++ nats_closed ∷ []))
Ended rs opened false m = TornFirst rs m (egress_waits ∷ [])

abbrev Closes : GoMap Registration → List Resource → Bool → Type 0
Closes rs opened drained =
    let s : Started = record { error = none; opened = opened; closed = [] } in
    (m : Sidecar × List Stop) × (close drained (running s rs) ≡ some m)
    × Ended rs opened drained m
    × (close drained m.0 ≡ none)

module _ (rs : GoMap Registration) where
  finds :
      (r : Resource) (ys : List Stop)
      → any (releases r) ys ≡ true
      → any (releases r) (done_closed ∷ (teardowns (torn_down rs) ++ ys)) ≡ true
  finds nats_conn ys h = any-append (releases nats_conn) (teardowns (torn_down rs)) ys h
  finds egress_listener ys h = any-append (releases egress_listener) (teardowns (torn_down rs)) ys h
  finds admin_listener ys h = any-append (releases admin_listener) (teardowns (torn_down rs)) ys h

  closes :
      (no_admin drained : Bool)
      → Closes rs
          (nats_conn ∷ egress_listener ∷ (if no_admin then [] else admin_listener ∷ []))
          drained
  unfolding close close_registrations running stop_egress
  closes no_admin false = (_, refl, (refl, refl), refl)
  closes true true =
      (_, refl, (released, (egress_stopped ∷ client_closed ∷ [], (refl, refl))), refl)
    where
      released : Released (nats_conn ∷ egress_listener ∷ []) (
          done_closed
          ∷ (teardowns (torn_down rs) ++ (egress_stopped ∷ client_closed ∷ nats_closed ∷ [])))
      released nats_conn e = finds nats_conn _ refl
      released egress_listener e = finds egress_listener _ refl
      released admin_listener e = absurd (cc)
  closes false true = (
    _,
    refl,
    (
      (λ r e. finds r _ (every r)),
      (egress_stopped ∷ admin_closed ∷ client_closed ∷ [], (refl, refl)),
    ),
    refl,
  )
    where
      every :
          (r : Resource)
          → any (releases r) (egress_stopped ∷ admin_closed ∷ client_closed ∷ nats_closed ∷ [])
            ≡ true
      every nats_conn = refl
      every egress_listener = refl
      every admin_listener = refl

module _ (text : Error → String) where
  opened_of :
      (c : Config) (connect listen_egress listen_admin : Option Error)
      → (start text c connect listen_egress listen_admin).error ≡ none
      → (start text c connect listen_egress listen_admin).opened
        ≡ nats_conn
          ∷ egress_listener
          ∷ (if c.http_admin_addr == "-" then [] else admin_listener ∷ [])
  unfolding start start_nats start_egress start_admin
  opened_of c connect listen_egress listen_admin e = ground arith

  -- Where Start has returned no error, Close first tears down every registration and forgets it. If
  -- no call through the egress is in flight, it then gives back the listeners and the connection that
  -- Start opened, and closes the NATS connection last; else it waits in GracefulStop, before it closes the rest.
  -- A second Close panics.
  pub close_releases :
      (c : Config) (connect listen_egress listen_admin : Option Error) (drained : Bool)
      (rs : GoMap Registration)
      → (start text c connect listen_egress listen_admin).error ≡ none
      → let s = start text c connect listen_egress listen_admin in
        (m : Sidecar × List Stop) × (close drained (running s rs) ≡ some m)
        × Ended rs s.opened drained m
        × (close drained m.0 ≡ none)
  unfolding running
  close_releases c connect listen_egress listen_admin drained rs e =
      subst (λ opened. Closes rs opened drained)
        (sym (opened_of c connect listen_egress listen_admin e))
        (closes rs (c.http_admin_addr == "-") drained)
