-- ===== src/ClientStream/Closing/Snapshot.antt =====
-- What Close of pkg/rpc/client.go does to the streams of its snapshot.
use nats_grpc.Base.{
  ℕ, String, ◌≡◌, ◌≢◌, ◌⊎◌, inl, inr, refl, sym, subst, ◌∙◌, Bool, true, false, ap, List, ◌++◌,
  append_assoc, none, some, [], ◌∷◌, arith, ◌==◌, eq_refl, nat_eq, GoMap, lookup, delete,
  lookup-delete, lookup-delete_self, if_keeps, if_true, if_false, if◌then◌else◌,
}
use nats_grpc.Stats.{Context, RpcStats, StatsHandler, Effect, Log, handle_rpc}
use nats_grpc.ClientStream.{ClientStream, ClientFocus, done, tear_down, report_end}
use nats_grpc.ClientStream.Closing.{
  ClientNode, client_focus, done_at, done_all, close_client, close_client_stream,
}

-- The log has the End event of the stream, for each of its stats handlers in order.
abbrev pub Told : ClientStream → Log → Type 0
Told s log =
    (later before : Log) × (log
      ≡ later ++ handle_rpc s.client.stats_handlers s.stats_ctx (RpcStats.end s.end_err) before)

-- the log after a teardown has all that it had before
record Grown (old log : Log) : Type 0 where
  by : Log
  grown : log ≡ by ++ old

-- what Close leaves of a stream under `reply`
record Finished (reply : String) (s : ClientStream) (streams : GoMap ℕ) (log : Log) : Type 0 where
  shut : s.closed ≡ true
  cancelled : s.ctx_err ≢ none
  reported : s.ended ≡ true
  told : Told s log
  removed : lookup reply streams ≡ none

same_id : (a b : ℕ) → some a ≡ some b → a ≡ b
same_id a b p = cc

-- a stream that is open, or for which Close has done its part
record Closing (reply : String) (s : ClientStream) (streams : GoMap ℕ) (log : Log) : Type 0 where
  here : s.reply ≡ reply
  either : ((s.closed ≡ false) × (s.ended ≡ false)) ⊎ Finished reply s streams log

delete-keeps :
    (gone reply : String) (streams : GoMap ℕ)
    → lookup reply streams ≡ none
    → lookup reply (delete gone streams) ≡ none
delete-keeps gone reply streams e =
    lookup-delete gone reply streams ∙ if_keeps (λ o. o ≡ none) (gone == reply) none _ refl e

-- done removes at most one entry
done-streams :
    (reply : String) (f : ClientFocus)
    → lookup reply f.streams ≡ none
    → lookup reply (done f).streams ≡ none
unfolding done tear_down report_end
done-streams reply f e = ground (arith, delete-keeps f.reply reply f.streams)

tear_down-Finished :
    (reply : String) (f : ClientFocus)
    → f.reply ≡ reply
    → f.ended ≡ false
    → Finished reply (tear_down f).stream (tear_down f).streams (tear_down f).log
unfolding tear_down report_end
tear_down-Finished reply f r n = record {
  shut = ground (arith, n);
  cancelled = λ e. cc (e);
  reported = ground (arith, n);
  told = rw n (Effect.unsubscribed f.reply ∷ [], f.log, refl);
  removed = ground (arith, n, r, lookup-delete_self reply f.streams);
}

done-Finished :
    (reply : String) (f : ClientFocus)
    → f.reply ≡ reply
    → f.closed ≡ false
    → f.ended ≡ false
    → Finished reply (done f).stream (done f).streams (done f).log
unfolding done
done-Finished reply f r c n =
    subst (λ (g : ClientFocus). Finished reply g.stream g.streams g.log)
      (sym (if_false _ _ f.closed c)) (tear_down-Finished reply f r n)

handle_rpc-Grown :
    (hs : List StatsHandler) (ctx : Context) (ev : RpcStats) (log : Log)
    → Grown log (handle_rpc hs ctx ev log)
unfolding handle_rpc
handle_rpc-Grown [] ctx ev log = record { by = []; grown = refl }
handle_rpc-Grown (h ∷ hs) ctx ev log =
    let g = handle_rpc-Grown hs ctx ev (Effect.handled h.name ctx ev ∷ log) in
    record {
      by = g.by ++ Effect.handled h.name ctx ev ∷ [];
      grown = g.grown ∙ sym (append_assoc g.by (Effect.handled h.name ctx ev ∷ []) log);
    }

report_end-Grown : (f : ClientFocus) → Grown f.log (report_end f).log
unfolding report_end
report_end-Grown f =
    if_keeps (λ (g : ClientFocus). Grown f.log g.log) f.ended _ _ (record { by = []; grown = refl })
      (handle_rpc-Grown f.client.stats_handlers f.stats_ctx _ f.log)

done-Grown : (f : ClientFocus) → Grown f.log (done f).log
unfolding done tear_down
done-Grown f =
    let shut : ClientFocus = record f { stream = record f.stream { closed = true } } in
    let g = report_end-Grown shut in
    if_keeps (λ (g : ClientFocus). Grown f.log g.log) f.closed _ _
      (record { by = []; grown = refl })
      (record {
        by = Effect.unsubscribed (report_end shut).reply ∷ g.by;
        grown = ap (λ l. Effect.unsubscribed (report_end shut).reply ∷ l) g.grown;
      })

Told-Grown : (s : ClientStream) (old log : Log) → Grown old log → Told s old → Told s log
Told-Grown s old log g (later, before, e) =
    (g.by ++ later, before, g.grown ∙ ap (λ l. g.by ++ l) e ∙ sym (append_assoc g.by later _))

-- done leaves a stream that is closed as it is
done-closed : (f : ClientFocus) → f.closed ≡ true → done f ≡ f
unfolding done
done-closed f c = if_true _ _ f.closed c

-- a stream on which done has been called
called :
    (reply : String) (f : ClientFocus)
    → Closing reply f.stream f.streams f.log
    → Finished reply (done f).stream (done f).streams (done f).log
called reply f v = elim v.either [
  | inl c ↦ done-Finished reply f v.here c.0 c.1
  | inr fin ↦
      subst (λ (g : ClientFocus). Finished reply g.stream g.streams g.log)
        (sym (done-closed f fin.shut)) fin
]

done-reply : (f : ClientFocus) → (done f).reply ≡ f.reply
unfolding done tear_down report_end
done-reply f = ground arith

-- the streams after done on another one
other :
    (reply : String) (s : ClientStream) (f : ClientFocus)
    → Closing reply s f.streams f.log
    → Closing reply s (done f).streams (done f).log
other reply s f v = record {
  here = v.here;
  either = elim v.either [
    | inl c ↦ inl c
    | inr fin ↦ inr (record {
      shut = fin.shut;
      cancelled = fin.cancelled;
      reported = fin.reported;
      told = Told-Grown s f.log (done f).log (done-Grown f) fin.told;
      removed = done-streams reply f fin.removed;
    })
  ];
}

-- A property of a stream and the map after one step of Close's loop, by whether the step is its own.
at_step :
    (P : ClientStream → GoMap ℕ → Log → Type 0) (id k : ℕ) (n : ClientNode)
    → P
        (done (client_focus id n)).stream
        (done (client_focus id n)).streams
        (done (client_focus id n)).log
    → P (n.objects id) (done (client_focus k n)).streams (done (client_focus k n)).log
    → P ((done_at k n).objects id) (done_at k n).streams (done_at k n).log
at_step P id k n own others = choose (nat_eq id k) refl
  where
    choose :
        (b : Bool)
        → nat_eq id k ≡ b
        → P
            (if b then (done (client_focus k n)).stream else n.objects id)
            (done (client_focus k n)).streams
            (done (client_focus k n)).log
    choose true e =
        subst
          (λ j.
            P (done (client_focus j n)).stream (done (client_focus j n)).streams
              (done (client_focus j n)).log)
          (ground (arith, e)) own
    choose false e = others

-- the stream `id` after the loop, if it was finished before, or its entry is still to come
module _ (reply : String) (id : ℕ) where
  Step : ClientNode → Type 0
  Step n = Closing reply (n.objects id) n.streams n.log

  Step-keeps : (k : ℕ) (n : ClientNode) → Step n → Step (done_at k n)
  unfolding Step
  Step-keeps k n v =
      at_step (Closing reply) id k n
        (record {
          here = done-reply (client_focus id n) ∙ v.here;
          either = inr (called reply (client_focus id n) v);
        })
        (other reply (n.objects id) (client_focus k n) v)

  Over : ClientNode → Type 0
  Over n = Step n × Finished reply (n.objects id) n.streams n.log

  Over-keeps : (k : ℕ) (n : ClientNode) → Over n → Over (done_at k n)
  unfolding Over Step
  Over-keeps k n (v, fin) = (
    Step-keeps k n v,
    at_step (Finished reply) id k n (called reply (client_focus id n) v) (record {
      shut = fin.shut;
      cancelled = fin.cancelled;
      reported = fin.reported;
      told =
          Told-Grown (n.objects id) n.log (done (client_focus k n)).log
            (done-Grown (client_focus k n)) fin.told;
      removed = done-streams reply (client_focus k n) fin.removed;
    }),
  )

  own-Step : (n : ClientNode) → Step n → Over (done_at id n)
  unfolding Over Step
  own-Step n v = (
    Step-keeps id n v,
    subst
        (λ b.
          Finished reply (if b then (done (client_focus id n)).stream else n.objects id)
            (done (client_focus id n)).streams (done (client_focus id n)).log)
        (sym (same id)) (called reply (client_focus id n) v),
  )
    where
      same : (a : ℕ) → nat_eq a a ≡ true
      same a = ground arith

  done_all-Over : (snapshot : GoMap ℕ) (n : ClientNode) → Over n → Over (done_all snapshot n)
  unfolding done_all
  done_all-Over [] n v = v
  done_all-Over ((r, k) ∷ more) n v = done_all-Over more (done_at k n) (Over-keeps k n v)

  done_all-finishes :
      (snapshot : GoMap ℕ) (n : ClientNode)
      → lookup reply snapshot ≡ some id
      → Step n
      → Over (done_all snapshot n)
  unfolding done_all lookup
  done_all-finishes [] n h v = absurd (cc)
  done_all-finishes ((r, k) ∷ more) n h v =
      choose (r == reply) refl
        (λ later. done_all-finishes more (done_at k n) later (Step-keeps k n v))
    where
      choose :
          (b : Bool)
          → (r == reply) ≡ b
          → (lookup reply more ≡ some id → Over (done_all more (done_at k n)))
          → Over (done_all more (done_at k n))
      choose true c others = done_all-Over more (done_at k n) (
          subst (λ j. Over (done_at j n))
            (sym (same_id k id (sym (if_true _ _ (r == reply) c) ∙ h))) (own-Step n v))
      choose false c others = others (sym (if_false _ _ (r == reply) c) ∙ h)

  -- Every open stream that Client.streams holds under its own reply subject is closed after Close,
  -- its context is cancelled, each stats handler has got its End event, and its entry has left Client.streams,
  -- whatever other entries there are and in whatever order they are closed. CloseStream with the
  -- client's svcid does the same and returns true.
  pub close_client-finishes :
      (n : ClientNode)
      → lookup reply n.streams ≡ some id
      → (n.objects id).reply ≡ reply
      → (n.objects id).closed ≡ false
      → (n.objects id).ended ≡ false
      → let m = close_client n in
        (((m.objects id).closed ≡ true)
          × ((m.objects id).ctx_err ≢ none)
          × ((m.objects id).ended ≡ true)
          × Told (m.objects id) m.log
          × (lookup reply m.streams ≡ none))
        × (close_client_stream n.client.svcid n ≡ (m, true))
  unfolding close_client_stream close_client Over Step
  close_client-finishes n h r c k =
      let (v, fin) = done_all-finishes n.streams n h (record { here = r; either = inl (c, k) }) in
      (
        (fin.shut, fin.cancelled, fin.reported, fin.told, fin.removed),
        if_true _ _ (n.client.svcid == n.client.svcid) (eq_refl n.client.svcid),
      )
