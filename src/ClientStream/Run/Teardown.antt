-- ===== src/ClientStream/Run/Teardown.antt =====
-- How a client stream is torn down: once, and completely.
use nats_grpc.Base.{
  ℕ, String, ◌≡◌, ◌≢◌, refl, Bool, true, false, Option, none, List, [], arith, GoMap, lookup,
  lookup-delete_self, lookup-insert_self, if_keeps, if◌then◌else◌, ◌&&◌, not, ◌∙◌, some, inl, inr,
  Bool-cases,
}
use nats_grpc.Wire.{Request, Error, Md}
use nats_grpc.Stats.{Context, RpcStats, StatsHandler, Log, handle_rpc}
use nats_grpc.Stats.Counts.{is_begin, is_end, seen, registered, seen-handle_rpc}
use nats_grpc.Env.{Env}
use nats_grpc.Client.{Client}
use nats_grpc.ClientStream.{
  ClientFocus, new_client_stream, keep_stream, report_end, tear_down, done, write_request,
  first_error,
}
use nats_grpc.ClientStream.Frames.{call_maybe}
use nats_grpc.ClientStream.Run.{ClientAction, client_run}
use nats_grpc.ClientStream.Run.Stable.{Core, core, Stable, client_run-Stable}

-- What the handlers named `h` have seen of the stream, and what a closed stream has given up.
pub record Teardown (h : String) (hs : List StatsHandler) (closed ended : Bool)
    (ctx_err : Option Error) (log : Log) : Type 0 where
  pub begins : seen h is_begin log ≡ registered h hs
  pub ends : seen h is_end log ≡ (if closed then registered h hs else 0)
  pub reported : ended ≡ closed
  pub cancelled : closed ≡ true → ctx_err ≢ none

-- The entry `id` of a stream in Client.streams: it is there until the stream is closed, and if the
-- stream had been closed before it was inserted (`late`), it stays.
pub record Entry (late : Bool) (id : ℕ) (closed : Bool) (reply : String) (streams : GoMap ℕ)
    : Type 0 where
  pub late_closed : late ≡ true → closed ≡ true
  pub entry : lookup reply streams ≡ (if closed && not late then none else some id)

module _ (h : String) where
  abbrev pub CoreTorn : Core → Type 0
  CoreTorn c = Teardown h c.client.stats_handlers c.closed c.ended c.ctx_err c.log

  abbrev pub Torn : ClientFocus → Type 0
  Torn f = CoreTorn (core f)

  event-Torn :
      (ctx : Context) (ev : RpcStats) (f : ClientFocus)
      → is_begin ev ≡ false
      → is_end ev ≡ false
      → Torn f
      → Torn (record f { log = handle_rpc f.client.stats_handlers ctx ev f.log })
  event-Torn ctx ev f b e v = record {
    begins = grind (arith, seen-handle_rpc, v.begins);
    ends = grind (arith, seen-handle_rpc, v.ends);
    reported = v.reported;
    cancelled = v.cancelled;
  }

  tear_down-Torn : (f : ClientFocus) → f.closed ≡ false → Torn f → Torn (tear_down f)
  unfolding tear_down report_end seen
  tear_down-Torn f e v = record {
    begins = rw (v.reported, e) (grind (arith, seen-handle_rpc, v.begins));
    ends = rw (v.reported, e) (grind (arith, seen-handle_rpc, v.ends));
    reported = rw (v.reported, e) refl;
    cancelled = λ c n. cc (n);
  }

  done-Torn : (f : ClientFocus) → Torn f → Torn (done f)
  unfolding done
  done-Torn f v = choose f.closed refl
    where
      choose : (b : Bool) → f.closed ≡ b → Torn (if b then f else tear_down f)
      choose true e = v
      choose false e = tear_down-Torn f e v

  module _ {M : Type 0} (env : Env M) where
    write_request-Torn : (r : Request) (f : ClientFocus) → Torn f → Torn (write_request env r f).0
    unfolding write_request seen
    write_request-Torn r f v = record {
      begins = ground (arith, v.begins);
      ends = ground (arith, v.ends);
      reported = ground (arith, v.reported);
      cancelled = ground (arith, v.cancelled);
    }

    stable : Stable env CoreTorn
    unfolding first_error call_maybe
    stable = record {
      event = event-Torn;
      finish = done-Torn;
      write = λ r f k v. write_request-Torn r f v;
      call = λ f v. if_keeps Torn f.has_begun _ _ v (write_request-Torn _ _ v);
      data_frame = λ b f h v. write_request-Torn (Request.payload b) f v;
      trailers = λ m f v. v;
      cancel = λ e f v. record {
        begins = v.begins;
        ends = v.ends;
        reported = v.reported;
        cancelled = λ c n. cc (n);
      };
    }

module _ (late : Bool) (id : ℕ) where
  abbrev CoreEntry : Core → Type 0
  CoreEntry c = Entry late id c.closed c.reply c.streams

  abbrev Kept : ClientFocus → Type 0
  Kept f = CoreEntry (core f)

  tear_down-Kept : (f : ClientFocus) → f.closed ≡ false → Kept f → Kept (tear_down f)
  unfolding tear_down report_end
  tear_down-Kept f e v = elim (Bool-cases late) [
    | inl l ↦ absurd (cc (e, v.late_closed l))
    | inr l ↦ record {
      late_closed = λ k. cc (k, l);
      entry = rw l (ground (arith, lookup-delete_self f.reply f.streams));
    }
  ]

  done-Kept : (f : ClientFocus) → Kept f → Kept (done f)
  unfolding done
  done-Kept f v = choose f.closed refl
    where
      choose : (b : Bool) → f.closed ≡ b → Kept (if b then f else tear_down f)
      choose true e = v
      choose false e = tear_down-Kept f e v

  module _ {M : Type 0} (env : Env M) where
    write_request-Kept : (r : Request) (f : ClientFocus) → Kept f → Kept (write_request env r f).0
    unfolding write_request
    write_request-Kept r f v = record {
      late_closed = ground (arith, v.late_closed);
      entry = ground (arith, v.entry);
    }

    stable_entry : Stable env CoreEntry
    unfolding first_error call_maybe
    stable_entry = record {
      event = λ ctx ev f b e v. record { late_closed = v.late_closed; entry = v.entry };
      finish = done-Kept;
      write = λ r f k v. write_request-Kept r f v;
      call = λ f v. if_keeps Kept f.has_begun _ _ v (write_request-Kept _ _ v);
      data_frame = λ b f h v. write_request-Kept (Request.payload b) f v;
      trailers = λ m f v. record { late_closed = v.late_closed; entry = v.entry };
      cancel = λ e f v. record { late_closed = v.late_closed; entry = v.entry };
    }

module _ {M : Type 0} (env : Env M) where
  -- A new stream with an empty log takes the actions `early` before streamOnSubject inserts it into
  -- Client.streams, and `actions` after it, both any interleaving of arriving messages, ReadMsg
  -- rounds, calls of the user, heartbeat ticks and cancellations. Every stats handler has then seen
  -- Begin exactly once for each registration, and End exactly once if the stream is closed and else
  -- not at all, and a closed stream has a cancelled context. The stream's entry is in Client.streams
  -- until the stream is closed and is gone after that, except where the stream had been closed
  -- before it was inserted: then it stays in Client.streams for ever.
  pub client_run-Teardown :
      (c : Client) (ctx : Context) (subject method inbox : String) (id now : ℕ)
      (header trailer : Option Md) (streams : GoMap ℕ) (early actions : List (ClientAction M))
      (h : String)
      → let f =
          client_run env early
            (new_client_stream c ctx subject method inbox now header trailer streams []) in
        let g = client_run env actions (keep_stream id f) in
        Torn h g × Entry f.closed id g.closed g.reply g.streams
  unfolding seen
  client_run-Teardown c ctx subject method inbox id now header trailer streams early actions h =
      let new = new_client_stream c ctx subject method inbox now header trailer streams [] in
      let f = client_run env early new in
      let v : Torn h f = client_run-Stable env (CoreTorn h) (stable h env) early new (record {
        begins = grind (arith, seen-handle_rpc);
        ends = grind (arith, seen-handle_rpc);
        reported = refl;
        cancelled = λ e. absurd (cc);
      }) in
      (
        client_run-Stable env (CoreTorn h) (stable h env) actions (keep_stream id f) (record {
          begins = v.begins;
          ends = v.ends;
          reported = v.reported;
          cancelled = v.cancelled;
        }),
        client_run-Stable env (CoreEntry f.closed id) (stable_entry f.closed id env) actions
            (keep_stream id f)
            (record {
              late_closed = λ e. e;
              entry = lookup-insert_self f.reply id f.streams ∙ ground arith;
            }),
      )
