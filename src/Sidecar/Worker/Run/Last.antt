-- ===== src/Sidecar/Worker/Run/Last.antt =====
-- End is the last frame that a worker publishes.
use nats_grpc.Base.{
  ℕ, String, ◌≡◌, refl, inl, inr, ◌⊎◌, Bool, true, false, not, ◌&&◌, ◌||◌, ltb, length, Option,
  Option-cases, none, some, List, [], ◌∷◌, GoMap, if_keeps, if◌then◌else◌,
}
use nats_grpc.Wire.{Bytes, Request, Response, Error, Result, Result-cases, ok, err}
use nats_grpc.Stats.{Frame, Log}
use nats_grpc.Stats.Counts.{frames}
use nats_grpc.Env.{Env}
use nats_grpc.Sidecar.Ingress.{Registration}
use nats_grpc.Pump.{normalize_eof}
use nats_grpc.Sidecar.Worker.{
  WorkerFocus, Worker, Ready, is_done, publish_to, begin_frame, publish_begin, publish_data,
  publish_pong, publish_stream_end, end_frame, start_worker, new_worker, offer_frame, deliver_on,
  deliver, unwait, finish, relay_end, on_frame, take_frame, round, run_round, pump_result,
  pump_round,
}
use nats_grpc.Sidecar.Worker.Run.{WorkerAction, worker_step, worker_run}

abbrev pub is_end_frame : Frame → Bool
is_end_frame (Frame.response (Response.end e)) = true
is_end_frame _ = false

abbrev pub NoEnd : List Frame → Type 0
NoEnd [] = Unit
NoEnd (f ∷ fs) = (is_end_frame f ≡ false) × NoEnd fs

-- Newest first: only the newest frame may be an End.
abbrev pub EndsLast : List Frame → Type 0
EndsLast [] = Unit
EndsLast (f ∷ fs) = NoEnd fs

-- `over` is that no frame follows: run has returned and the goroutine has ended.
record Quiet (running pumping : Bool) (up_done : Option Error) (log : Log) : Type 0 where
  last : EndsLast (frames log)
  live : (running ≡ true) ⊎ (pumping ≡ true) → NoEnd (frames log)
  stopped : (e : Error) → up_done ≡ some e → pumping ≡ false

module _ {M : Type 0} (env : Env M) (nid : String) where
  abbrev Q : WorkerFocus → Type 0
  Q f = Quiet f.running f.pumping f.up_done f.log

  -- what holds of the frames with and without the new one holds after a publisher
  pub publish_to-keeps :
      (P : List Frame → Type 0) (reply : String) (r : Response) (log : Log)
      → P (frames log)
      → P (Frame.response r ∷ frames log)
      → P (frames (publish_to env nid reply r log))
  unfolding publish_to frames
  publish_to-keeps P reply r log p q = elim (Result-cases (env.marshal_response r)) [
    | inl (x, e) ↦ rw (e, publish_to) p
    | inr (b, e) ↦ elim (Option-cases (env.publish log reply b)) [
      | inl h ↦ rw (e, publish_to, h) q
      | inr (x, h) ↦ rw (e, publish_to, h) p
    ]
  ]

  -- a frame that is no End, while the worker lives
  say-Quiet :
      (r : Response) (f : WorkerFocus)
      → is_end_frame (Frame.response r) ≡ false
      → (f.running ≡ true) ⊎ (f.pumping ≡ true)
      → Q f
      → Q (record f { log = publish_to env nid f.reply r f.log })
  say-Quiet r f n l v = record {
    last = publish_to-keeps EndsLast f.reply r f.log v.last (v.live l);
    live = λ h. publish_to-keeps NoEnd f.reply r f.log (v.live l) (n, v.live l);
    stopped = v.stopped;
  }

  relay_end-Quiet :
      (o : Option Error) (f : WorkerFocus)
      → f.up_done ≡ o
      → f.running ≡ true
      → Q f
      → Q (relay_end env nid o f)
  unfolding relay_end finish publish_stream_end
  relay_end-Quiet none f u l v = v
  relay_end-Quiet (some e) f u l v =
      let p = v.stopped e u in
      record {
        last =
            publish_to-keeps EndsLast f.reply (end_frame env nid (normalize_eof e)) f.log v.last
              (v.live (inl l));
        live = λ h. absurd (dead p h);
        stopped = λ x n. absurd (cc);
      }
    where
      dead : f.pumping ≡ false → (false ≡ true) ⊎ (f.pumping ≡ true) → ⊥
      dead p (inl h) = cc
      dead p (inr h) = cc

  on_frame-Quiet :
      (r : Result Request) (f : WorkerFocus) → f.running ≡ true → Q f → Q (on_frame env nid r f)
  unfolding on_frame publish_pong
  on_frame-Quiet (ok (Request.payload b)) f l v = v
  on_frame-Quiet (ok (Request.end e)) f l v = v
  on_frame-Quiet (ok (Request.ping t)) f l v = say-Quiet (Response.pong t) f refl (inl l) v
  on_frame-Quiet _ f l v = v

  take_frame-Quiet :
      (bs : List Bytes) (f : WorkerFocus) → f.running ≡ true → Q f → Q (take_frame env nid bs f)
  unfolding take_frame
  take_frame-Quiet [] f l v = v
  take_frame-Quiet (b ∷ bs) f l v = on_frame-Quiet (env.unmarshal_request b) _ l v

  finish-Quiet : (f : WorkerFocus) → f.running ≡ true → Q f → Q (finish env nid f)
  unfolding finish
  finish-Quiet f l v = record { last = v.last; live = λ h. v.live (inl l); stopped = v.stopped }

  round-Quiet : (r : Ready) (f : WorkerFocus) → f.running ≡ true → Q f → Q (round env nid r f)
  unfolding round
  round-Quiet Ready.context f l v =
      if_keeps Q (is_done f && not f.draining) _ _ (finish-Quiet f l v) v
  round-Quiet Ready.frame f l v = if_keeps Q f.draining _ _ v (take_frame-Quiet f.frames f l v)
  round-Quiet Ready.upstream f l v = relay_end-Quiet f.up_done f refl l v

  pump_result-Quiet :
      (r : Result Bytes) (f : WorkerFocus) → f.pumping ≡ true → Q f → Q (pump_result env nid r f)
  unfolding pump_result publish_data
  pump_result-Quiet (ok b) f l v = say-Quiet (Response.payload b) f refl (inr l) v
  pump_result-Quiet (err e) f l v = record {
    last = v.last;
    live = λ h. v.live (inr l);
    stopped = λ x n. refl;
  }

  deliver-Quiet :
      (o : Option Bytes) (b : Bytes) (f : WorkerFocus) → Q f → Q (deliver_on env nid o b f)
  unfolding deliver_on offer_frame
  deliver-Quiet (some busy) b f v = v
  deliver-Quiet none b f v =
      if_keeps (λ (w : Worker). Quiet w.running w.pumping w.up_done f.log)
        (ltb (length f.frames) 64) _ _ v v

  unwait-Quiet :
      (quit : Bool) (o : Option Bytes) (f : WorkerFocus) → Q f → Q (unwait env nid quit o f)
  unfolding unwait
  unwait-Quiet quit none f v = v
  unwait-Quiet quit (some b) f v =
      if_keeps Q (is_done f && (quit || not (ltb (length f.frames) 64))) _ _ v
        (if_keeps Q (ltb (length f.frames) 64) _ _ v v)

  worker_step-Quiet : (a : WorkerAction) (f : WorkerFocus) → Q f → Q (worker_step env nid a f)
  unfolding worker_step deliver run_round pump_round
  worker_step-Quiet (WorkerAction.arrive b) f v = deliver-Quiet f.waiting b f v
  worker_step-Quiet (WorkerAction.resume quit) f v = unwait-Quiet quit f.waiting f v
  worker_step-Quiet (WorkerAction.round r) f v = running f.running refl
    where
      running : (b : Bool) → f.running ≡ b → Q (if b then round env nid r f else f)
      running true l = round-Quiet r f l v
      running false l = v
  worker_step-Quiet (WorkerAction.pump r) f v = pumping f.pumping refl
    where
      pumping : (b : Bool) → f.pumping ≡ b → Q (if b then pump_result env nid r f else f)
      pumping true l = pump_result-Quiet r f l v
      pumping false l = v
  worker_step-Quiet WorkerAction.tear_down f v = v

  worker_run-Quiet :
      (actions : List WorkerAction) (f : WorkerFocus) → Q f → Q (worker_run env nid actions f)
  unfolding worker_run
  worker_run-Quiet [] f v = v
  worker_run-Quiet (a ∷ more) f v = worker_run-Quiet more _ (worker_step-Quiet a f v)

  -- Over every interleaving of arriving frames, rounds of run and of its goroutine, and a teardown,
  -- from a worker that has just started, End is published at most once and no frame is published
  -- after it.
  pub worker_run-EndsLast :
      (reply method : String) (id : ℕ) (reg : Registration) (streams : GoMap ℕ)
      (actions : List WorkerAction)
      → EndsLast (
          frames
            (worker_run env nid actions (start_worker env nid reply method id reg streams [])).log)
  unfolding start_worker new_worker publish_begin
  worker_run-EndsLast reply method id reg streams actions =
      (worker_run-Quiet actions (start_worker env nid reply method id reg streams []) (record {
        last = unfold frames in publish_to-keeps EndsLast reply (begin_frame env nid) [] tt tt;
        live = λ h.
            unfold frames in publish_to-keeps NoEnd reply (begin_frame env nid) [] tt (refl, tt);
        stopped = λ e n. absurd (cc);
      })).last
