-- ===== src/Sidecar/Worker/Run/Fifo.antt =====
-- The upstream gets the caller's frames in their order.
use nats_grpc.Base.{
  ℕ, String, ◌≡◌, refl, sym, ap, subst, ◌∙◌, Bool, true, false, not, ◌&&◌, Option, none, some, List,
  [], ◌∷◌, ◌++◌, append_assoc, append-nil, All, GoMap, if_keeps, if◌then◌else◌,
}
use nats_grpc.Wire.{Bytes, Request, Error, Result, ok, err}
use nats_grpc.Env.{Env}
use nats_grpc.Sidecar.Ingress.{Registration}
use nats_grpc.Sidecar.Worker.{
  WorkerFocus, UpstreamCall, send_frame, close_send, Ready, is_done, deliver, finish, relay_end,
  on_frame, take_frame, round, run_round, pump_result, pump_round, start_worker, new_worker,
}
use nats_grpc.Sidecar.Worker.Run.{WorkerAction, worker_step, worker_run}
use nats_grpc.Sidecar.Worker.Run.Queue.{
  NoTeardown, pending, taken, calls_for, calls, handed, InOrder, deliver-InOrder, unwait-InOrder,
  idle-Ordered,
}

module _ {M : Type 0} (env : Env M) (nid : String) where
  on_frame-InOrder :
      (acc : List Bytes) (r : Result Request) (rest : List UpstreamCall) (f : WorkerFocus)
      → calls env nid acc ≡ f.to_upstream ++ (calls_for env nid r ++ rest)
      → rest ≡ calls env nid (pending f)
      → is_done f ≡ false
      → InOrder env nid acc (on_frame env nid r f)
  unfolding InOrder on_frame
  on_frame-InOrder acc (ok (Request.payload b)) rest f e q l = (
    rest,
    record {
      prefix = e ∙ sym (append_assoc f.to_upstream (send_frame b ∷ []) rest);
      queued = λ h. q;
      live = λ h. l;
    },
  )
  on_frame-InOrder acc (ok (Request.end x)) rest f e q l = (
    rest,
    record {
      prefix = e ∙ sym (append_assoc f.to_upstream (close_send ∷ []) rest);
      queued = λ h. q;
      live = λ h. l;
    },
  )
  on_frame-InOrder acc (ok (Request.ping t)) rest f e q l =
      (rest, record { prefix = e; queued = λ h. q; live = λ h. l })
  on_frame-InOrder acc _ rest f e q l =
      (rest, record { prefix = e; queued = λ h. q; live = λ h. l })

  -- what waits, with the frame that run takes first
  waits :
      (b : Bytes) (bs : List Bytes) (o : Option Bytes)
      → calls env nid (elim o [ none ↦ b ∷ bs | some x ↦ b ∷ bs ++ x ∷ [] ])
        ≡ calls_for env nid (env.unmarshal_request b)
          ++ calls env nid (elim o [ none ↦ bs | some x ↦ bs ++ x ∷ [] ])
  waits b bs none = refl
  waits b bs (some x) = refl

  take_frame-InOrder :
      (acc : List Bytes) (bs : List Bytes) (f : WorkerFocus)
      → f.frames ≡ bs
      → f.running ≡ true
      → InOrder env nid acc f
      → InOrder env nid acc (take_frame env nid bs f)
  unfolding take_frame InOrder
  take_frame-InOrder acc [] f e r v = v
  take_frame-InOrder acc (b ∷ bs) f e r (rest, v) =
      on_frame-InOrder acc (env.unmarshal_request b) (calls env nid (pending g)) g
        (v.prefix ∙ ap (λ t. f.to_upstream ++ t) (v.queued r ∙ shown ∙ waits b bs f.waiting)) refl
        (v.live r)
    where
      g : WorkerFocus
      g = record f { worker = record f.worker { frames = bs } }

      shown :
          calls env nid (pending f)
          ≡ calls env nid (elim f.waiting [ none ↦ b ∷ bs | some x ↦ b ∷ bs ++ x ∷ [] ])
      shown = ap (λ fs. calls env nid (elim f.waiting [ none ↦ fs | some x ↦ fs ++ x ∷ [] ])) e

  relay_end-InOrder :
      (acc : List Bytes) (o : Option Error) (f : WorkerFocus)
      → InOrder env nid acc f
      → InOrder env nid acc (relay_end env nid o f)
  unfolding relay_end finish InOrder
  relay_end-InOrder acc none f v = v
  relay_end-InOrder acc (some e) f (rest, v) = (rest, idle-Ordered env nid acc rest f _ refl refl v)

  round-InOrder :
      (acc : List Bytes) (r : Ready) (f : WorkerFocus)
      → f.running ≡ true
      → InOrder env nid acc f
      → InOrder env nid acc (round env nid r f)
  unfolding round finish
  round-InOrder acc Ready.context f h v =
      if_keeps (InOrder env nid acc) (is_done f && not f.draining) _ _
        (unfold InOrder in (v.0, idle-Ordered env nid acc v.0 f _ refl refl v.1)) v
  round-InOrder acc Ready.frame f h v =
      if_keeps (InOrder env nid acc) f.draining _ _ v (take_frame-InOrder acc f.frames f refl h v)
  round-InOrder acc Ready.upstream f h v = relay_end-InOrder acc f.up_done f v

  pump_result-InOrder :
      (acc : List Bytes) (r : Result Bytes) (f : WorkerFocus)
      → InOrder env nid acc f
      → InOrder env nid acc (pump_result env nid r f)
  unfolding pump_result InOrder
  pump_result-InOrder acc (ok b) f (rest, v) =
      (rest, record { prefix = v.prefix; queued = v.queued; live = v.live })
  pump_result-InOrder acc (err e) f (rest, v) =
      (rest, record { prefix = v.prefix; queued = v.queued; live = v.live })

  none_taken :
      (acc : List Bytes) (f : WorkerFocus) → InOrder env nid acc f → InOrder env nid (acc ++ []) f
  none_taken acc f v = subst (λ a. InOrder env nid a f) (sym (append-nil acc)) v

  worker_step-InOrder :
      (acc : List Bytes) (a : WorkerAction) (f : WorkerFocus)
      → NoTeardown a
      → InOrder env nid acc f
      → InOrder env nid (acc ++ taken a f.waiting) (worker_step env nid a f)
  unfolding worker_step deliver run_round pump_round
  worker_step-InOrder acc (WorkerAction.arrive b) f n v =
      deliver-InOrder env nid acc b f.waiting f refl v
  worker_step-InOrder acc (WorkerAction.resume quit) f n v =
      none_taken acc _ (unwait-InOrder env nid acc quit f.waiting f refl v)
  worker_step-InOrder acc (WorkerAction.round r) f n v = none_taken acc _ (running f.running refl)
    where
      running :
          (b : Bool) → f.running ≡ b → InOrder env nid acc (if b then round env nid r f else f)
      running true h = round-InOrder acc r f h v
      running false h = v
  worker_step-InOrder acc (WorkerAction.pump r) f n v =
      none_taken acc _
        (if_keeps (InOrder env nid acc) f.pumping _ _ (pump_result-InOrder acc r f v) v)
  worker_step-InOrder acc WorkerAction.tear_down f n v = absurd n

  worker_run-InOrder :
      (acc : List Bytes) (actions : List WorkerAction) (f : WorkerFocus)
      → All NoTeardown actions
      → InOrder env nid acc f
      → InOrder env nid (acc ++ handed env nid actions f) (worker_run env nid actions f)
  unfolding worker_run
  worker_run-InOrder acc [] f n v = none_taken acc f v
  worker_run-InOrder acc (a ∷ more) f (n, ns) v =
      subst (λ x. InOrder env nid x (worker_run env nid more (worker_step env nid a f)))
        (append_assoc acc (taken a f.waiting) (handed env nid more (worker_step env nid a f)))
        (worker_run-InOrder (acc ++ taken a f.waiting) more (worker_step env nid a f) ns
          (worker_step-InOrder acc a f n v))

  start_worker-InOrder :
      (reply method : String) (id : ℕ) (reg : Registration) (streams : GoMap ℕ)
      → is_done (start_worker env nid reply method id reg streams []) ≡ false
      → InOrder env nid [] (start_worker env nid reply method id reg streams [])
  unfolding InOrder start_worker new_worker
  start_worker-InOrder reply method id reg streams d =
      ([], record { prefix = refl; queued = λ h. refl; live = λ h. d })

  -- Let a worker start whose context is not done, and let the registration not be torn down. Over
  -- every interleaving of arriving frames, rounds of run and of its goroutine, what the upstream has
  -- been given, payloads and the half-close, comes in the order of the frames that onStreamFrame
  -- handed over, with none left out or doubled. While run goes on, the frames that ask for the rest
  -- are those that wait in the channel of 64 frames and in the callback that found it full.
  pub worker_run-in_order :
      (reply method : String) (id : ℕ) (reg : Registration) (streams : GoMap ℕ)
      (actions : List WorkerAction)
      → is_done (start_worker env nid reply method id reg streams []) ≡ false
      → All NoTeardown actions
      → let start = start_worker env nid reply method id reg streams [] in
        let last = worker_run env nid actions start in
        (rest : List UpstreamCall) × ((calls env nid (handed env nid actions start)
            ≡ last.to_upstream ++ rest)
          × (last.running ≡ true → rest ≡ calls env nid (pending last)))
  unfolding InOrder
  worker_run-in_order reply method id reg streams actions d n =
      let (rest, v) =
        worker_run-InOrder [] actions (start_worker env nid reply method id reg streams []) n
          (start_worker-InOrder reply method id reg streams d) in
      (rest, (v.prefix, v.queued))
