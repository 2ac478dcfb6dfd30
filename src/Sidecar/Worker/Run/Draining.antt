-- ===== src/Sidecar/Worker/Run/Draining.antt =====
-- A worker that has seen the caller's End answers no Ping until its upstream is done.
use nats_grpc.Base.{
  ℕ, suc, String, ◌≡◌, refl, sym, subst, if_true, Bool, true, false, not, ◌&&◌, ◌||◌, ltb, length,
  Option, none, some, List, [], ◌∷◌, GoMap, All, if_keeps, if◌then◌else◌,
}
use nats_grpc.Wire.{Bytes, Response, Error, ok, err}
use nats_grpc.Stats.{Frame, Log}
use nats_grpc.Stats.Counts.{frames}
use nats_grpc.Env.{Env}
use nats_grpc.Sidecar.Worker.{
  WorkerFocus, Worker, Ready, is_done, publish_data, offer_frame, deliver_on, deliver, unwait,
  finish, relay_end, round, run_round, pump_result, pump_round,
}
use nats_grpc.Sidecar.Worker.Run.{WorkerAction, worker_step, worker_run}
use nats_grpc.Sidecar.Worker.Run.Last.{publish_to-keeps}

-- the Pongs among frames
abbrev pub pongs : List Frame → ℕ
pongs [] = 0
pongs (Frame.response (Response.pong t) ∷ fs) = suc (pongs fs)
pongs (_ ∷ fs) = pongs fs

-- An action while the upstream is not done: its goroutine reads no error.
abbrev pub Unfinished : WorkerAction → Type 0
Unfinished (WorkerAction.pump (err e)) = ⊥
Unfinished _ = Unit

-- A worker that waits for its upstream, after `n` Pongs.
pub record Drains (n : ℕ) (streams : GoMap ℕ) (running draining : Bool) (up_done : Option Error)
    (listed : GoMap ℕ) (log : Log) : Type 0 where
  pub waits_on : running ≡ true
  pub ended : draining ≡ true
  pub no_error : up_done ≡ none
  pub kept : listed ≡ streams
  pub counted : pongs (frames log) ≡ n

and_false : (b : Bool) → (b && false) ≡ false
and_false true = refl
and_false false = refl

module _ {M : Type 0} (env : Env M) (nid : String) (n : ℕ) (streams : GoMap ℕ) where
  abbrev pub Draining : WorkerFocus → Type 0
  Draining f = Drains n streams f.running f.draining f.up_done f.streams f.log

  deliver-Draining :
      (o : Option Bytes) (b : Bytes) (f : WorkerFocus)
      → Draining f
      → Draining (deliver_on env nid o b f)
  unfolding deliver_on offer_frame
  deliver-Draining (some busy) b f v = v
  deliver-Draining none b f v =
      if_keeps (λ (w : Worker). Drains n streams w.running w.draining w.up_done f.streams f.log)
        (ltb (length f.frames) 64) _ _ v v

  unwait-Draining :
      (quit : Bool) (o : Option Bytes) (f : WorkerFocus)
      → Draining f
      → Draining (unwait env nid quit o f)
  unfolding unwait
  unwait-Draining quit none f v = v
  unwait-Draining quit (some b) f v =
      if_keeps Draining (is_done f && (quit || not (ltb (length f.frames) 64))) _ _ v
        (if_keeps Draining (ltb (length f.frames) 64) _ _ v v)

  round-Draining : (r : Ready) (f : WorkerFocus) → Draining f → Draining (round env nid r f)
  unfolding round relay_end
  round-Draining Ready.context f v = blocked f.draining v.ended
    where
      blocked :
          (d : Bool) → d ≡ true → Draining (if is_done f && not d then finish env nid f else f)
      blocked true e =
          subst (λ b. Draining (if b then finish env nid f else f)) (sym (and_false (is_done f))) v
      blocked false e = absurd (cc)
  round-Draining Ready.frame f v = subst Draining (sym (if_true _ _ f.draining v.ended)) v
  round-Draining Ready.upstream f v =
      subst (λ o. Draining (relay_end env nid o f)) (sym v.no_error) v

  worker_step-Draining :
      (a : WorkerAction) (f : WorkerFocus)
      → Unfinished a
      → Draining f
      → Draining (worker_step env nid a f)
  unfolding worker_step deliver run_round pump_round pump_result publish_data
  worker_step-Draining (WorkerAction.arrive b) f h v = deliver-Draining f.waiting b f v
  worker_step-Draining (WorkerAction.resume quit) f h v = unwait-Draining quit f.waiting f v
  worker_step-Draining (WorkerAction.round r) f h v =
      if_keeps Draining f.running _ _ (round-Draining r f v) v
  worker_step-Draining (WorkerAction.pump (ok b)) f h v =
      if_keeps Draining f.pumping _ _
        (record {
          waits_on = v.waits_on;
          ended = v.ended;
          no_error = v.no_error;
          kept = v.kept;
          counted =
              publish_to-keeps env nid (λ fs. pongs fs ≡ n) f.reply (Response.payload b) f.log
                v.counted v.counted;
        })
        v
  worker_step-Draining (WorkerAction.pump (err e)) f h v = absurd h
  worker_step-Draining WorkerAction.tear_down f h v = v

  worker_run-Draining :
      (actions : List WorkerAction) (f : WorkerFocus)
      → All Unfinished actions
      → Draining f
      → Draining (worker_run env nid actions f)
  unfolding worker_run
  worker_run-Draining [] f h v = v
  worker_run-Draining (a ∷ more) f (h, hs) v =
      worker_run-Draining more _ hs (worker_step-Draining a f h v)

module _ {M : Type 0} (env : Env M) (nid : String) where
  -- Once run has handled the caller's End, and as long as its goroutine reads no error of the upstream,
  -- no frame that arrives is answered: over every interleaving, a teardown of the registration
  -- included, no Pong is published, run does not return, and Sidecar.streams is unchanged.
  pub draining_never_pongs :
      (f : WorkerFocus) (actions : List WorkerAction)
      → f.running ≡ true
      → f.draining ≡ true
      → f.up_done ≡ none
      → All Unfinished actions
      → let g = worker_run env nid actions f in
        (pongs (frames g.log) ≡ pongs (frames f.log)) × (g.running ≡ true) × (g.streams ≡ f.streams)
  draining_never_pongs f actions r d u h =
      let v =
        worker_run-Draining env nid (pongs (frames f.log)) f.streams actions f h
          (record { waits_on = r; ended = d; no_error = u; kept = refl; counted = refl }) in
      (v.counted, v.waits_on, v.kept)
