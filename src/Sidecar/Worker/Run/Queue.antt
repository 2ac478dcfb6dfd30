-- ===== src/Sidecar/Worker/Run/Queue.antt =====
-- The frames that wait for a worker's run, in the channel and in the callback.
use nats_grpc.Base.{
  String, ◌≡◌, refl, sym, ap, subst, ◌∙◌, Bool, true, false, not, ◌&&◌, ◌||◌, ltb, length, Option,
  none, some, List, [], ◌∷◌, ◌++◌, append_assoc, append-nil, if_keeps, if◌then◌else◌,
}
use nats_grpc.Wire.{Bytes, Request, Result, ok}
use nats_grpc.Env.{Env}
use nats_grpc.Sidecar.Worker.{
  WorkerFocus, UpstreamCall, send_frame, close_send, is_done, offer_frame, deliver_on, unwait,
}
use nats_grpc.Sidecar.Worker.Run.{WorkerAction, worker_step}

abbrev pub NoTeardown : WorkerAction → Type 0
NoTeardown WorkerAction.tear_down = ⊥
NoTeardown _ = Unit

-- the frames that wait for run: in the channel, and in the callback
abbrev pub pending : WorkerFocus → List Bytes
pending f = elim f.waiting [ none ↦ f.frames | some b ↦ f.frames ++ b ∷ [] ]

-- What a callback that does not wait takes in.
abbrev pub taken : WorkerAction → Option Bytes → List Bytes
taken (WorkerAction.arrive b) none = b ∷ []
taken _ _ = []

module _ {M : Type 0} (env : Env M) (nid : String) where
  abbrev pub calls_for : Result Request → List UpstreamCall
  calls_for (ok (Request.payload b)) = send_frame b ∷ []
  calls_for (ok (Request.end e)) = close_send ∷ []
  calls_for _ = []

  -- what frames ask of the upstream
  abbrev pub calls : List Bytes → List UpstreamCall
  calls [] = []
  calls (b ∷ bs) = calls_for (env.unmarshal_request b) ++ calls bs

  -- the frames that onStreamFrame hands to the worker in a run
  abbrev pub handed : List WorkerAction → WorkerFocus → List Bytes
  handed [] f = []
  handed (a ∷ more) f = taken a f.waiting ++ handed more (worker_step env nid a f)

  calls-append : (xs ys : List Bytes) → calls (xs ++ ys) ≡ calls xs ++ calls ys
  calls-append [] ys = refl
  calls-append (x ∷ xs) ys =
      ap (λ t. calls_for (env.unmarshal_request x) ++ t) (calls-append xs ys)
      ∙ sym (append_assoc (calls_for (env.unmarshal_request x)) (calls xs) (calls ys))

  -- `acc` are the frames handed over so far, and `rest` what they ask and the upstream has not got.
  pub record Ordered (acc : List Bytes) (rest : List UpstreamCall) (f : WorkerFocus) : Type 0 where
    pub prefix : calls acc ≡ f.to_upstream ++ rest
    pub queued : f.running ≡ true → rest ≡ calls (pending f)
    pub live : f.running ≡ true → is_done f ≡ false

  unfoldable pub InOrder : List Bytes → WorkerFocus → Type 0
  InOrder acc f = (rest : List UpstreamCall) × Ordered acc rest f

  hand :
      (acc : List Bytes) (b : Bytes) (rest : List UpstreamCall) (f : WorkerFocus)
      → calls acc ≡ f.to_upstream ++ rest
      → calls (acc ++ b ∷ []) ≡ f.to_upstream ++ (rest ++ calls (b ∷ []))
  hand acc b rest f e =
      calls-append acc (b ∷ [])
      ∙ ap (λ t. t ++ calls (b ∷ [])) e
      ∙ append_assoc f.to_upstream rest (calls (b ∷ []))

  pending-waiting :
      (o : Option Bytes) (f : WorkerFocus)
      → f.waiting ≡ o
      → calls (pending f) ≡ calls (elim o [ none ↦ f.frames | some b ↦ f.frames ++ b ∷ [] ])
  pending-waiting o f w =
      ap (λ o. calls (elim o [ none ↦ f.frames | some b ↦ f.frames ++ b ∷ [] ])) w

  pub deliver-InOrder :
      (acc : List Bytes) (b : Bytes) (o : Option Bytes) (f : WorkerFocus)
      → f.waiting ≡ o
      → InOrder acc f
      → InOrder (acc ++ taken (WorkerAction.arrive b) o) (deliver_on env nid o b f)
  unfolding InOrder deliver_on offer_frame
  deliver-InOrder acc b (some x) f w (rest, v) =
      (rest, subst (λ a. Ordered a rest f) (sym (append-nil acc)) v)
  deliver-InOrder acc b none f w (rest, v) = (
    rest ++ calls (b ∷ []),
    if_keeps (λ w. Ordered (acc ++ b ∷ []) (rest ++ calls (b ∷ [])) (record f { worker = w }))
        (ltb (length f.frames) 64) _ _
        (record {
          prefix = hand acc b rest f v.prefix;
          queued = λ h.
              longer h
              ∙ sym (
                  pending-waiting none
                    (record f { worker = record f.worker { frames = f.frames ++ b ∷ [] } }) w);
          live = v.live;
        })
        (record { prefix = hand acc b rest f v.prefix; queued = longer; live = v.live }),
  )
    where
      longer : f.running ≡ true → rest ++ calls (b ∷ []) ≡ calls (f.frames ++ b ∷ [])
      longer h =
          ap (λ t. t ++ calls (b ∷ [])) (v.queued h ∙ pending-waiting none f w)
          ∙ sym (calls-append f.frames (b ∷ []))

  -- once run has returned, only what the upstream has got matters
  pub idle-Ordered :
      (acc : List Bytes) (rest : List UpstreamCall) (f g : WorkerFocus)
      → g.running ≡ false
      → g.to_upstream ≡ f.to_upstream
      → Ordered acc rest f
      → Ordered acc rest g
  idle-Ordered acc rest f g r u v = record {
    prefix = v.prefix ∙ ap (λ t. t ++ rest) (sym u);
    queued = λ h. absurd (cc);
    live = λ h. absurd (cc);
  }

  pub unwait-InOrder :
      (acc : List Bytes) (quit : Bool) (o : Option Bytes) (f : WorkerFocus)
      → f.waiting ≡ o
      → InOrder acc f
      → InOrder acc (unwait env nid quit o f)
  unfolding InOrder unwait
  unwait-InOrder acc quit none f w v = v
  unwait-InOrder acc quit (some b) f w (rest, v) = (rest, choose f.running refl)
    where
      choose : (r : Bool) → f.running ≡ r → Ordered acc rest (unwait env nid quit (some b) f)
      choose false r =
          if_keeps (Ordered acc rest) (is_done f && (quit || not (ltb (length f.frames) 64))) _ _
            (idle-Ordered acc rest f _ r refl v)
            (if_keeps (Ordered acc rest) (ltb (length f.frames) 64) _ _
              (idle-Ordered acc rest f _ r refl v) v)
      choose true r =
          subst
            (λ d. Ordered acc rest (
              if d && (quit || not (ltb (length f.frames) 64))
              then record f { worker = record f.worker { waiting = none } }
              else (if ltb (length f.frames) 64
                  then record f {
                    worker = record f.worker { frames = f.frames ++ b ∷ []; waiting = none };
                  }
                  else f)))
            (sym (v.live r))
            (if_keeps (Ordered acc rest) (ltb (length f.frames) 64) _ _
              (record {
                prefix = v.prefix;
                queued = λ h. v.queued h ∙ pending-waiting (some b) f w;
                live = v.live;
              })
              v)
