-- ===== src/Server/CloseStream.antt =====
-- What CloseStream does to the streams of one peer.
use nats_grpc.Base.{
  ℕ, String, ◌≡◌, ◌≢◌, refl, sym, subst, ap, ◌∙◌, Bool, true, false, Option, none, some, [], ◌∷◌,
  arith, ◌==◌, GoMap, lookup, if_true, if_false, eq_iff, if◌then◌else◌,
}
use nats_grpc.Wire.{Error}
use nats_grpc.ServerStream.{ServerStream, finalize, end_once, done}
use nats_grpc.Server.{Node, close_streams, close_stream}
use nats_grpc.Server.Shutdown.{
  finalize_at, Stopped, finalize_at-reply, finalize_at-Stopped, finalize_at-stops, same_id,
}

-- one round of CloseStream's loop
abbrev close_at : String → ℕ → Node → Node
close_at nid id n =
    if (n.objects id).pnid == nid then finalize_at (n.objects id).end_err id n else n

finalize_at-pnid :
    (x : Option Error) (k id : ℕ) (n : Node)
    → ((finalize_at x id n).objects k).pnid ≡ (n.objects k).pnid
unfolding finalize end_once
finalize_at-pnid x k id n = ground arith

module _ (nid : String) where
  -- a stream of the peer, under its own reply subject
  record Of (reply : String) (id : ℕ) (n : Node) : Type 0 where
    own : (n.objects id).reply ≡ reply
    peer : (n.objects id).pnid ≡ nid

  close_at-keeps :
      (P : Node → Type 0) (id : ℕ) (n : Node)
      → P n
      → P (finalize_at (n.objects id).end_err id n)
      → P (close_at nid id n)
  close_at-keeps P id n p q =
      elim ((n.objects id).pnid == nid)
        as (λ b. P (if b then finalize_at (n.objects id).end_err id n else n)) [
          | true ↦ q
          | false ↦ p
        ]

  close_at-Of :
      (reply : String) (k id : ℕ) (n : Node) → Of reply k n → Of reply k (close_at nid id n)
  close_at-Of reply k id n v = close_at-keeps (Of reply k) id n v (record {
    own = finalize_at-reply _ k id n ∙ v.own;
    peer = finalize_at-pnid _ k id n ∙ v.peer;
  })

  close_at-Stopped :
      (reply : String) (k id : ℕ) (n : Node)
      → Stopped reply k n
      → Stopped reply k (close_at nid id n)
  close_at-Stopped reply k id n v =
      close_at-keeps (Stopped reply k) id n v (finalize_at-Stopped _ reply k id n v)

  close_at-stops :
      (reply : String) (id : ℕ) (n : Node) → Of reply id n → Stopped reply id (close_at nid id n)
  close_at-stops reply id n v =
      subst (Stopped reply id)
        (sym (if_true _ n ((n.objects id).pnid == nid) ((eq_iff (n.objects id).pnid nid).1 v.peer)))
        (finalize_at-stops _ reply id n v.own)

  close_streams-Stopped :
      (snapshot : GoMap ℕ) (reply : String) (id : ℕ) (n : Node)
      → Stopped reply id n
      → Stopped reply id (close_streams nid snapshot n)
  unfolding close_streams done
  close_streams-Stopped [] reply id n v = v
  close_streams-Stopped ((r, k) ∷ more) reply id n v =
      close_streams-Stopped more reply id _ (close_at-Stopped reply id k n v)

  close_streams-stops :
      (snapshot : GoMap ℕ) (reply : String) (id : ℕ) (n : Node)
      → lookup reply snapshot ≡ some id
      → Of reply id n
      → Stopped reply id (close_streams nid snapshot n)
  unfolding close_streams done lookup
  close_streams-stops [] reply id n h v = absurd (cc)
  close_streams-stops ((r, k) ∷ more) reply id n h v =
      choose (r == reply) refl
        (λ later. close_streams-stops more reply id _ later (close_at-Of reply id k n v))
    where
      choose :
          (b : Bool)
          → (r == reply) ≡ b
          → (lookup reply more ≡ some id
              → Stopped reply id (close_streams nid more (close_at nid k n)))
          → Stopped reply id (close_streams nid more (close_at nid k n))
      choose true c others = close_streams-Stopped more reply id _ (
          subst (λ j. Stopped reply id (close_at nid j n))
            (sym (same_id k id (sym (if_true _ _ (r == reply) c) ∙ h)))
            (close_at-stops reply id n v))
      choose false c others = others (sym (if_false _ _ (r == reply) c) ∙ h)

  -- a stream of another peer
  close_at-other :
      (k id : ℕ) (n : Node) → (n.objects k).pnid ≢ nid → (close_at nid id n).objects k ≡ n.objects k
  close_at-other k id n q = ground (arith, eq_iff (n.objects id).pnid nid)

  close_streams-other :
      (snapshot : GoMap ℕ) (k : ℕ) (n : Node)
      → (n.objects k).pnid ≢ nid
      → (close_streams nid snapshot n).objects k ≡ n.objects k
  unfolding close_streams done
  close_streams-other [] k n q = refl
  close_streams-other ((r, id) ∷ more) k n q =
      let same = close_at-other k id n q in
      close_streams-other more k (close_at nid id n)
        (λ e. q (sym (ap (λ (s : ServerStream). s.pnid) same) ∙ e))
      ∙ same

  -- After CloseStream, every stream of the peer that Server.streams held under its own reply subject is
  -- cancelled, its endOnce has fired, and its entry has left Server.streams; and every stream of
  -- another peer is as it was.
  pub close_stream-peer :
      (reply : String) (id other : ℕ) (n : Node)
      → lookup reply n.streams ≡ some id
      → (n.objects id).reply ≡ reply
      → (n.objects id).pnid ≡ nid
      → (n.objects other).pnid ≢ nid
      → let m = close_stream nid n in
        (((m.objects id).cancelled ≡ true)
          × ((m.objects id).ended ≡ true)
          × (lookup reply m.streams ≡ none))
        × (m.objects other ≡ n.objects other)
  unfolding close_stream
  close_stream-peer reply id other n h e p q =
      let v = close_streams-stops n.streams reply id n h (record { own = e; peer = p }) in
      ((v.cancelled, v.ended, v.removed), close_streams-other n.streams other n q)
