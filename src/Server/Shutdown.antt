-- ===== src/Server/Shutdown.antt =====
-- What Stop does to the streams of the server.
use nats_grpc.Base.{
  ℕ, String, ◌≡◌, refl, sym, subst, ap, ◌∙◌, Bool, true, false, Option, none, some, [], ◌∷◌, arith,
  ◌==◌, GoMap, lookup, lookup-delete, delete, if_keeps, lookup-delete_self, if_true, if_false,
}
use nats_grpc.Wire.{Error}
use nats_grpc.ServerStream.{ServerConf, Focus, finalize, end_once}
use nats_grpc.ServerStream.Run.{stop_error}
use nats_grpc.Server.{Node, conf, focus, unfocus, finalize_all, cancel_all, stop}

-- the step of Stop's loop and of CloseStream's, for one pointer
abbrev pub finalize_at : Option Error → ℕ → Node → Node
finalize_at x id n = unfocus id (finalize (conf n.server) x (focus id n)) n

-- what is left of a stream under `reply`
pub record Stopped (reply : String) (id : ℕ) (n : Node) : Type 0 where
  pub ended : (n.objects id).ended ≡ true
  pub removed : lookup reply n.streams ≡ none
  pub cancelled : (n.objects id).cancelled ≡ true

pub finalize_at-reply :
    (x : Option Error) (k id : ℕ) (n : Node)
    → ((finalize_at x id n).objects k).reply ≡ (n.objects k).reply
unfolding finalize end_once
finalize_at-reply x k id n = ground arith

finalize-streams :
    (srv : ServerConf) (e : Option Error) (f : Focus)
    → (finalize srv e f).streams ≡ delete f.reply f.streams
unfolding finalize end_once
finalize-streams srv e f = ground arith

finalized :
    (gone reply : String) (streams : GoMap ℕ)
    → lookup reply streams ≡ none
    → lookup reply (delete gone streams) ≡ none
finalized gone reply streams e =
    lookup-delete gone reply streams ∙ if_keeps (λ o. o ≡ none) (gone == reply) none _ refl e

pub finalize_at-Stopped :
    (x : Option Error) (reply : String) (k id : ℕ) (n : Node)
    → Stopped reply k n
    → Stopped reply k (finalize_at x id n)
unfolding finalize end_once
finalize_at-Stopped x reply k id n v = record {
  ended = ground (arith, v.ended);
  cancelled = ground (arith, v.cancelled);
  removed =
      ap (lookup reply) (finalize-streams (conf n.server) x (focus id n))
      ∙ finalized (n.objects id).reply reply n.streams v.removed;
}

pub finalize_at-stops :
    (x : Option Error) (reply : String) (id : ℕ) (n : Node)
    → (n.objects id).reply ≡ reply
    → Stopped reply id (finalize_at x id n)
unfolding finalize end_once
finalize_at-stops x reply id n e = record {
  ended = ground arith;
  cancelled = ground arith;
  removed =
      ap (lookup reply)
        (finalize-streams (conf n.server) x (focus id n) ∙ ap (λ k. delete k n.streams) e)
      ∙ lookup-delete_self reply n.streams;
}

finalize_all-Stopped :
    (snapshot : GoMap ℕ) (reply : String) (id : ℕ) (n : Node)
    → Stopped reply id n
    → Stopped reply id (finalize_all snapshot n)
unfolding finalize_all
finalize_all-Stopped [] reply id n v = v
finalize_all-Stopped ((r, k) ∷ more) reply id n v =
    finalize_all-Stopped more reply id _ (finalize_at-Stopped (some stop_error) reply id k n v)

pub same_id : (a b : ℕ) → some a ≡ some b → a ≡ b
same_id a b p = cc

finalize_all-stops :
    (snapshot : GoMap ℕ) (reply : String) (id : ℕ) (n : Node)
    → lookup reply snapshot ≡ some id
    → (n.objects id).reply ≡ reply
    → Stopped reply id (finalize_all snapshot n)
unfolding finalize_all lookup
finalize_all-stops [] reply id n h e = absurd (cc)
finalize_all-stops ((r, k) ∷ more) reply id n h e = choose (r == reply) refl (λ later.
    finalize_all-stops more reply id _ later (finalize_at-reply (some stop_error) id k n ∙ e))
  where
    choose :
        (b : Bool)
        → (r == reply) ≡ b
        → (lookup reply more ≡ some id
            → Stopped reply id (finalize_all more (finalize_at (some stop_error) k n)))
        → Stopped reply id (finalize_all more (finalize_at (some stop_error) k n))
    choose true c others = finalize_all-Stopped more reply id _ (
        subst (λ j. Stopped reply id (finalize_at (some stop_error) j n))
          (sym (same_id k id (sym (if_true _ _ (r == reply) c) ∙ h)))
          (finalize_at-stops (some stop_error) reply id n e))
    choose false c others = others (sym (if_false _ _ (r == reply) c) ∙ h)

-- After Stop, every stream that Server.streams held under its own reply subject is cancelled, its
-- endOnce has fired, and its entry has left Server.streams, whatever other entries there are.
pub stop_ends_streams :
    (reply : String) (id : ℕ) (n : Node)
    → lookup reply n.streams ≡ some id
    → (n.objects id).reply ≡ reply
    → let m = stop n in
      ((m.objects id).cancelled ≡ true)
      × ((m.objects id).ended ≡ true)
      × (lookup reply m.streams ≡ none)
unfolding stop cancel_all
stop_ends_streams reply id n h e =
    let v = finalize_all-stops n.streams reply id n h e in (refl, v.ended, v.removed)
