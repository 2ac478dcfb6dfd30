-- ===== src/ClientStream/Run/Trailer.antt =====
-- What Trailer returns, over every interleaving.
use nats_grpc.Base.{ℕ, String, ◌≡◌, refl, ap, Option, none, some, List, [], arith, GoMap, if_keeps}
use nats_grpc.Wire.{Request, Status, Error, Metadata, Md}
use nats_grpc.Stats.{Context}
use nats_grpc.Env.{Env}
use nats_grpc.Metadata.{append_all}
use nats_grpc.Client.{Client}
use nats_grpc.ServerStream.Frames.{is_error}
use nats_grpc.ClientStream.{
  ClientFocus, stream_on_subject, report_end, tear_down, done, write_request,
}
use nats_grpc.ClientStream.Calls.{allocated, trailer}
use nats_grpc.ClientStream.Frames.{call_maybe, join_end, end_status, process_end}
use nats_grpc.ClientStream.Run.{ClientAction, client_run}
use nats_grpc.ClientStream.Run.Stable.{Core, core, Stable, client_run-Stable}

-- no variable is there for the trailer
abbrev Unset : Core → Type 0
Unset c = c.trailer ≡ none

abbrev U : ClientFocus → Type 0
U f = Unset (core f)

module _ {M : Type 0} (env : Env M) where
  write-Unset : (r : Request) (f : ClientFocus) → U f → U (write_request env r f).0
  unfolding write_request
  write-Unset r f v = ground (arith, v)

  done-Unset : (f : ClientFocus) → U f → U (done f)
  unfolding done tear_down report_end
  done-Unset f v = ground (arith, v)

  stable : Stable env Unset
  unfolding call_maybe join_end
  stable = record {
    event = λ ctx ev f b e v. v;
    finish = done-Unset;
    write = λ r f k v. write-Unset r f v;
    call = λ f v. if_keeps U f.has_begun _ _ v (write-Unset _ _ v);
    data_frame = λ b f h v. write-Unset (Request.payload b) f v;
    trailers = λ m f v. ap (λ t. join_end env t m) v;
    cancel = λ e f v. v;
  }

  done-trailer : (f : ClientFocus) → (done f).trailer ≡ f.trailer
  unfolding done tear_down report_end
  done-trailer f = ground arith

  end_status-trailer :
      (s : Option Status) (f : ClientFocus) → (end_status env s f).0.trailer ≡ f.trailer
  unfolding end_status
  end_status-trailer none f = done-trailer _
  end_status-trailer (some s) f =
      if_keeps (λ (r : ClientFocus × Option Error). r.0.trailer ≡ f.trailer) (is_error (some s)) _ _
        (done-trailer _) (done-trailer _)

  -- On a stream that was opened without the option for a trailer, over every interleaving in which
  -- Trailer is not called, Trailer returns an empty map in the end, whatever trailers End has brought.
  -- Where it has been called before End comes, it returns what it had then, with the trailers of End.
  pub late_trailer_is_lost :
      (c : Client) (ctx : Context) (subject method inbox : String) (id now : ℕ) (header : Option Md)
      (streams : GoMap ℕ) (actions : List (ClientAction M)) (g : ClientFocus) (s : Option Status)
      (m : Metadata)
      → let f = stream_on_subject c ctx subject method inbox id now header none streams [] in
        ((trailer (client_run env actions f)).1 ≡ [])
        × ((trailer (process_end env (record { status = s; trailer = some m }) (trailer g).0).0).1
            ≡ append_all env (trailer g).1 m.md)
  unfolding stream_on_subject trailer process_end join_end
  late_trailer_is_lost c ctx subject method inbox id now header streams actions g s m =
      let f = stream_on_subject c ctx subject method inbox id now header none streams [] in
      (
        ap allocated (client_run-Stable env Unset stable actions f refl),
        ap allocated (end_status-trailer s _),
      )
