-- ===== src/Sidecar/Startup.antt =====
-- What Start leaves open when it fails.
use mathlib.Core.List.{reverse}
use nats_grpc.Base.{
  String, ◌≡◌, ◌≢◌, refl, Bool, true, false, Option, none, some, [], ◌==◌, Bool-cases, if_true,
  if_false, inl, inr,
}
use nats_grpc.Wire.{Error}
use nats_grpc.Sidecar.{Config, Started, start, start_nats, start_egress, start_admin}

-- What holds of every way that Start ends.
record Tidy (s : Started) : Type 0 where
  kept : s.error ≡ none → s.closed ≡ []
  undone : s.error ≢ none → s.closed ≡ reverse s.opened

module _ (text : Error → String) where
  start_admin-Tidy : (no_admin : Bool) (o : Option Error) → Tidy (start_admin text no_admin o)
  unfolding start_admin
  start_admin-Tidy true o = record { kept = λ e. refl; undone = λ n. absurd (n refl) }
  start_admin-Tidy false none = record { kept = λ e. refl; undone = λ n. absurd (n refl) }
  start_admin-Tidy false (some e) = record { kept = λ e. absurd (cc); undone = λ n. refl }

  start_nats-Tidy :
      (no_admin : Bool) (connect listen_egress listen_admin : Option Error)
      → Tidy (start_nats text no_admin connect listen_egress listen_admin)
  unfolding start_nats start_egress
  start_nats-Tidy b (some e) le la = record { kept = λ e. absurd (cc); undone = λ n. refl }
  start_nats-Tidy b none (some e) la = record { kept = λ e. absurd (cc); undone = λ n. refl }
  start_nats-Tidy b none none la = start_admin-Tidy b la

  -- Where Start returns no error it has closed nothing, and where it returns one it has closed all
  -- that it had opened, the NATS connection and the listeners, the last first.
  pub start_undoes :
      (c : Config) (connect listen_egress listen_admin : Option Error)
      → let s = start text c connect listen_egress listen_admin in
        (s.error ≡ none → s.closed ≡ []) × (s.error ≢ none → s.closed ≡ reverse s.opened)
  unfolding start
  start_undoes c connect listen_egress listen_admin = elim (Bool-cases (c.nats_url == "")) [
    | inl e ↦ rw (if_true _ _ (c.nats_url == "") e) ((λ n. absurd (cc)), λ n. refl)
    | inr e ↦
        let t = start_nats-Tidy (c.http_admin_addr == "-") connect listen_egress listen_admin in
        rw (if_false _ _ (c.nats_url == "") e) (t.kept, t.undone)
  ]
