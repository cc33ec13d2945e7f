-- ===== src/Runners/Denial.antt =====
-- writeDenial (apps/api/audit.go): a refused request is recorded, and answered with 403.
use vpstools.Base.{String, ◌≡◌, refl, Bool, true, false, List, [], ◌∷◌, arith}
use vpstools.Authz.{Actor, Decision}
use vpstools.Store.Rows.{Db, AuditEvent, text}
use vpstools.Store.Action.{Action, Env, err, raise, when, ◌>>=◌, ◌>>◌}
use vpstools.Store.Ends.{Ends}
use vpstools.Audit.{write_audit_event}
use vpstools.Audit.Write.{write_audit_event-audit}
use vpstools.Runners.Reply.{Reply, failure}

unfoldable pub write_denial :
    Env → Actor → String → String → String → Decision → Action Reply (Unit {0})
unfolding ◌>>=◌
write_denial env actor action target_type target d = do
  write_audit_event env actor.organisation_id actor.user_id action target_type target "denied"
      (("reason", text d.reason) ∷ ("message", text d.message) ∷ [])
  raise (failure 403 d.message)

pub write_denial-err :
    (env : Env) (actor : Actor) (action target_type target : String) (d : Decision) (db : Db)
    → (l : List AuditEvent) × (write_denial env actor action target_type target d db
        ≡ (err (failure 403 d.message), record db { audit = l }))
unfolding write_denial
write_denial-err env actor action target_type target d db =
    let w =
      write_audit_event-audit {E = Reply} env actor.organisation_id actor.user_id action target_type
        target "denied" (("reason", text d.reason) ∷ ("message", text d.message) ∷ []) db in
    (w.0, rw w.1)

-- A success has not been denied.
pub past_denial :
    {B : Type 0} {P : Db → Type 0} {Q : B → Db → Type 0} (env : Env) (actor : Actor)
    (action target_type target : String) (d : Decision) (b : Bool) (k : Action Reply B)
    → (b ≡ false → Ends P k Q)
    → Ends P (when b (write_denial env actor action target_type target d) >> k) Q
unfolding ◌>>=◌
past_denial env actor action target_type target d false k h = record { run = (h refl).run }
past_denial env actor action target_type target d true k h = record {
  run = λ db p a f.
      let (l, e) = write_denial-err env actor action target_type target d db in
      ground (arith, e, f);
}
