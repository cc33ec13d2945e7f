-- ===== src/Examples/Access.antt =====
-- Roles, runner credentials and job signatures at concrete inputs.
use vpstools.Base.{◌≤◌, ◌≡◌, ◌≢◌, ◌⊎◌, ◌↔◌, refl, inr, true, Option, none, some, [], ◌∷◌, arith}
use vpstools.Base.Table.{find, select, update, count}
use vpstools.Store.Action.{ok, ◌>>=◌}
use vpstools.Authz.{can_manage_runners}
use vpstools.Authz.Policy.{check_execution, check_runbook_execution}
use vpstools.Authz.Policy.Rules.{
  MayExecute, MayRunbook, check_execution_iff, check_runbook_execution_iff,
}
use vpstools.Audit.{write_audit_event, latest_audit_hash}
use vpstools.Jobsign.{Claims, Scheme, Bytes, done, sign, verify, canonical}
use vpstools.Jobsign.Authentic.{IsText, Collision, verify-sign, verify-authentic}
use vpstools.Runners.Reply.{status, respond}
use vpstools.Runners.Auth.{authenticate_bound_runner}
use vpstools.Runners.Auth.Binding.{Speaks, authenticate_bound_runner-Speaks}
use vpstools.Runners.Credentials.{create_runner_credential}
use vpstools.Runners.Manage.{handle_revoke_runner}
use vpstools.Runners.Rotation.{rotation-exclusive, revocation_final}
use vpstools.Queue.Claim.{claims_of}
use vpstools.Examples.World.{env, owner, db, waiting, asked, web}

check_execution_iff_example :
    ((check_execution owner "production" "critical" "patch").allowed ≡ true)
    ↔ MayExecute owner "production" "critical" "patch"
check_execution_iff_example = check_execution_iff owner "production" "critical" "patch"

check_runbook_execution_iff_example :
    ((check_runbook_execution owner "production" "high" "").allowed ≡ true)
    ↔ MayRunbook owner "production" "high" ""
check_runbook_execution_iff_example = check_runbook_execution_iff owner "production" "high" ""

accepts_secret : (authenticate_bound_runner env "secret" "run_1" db).0 ≡ ok "org_1"
unfolding authenticate_bound_runner find
accepts_secret = refl

authenticate_bound_runner-Speaks_example : Speaks env "secret" "org_1" "run_1" db
authenticate_bound_runner-Speaks_example =
    authenticate_bound_runner-Speaks env "secret" "run_1" "org_1" db accepts_secret

rotates : (create_runner_credential env "org_1" "user_1" "run_1" db).0 ≡ ok "new:token"
unfolding create_runner_credential write_audit_event latest_audit_hash find update select ◌>>=◌
rotates = refl

speaks_again :
    (authenticate_bound_runner env "new:token" "run_1"
      (create_runner_credential env "org_1" "user_1" "run_1" db).1).0
    ≡ ok "org_1"
unfolding create_runner_credential authenticate_bound_runner write_audit_event latest_audit_hash
    find update select ◌>>=◌
speaks_again = refl

rotation-exclusive_example : env.hash_token "new:token" ≡ env.hash_token "new:token"
rotation-exclusive_example =
    rotation-exclusive env "org_1" "user_1" "run_1" db "new:token" refl rotates env "new:token"
      "org_1" (authenticate_bound_runner-Speaks env "new:token" "run_1" "org_1" _ speaks_again)

revokes : (handle_revoke_runner env owner "run_1" db).0 ≡ status 200 "revoked"
unfolding handle_revoke_runner write_audit_event latest_audit_hash respond find update select count
    ◌>>=◌ can_manage_runners
revokes = refl

revocation_final_example :
    (authenticate_bound_runner env "secret" "run_1" (handle_revoke_runner env owner "run_1" db).1).0
    ≢ ok "org_1"
revocation_final_example = revocation_final env owner "run_1" db revokes env "secret" "org_1"

abbrev scheme : Scheme
scheme = record {
  trim = λ b. b;
  marshal = λ c. some (c.expires_at_unix ∷ []);
  mac = λ key payload. 1 ∷ payload;
  encode = λ b. 2 ∷ b;
  decode = λ b. decoded b;
}
  where
    decoded : Bytes → Option Bytes
    decoded (x ∷ b) = some b
    decoded [] = none

scheme-IsText : IsText scheme
scheme-IsText = record { decodes = λ b. refl; given = λ b e. ground arith; trimmed = λ b. refl }

abbrev job : Claims
job = claims_of env "run_1" (record { target = waiting; execution = asked; server = web })

abbrev signature : Bytes
signature = 118 ∷ 49 ∷ 58 ∷ 2 ∷ 1 ∷ 118 ∷ 49 ∷ 10 ∷ 1300 ∷ []

signs : sign scheme (7 ∷ []) job ≡ done signature
unfolding sign
signs = refl

verify-sign_example : verify scheme (7 ∷ []) job signature 1100 ≡ done tt
verify-sign_example =
    verify-sign scheme (7 ∷ []) scheme-IsText job signature 1100 signs (inr (omega arith))

verify-authentic_example :
    ((job.expires_at_unix ≡ 0) ⊎ (1100 ≤ job.expires_at_unix))
    × ((canonical scheme job ≡ canonical scheme job) ⊎ Collision scheme (7 ∷ []))
verify-authentic_example =
    verify-authentic scheme (7 ∷ []) scheme-IsText job job signature 1100 signs verify-sign_twice
  where
    verify-sign_twice : verify scheme (7 ∷ []) job signature 1100 ≡ done tt
    verify-sign_twice =
        verify-sign scheme (7 ∷ []) scheme-IsText job signature 1100 signs (inr (omega arith))
