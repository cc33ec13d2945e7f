-- ===== src/Examples/SignIn.antt =====
-- Sign-in at concrete inputs.
use vpstools.Base.{◌≡◌, refl, false, some, none, [], ◌∷◌, ◌==◌}
use vpstools.Base.Int.{pos}
use vpstools.Base.Table.{find, select, exists}
use vpstools.Store.Rows.{Db}
use vpstools.Store.Action.{ok, ◌>>=◌}
use vpstools.Authz.{Actor, is_privileged, has_role}
use vpstools.Audit.{write_audit_event, latest_audit_hash}
use vpstools.Runners.Reply.{token_created}
use vpstools.SignIn.Settings.{Words, Settings, bearer_token, production_mode, dev_auth_enabled}
use vpstools.SignIn.Resolve.{
  Headers, with_auth, token_auth, proxy_auth, header_auth, bind_tenant, resolve_api_token_actor,
  find_token_actor,
}
use vpstools.SignIn.Identified.{Identified, with_auth-Identified}
use vpstools.SignIn.Tokens.{create_api_token, lifetime, is_provisioned}
use vpstools.Examples.World.{env, db, owner}

abbrev words : Words
words = record {
  trim = λ s. s;
  lower = λ s. s;
  equal_fold = λ a b. a == b;
  like = λ text pattern. false;
}

abbrev settings : Settings
settings = record {
  dev_auth = "true";
  environments = "" ∷ "staging" ∷ "ci" ∷ [];
  shared_secret = "";
}

-- The first name that is set decides, and staging is not among the development names.
closed : dev_auth_enabled words settings ≡ false
unfolding dev_auth_enabled production_mode
closed = refl

abbrev headers : Headers
headers = record {
  authorization = "Bearer secret";
  internal_secret = "";
  oidc_subject = "";
  oidc_email = "";
  user = "";
}

abbrev people : Db
people = record db {
  users =
      record {
        id = "user_1";
        email = "";
        display_name = "";
        status = "active";
        external_subject = none;
      }
      ∷ [];
  memberships =
      record { organisation_id = "org_1"; user_id = "user_1"; role = "owner"; status = "active" }
      ∷ [];
  api_tokens =
      record {
        id = "pat_1";
        organisation_id = "org_1";
        user_id = "user_1";
        name = "cli";
        token_hash = "sha:secret";
        expires_at = 2000;
        revoked_at = none;
      }
      ∷ [];
}

signs_in : (with_auth env words settings headers people).0 ≡ ok owner
unfolding with_auth token_auth proxy_auth header_auth bearer_token bind_tenant
    resolve_api_token_actor find_token_actor find ◌>>=◌
signs_in = refl

with_auth-Identified_example :
    Identified env words settings headers (with_auth env words settings headers people).1 owner
with_auth-Identified_example = with_auth-Identified env words settings headers people owner signs_in

abbrev senior : Actor
senior = record owner { user_id = "user_2"; role = "senior_engineer" }

-- A senior engineer gets a token that speaks for the owner.
mints :
    (create_api_token env
      (λ s. s)
      senior
      (some record { user_id = "user_1"; name = ""; expires_in = pos 60 })
      people).0
    ≡ ok (token_created "pat_new:token id" "new:token" "user_1" 1060)
unfolding create_api_token lifetime is_provisioned is_privileged has_role write_audit_event
    latest_audit_hash find select exists ◌>>=◌
mints = refl
