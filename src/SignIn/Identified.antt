-- ===== src/SignIn/Identified.antt =====
-- Who a request that passes withAuth speaks for (apps/api/auth.go).
use vpstools.Base.{◌&&◌, ◌≡◌, ◌∙◌, String, true, false, not, arith, ◌==◌, eq_iff}
use vpstools.Store.Rows.{Db}
use vpstools.Store.Action.{Action, Env, ok, ◌>>=◌}
use vpstools.Store.Keeps.{Keeps}
use vpstools.Store.Ends.{Ends, Ends-then, Ends-bind}
use vpstools.Store.Paths.{
  past_refuse, past_gets, past_if, end_pure, end_or_raise, Ends-on_error, Ends-from,
}
use vpstools.Authz.{Actor}
use vpstools.Runners.Reply.{Reply}
use vpstools.SignIn.Settings.{
  Words, Settings, production_mode, dev_auth_enabled, secure_string_equal, bearer_token,
}
use vpstools.SignIn.Resolve.{
  resolve_api_token_actor, resolve_dev_user, resolve_external_actor, bind_tenant, Headers,
  token_auth, proxy_auth, header_auth, with_auth,
}
use vpstools.SignIn.Members.{Member, ByToken, find_token_actor-ByToken, find_dev_actor-Member}

-- The three ways in.
pub data Identified (env : Env) (w : Words) (s : Settings) (h : Headers) (db : Db) (a : Actor)
    : Type 0 where
  by_token :
      (bearer_token w h.authorization == "") ≡ false
      → ByToken env (bearer_token w h.authorization) db a
      → Identified env w s h db a
  by_proxy :
      (bearer_token w h.authorization == "") ≡ true
      → (s.shared_secret == "") ≡ false
      → h.internal_secret ≡ s.shared_secret
      → Member db a
      → Identified env w s h db a
  by_header :
      (bearer_token w h.authorization == "") ≡ true
      → production_mode w s.environments ≡ false
      → w.equal_fold (w.trim s.dev_auth) "true" ≡ true
      → (w.trim h.user == "") ≡ false
      → Member db a
      → Identified env w s h db a

abbrev Anything : Db → Type 0
Anything db = Unit {0}

anything-kept : {E A : Type 0} (m : Action E A) → Keeps Anything m
anything-kept m = record { run = λ db h. tt }

resolve_dev_user-Ends :
    (env : Env) (w : Words) (user : String)
    → Ends Anything (resolve_dev_user env w user) (λ a db. Member db a)
unfolding resolve_dev_user
resolve_dev_user-Ends env w user = past_refuse _ _ _ (λ given.
    past_gets _ _
      (λ found. end_or_raise _ _ (λ a is db p. find_dev_actor-Member env w user db a (p.1 ∙ is))))

token_actor-Ends :
    (env : Env) (token : String)
    → Ends Anything (resolve_api_token_actor env token) (λ a db. ByToken env token db a)
unfolding resolve_api_token_actor
token_actor-Ends env token = past_refuse _ _ _ (λ given. past_refuse _ _ _ (λ fine.
    past_gets _ _ (λ found.
      end_or_raise _ _ (λ a is db p. find_token_actor-ByToken env token db a (p.1 ∙ is)))))

external-Ends :
    (env : Env) (w : Words) (subject email : String)
    → Ends Anything (resolve_external_actor env w subject email) (λ a db. Member db a)
unfolding resolve_external_actor
external-Ends env w subject email = past_refuse _ _ _ (λ given.
    Ends-bind _ _ (anything-kept _)
      (λ found. Ends-bind _ _ (anything-kept _) (λ user. resolve_dev_user-Ends env w user)))

bind_tenant-Ends :
    (env : Env) (a : Actor) (P : Db → Actor → Type 0)
    → Ends (λ db. P db a) (bind_tenant env a) (λ b db. P db b)
unfolding bind_tenant
bind_tenant-Ends env a P = past_refuse _ _ _ (λ fine. end_pure a (λ db p. p))

same_secret : (got want : String) → secure_string_equal got want ≡ true → got ≡ want
unfolding secure_string_equal
same_secret got want h = (eq_iff got want).0 (ground arith)

module _ (env : Env) (w : Words) (s : Settings) (h : Headers) where
  abbrev Passes : Actor → Db → Type 0
  Passes a db = Identified env w s h db a

  passed :
      {P : Db → Actor → Type 0} (m : Action Reply Actor)
      → Ends Anything m (λ a db. P db a)
      → ((db : Db) (a : Actor) → P db a → Passes a db)
      → Ends Anything (m >>= bind_tenant env) Passes
  passed m em f =
      Ends-then _ _ em
        (λ a. Ends-from _ (λ db. f db a) (bind_tenant-Ends env a (λ db b. Passes b db)))

  token_auth-Ends :
      not (bearer_token w h.authorization == "") ≡ true → Ends Anything (token_auth env w h) Passes
  unfolding token_auth
  token_auth-Ends bearer =
      passed _ (Ends-on_error _ _ (token_actor-Ends env (bearer_token w h.authorization)))
        (λ db a found. by_token (ground (arith, bearer)) found)

  proxy_auth-Ends :
      not (bearer_token w h.authorization == "") ≡ false
      → (not (s.shared_secret == "") && secure_string_equal h.internal_secret s.shared_secret)
        ≡ true
      → Ends Anything (proxy_auth env w h) Passes
  unfolding proxy_auth
  proxy_auth-Ends unsigned secret =
      let equal = same_secret h.internal_secret s.shared_secret (ground (arith, secret)) in
      passed _ (Ends-on_error _ _ (external-Ends env w h.oidc_subject h.oidc_email))
        (λ db a member. by_proxy (ground (arith, unsigned)) (ground (arith, secret)) equal member)

  header_auth-Ends :
      not (bearer_token w h.authorization == "") ≡ false
      → Ends Anything (header_auth env w s h) Passes
  unfolding header_auth dev_auth_enabled
  header_auth-Ends unsigned = past_refuse _ _ _ (λ enabled. past_refuse _ _ _ (λ named.
      passed _ (Ends-on_error _ _ (resolve_dev_user-Ends env w h.user)) (λ db a member.
        by_header (ground (arith, unsigned)) (ground (arith, enabled)) (ground (arith, enabled))
          named member)))

  with_auth-Ends : Ends Anything (with_auth env w s h) Passes
  unfolding with_auth
  with_auth-Ends =
      past_if _ _ _ token_auth-Ends
        (λ unsigned. past_if _ _ _ (proxy_auth-Ends unsigned) (λ other. header_auth-Ends unsigned))

-- A request that passes withAuth speaks for an active user with the role of an active membership, in one
-- of three ways: by a bearer token that is stored, not revoked and not expired, for its user and its
-- organisation; without one, by the shared secret of the web front, which is not empty; or, only
-- where the process is declared as no production and VPS_DEV_AUTH is on, by a user header that is
-- not blank.
pub with_auth-Identified :
    (env : Env) (w : Words) (s : Settings) (h : Headers) (db : Db) (a : Actor)
    → (with_auth env w s h db).0 ≡ ok a
    → Identified env w s h (with_auth env w s h db).1 a
with_auth-Identified env w s h db a done = (with_auth-Ends env w s h).run db tt a done
