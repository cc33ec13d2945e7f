-- ===== src/SignIn/Members.antt =====
-- The users and memberships that a token or a header resolves to (apps/api/auth.go,
-- packages/authz/authz.go).
use vpstools.Base.{
  ◌≡◌, ◌⊎◌, inl, inr, refl, sym, ap, ◌∙◌, String, Bool, true, false, Option, none, some, List,
  arith, eq_iff, Has, if◌then◌else◌,
}
use vpstools.Base.Table.{find}
use vpstools.Base.Table.Laws.{find-true, find-Has}
use vpstools.Store.Users.{User, ApiToken}
use vpstools.Store.Catalogue.{Membership}
use vpstools.Store.Rows.{Db}
use vpstools.Store.Action.{Env}
use vpstools.Authz.{Actor}
use vpstools.Approvals.Decide.{is_member}
use vpstools.SignIn.Settings.{Words}
use vpstools.SignIn.Resolve.{
  accepts_token, is_active_user, is_active_member, actor_of, joined, find_token_actor,
  find_dev_actor, token_user, user_member, or_else, is_prefixed,
}

-- The actor is an active user with the role of an active membership.
pub record Member (db : Db) (a : Actor) : Type 0 where
  pub user : User
  pub membership : Membership
  pub known : Has user db.users
  pub listed : Has membership db.memberships
  pub active_user : user.status ≡ "active"
  pub own : membership.user_id ≡ user.id
  pub active_membership : membership.status ≡ "active"
  pub same : a ≡ actor_of user membership

found_member :
    (u : User) (q : Membership → Bool) (l : List Membership) (a : Actor)
    → joined (some u) (find q l) ≡ some a
    → (m : Membership) × Has m l × (q m ≡ true) × (a ≡ actor_of u m)
found_member u q l a h = go (find q l) refl h
  where
    go :
        (o : Option Membership)
        → find q l ≡ o
        → joined (some u) o ≡ some a
        → (m : Membership) × Has m l × (q m ≡ true) × (a ≡ actor_of u m)
    go none e h = cc h
    go (some m) e h = (m, find-Has q l m e, find-true q l m e, cc h)

-- A user that a query for active users has found, with any of the user's memberships.
user_member-Member :
    (db : Db) (p : User → Bool) (a : Actor)
    → ((u : User) → p u ≡ true → u.status ≡ "active")
    → user_member db (find p db.users) ≡ some a
    → Member db a
user_member-Member db p a active h = go (find p db.users) refl h
  where
    go : (o : Option User) → find p db.users ≡ o → user_member db o ≡ some a → Member db a
    go none e h = cc h
    go (some u) e h =
        let (m, listed, fits, same) = found_member u (is_active_member u.id) db.memberships a h in
        record {
          user = u;
          membership = m;
          known = find-Has p db.users u e;
          listed = listed;
          active_user = active u (find-true p db.users u e);
          own = (eq_iff m.user_id u.id).0 (ground (arith, fits));
          active_membership = (eq_iff m.status "active").0 (ground (arith, fits));
          same = same;
        }

-- A token that is accepted, and its user in its organisation.
pub record ByToken (env : Env) (token : String) (db : Db) (a : Actor) : Type 0 where
  pub api_token : ApiToken
  pub stored : Has api_token db.api_tokens
  pub accepts : accepts_token env token api_token ≡ true
  pub user_of : a.user_id ≡ api_token.user_id
  pub organisation_of : a.organisation_id ≡ api_token.organisation_id
  pub member : Member db a

pub find_token_actor-ByToken :
    (env : Env) (token : String) (db : Db) (a : Actor)
    → find_token_actor env token db ≡ some a
    → ByToken env token db a
unfolding find_token_actor
find_token_actor-ByToken env token db a h = go (find (accepts_token env token) db.api_tokens) refl h
  where
    with_user :
        (t : ApiToken)
        → find (accepts_token env token) db.api_tokens ≡ some t
        → (o : Option User) → find (is_active_user t.user_id) db.users ≡ o
        → joined o (find (is_member t.user_id t.organisation_id) db.memberships) ≡ some a
        → ByToken env token db a
    with_user t e none f h = cc h
    with_user t e (some u) f h =
        let (m, listed, fits, same) =
          found_member u (is_member t.user_id t.organisation_id) db.memberships a h in
        let is_user = find-true (is_active_user t.user_id) db.users u f in
        let id : u.id ≡ t.user_id = (eq_iff u.id t.user_id).0 (ground (arith, is_user)) in
        let of_user : m.user_id ≡ t.user_id =
          (eq_iff m.user_id t.user_id).0 (ground (arith, fits)) in
        let of_org : m.organisation_id ≡ t.organisation_id =
          (eq_iff m.organisation_id t.organisation_id).0 (ground (arith, fits)) in
        record {
          api_token = t;
          stored = find-Has (accepts_token env token) db.api_tokens t e;
          accepts = find-true (accepts_token env token) db.api_tokens t e;
          user_of = ap (λ x. x.user_id) same ∙ id;
          organisation_of = ap (λ x. x.organisation_id) same ∙ of_org;
          member = record {
            user = u;
            membership = m;
            known = find-Has (is_active_user t.user_id) db.users u f;
            listed = listed;
            active_user = (eq_iff u.status "active").0 (ground (arith, is_user));
            own = of_user ∙ sym id;
            active_membership = (eq_iff m.status "active").0 (ground (arith, fits));
            same = same;
          };
        }

    go :
        (o : Option ApiToken)
        → find (accepts_token env token) db.api_tokens ≡ o
        → token_user db o ≡ some a
        → ByToken env token db a
    go none e h = cc h
    go (some t) e h = with_user t e (find (is_active_user t.user_id) db.users) refl h

or_else-cases :
    (x y : Option Actor) (a : Actor) → or_else x y ≡ some a → (x ≡ some a) ⊎ (y ≡ some a)
or_else-cases none y a h = inr h
or_else-cases (some x) y a h = inl h

unless-some :
    (b : Bool) (o : Option Actor) (a : Actor) → (if b then none else o) ≡ some a → o ≡ some a
unless-some true o a h = cc h
unless-some false o a h = h

pub find_dev_actor-Member :
    (env : Env) (w : Words) (user : String) (db : Db) (a : Actor)
    → find_dev_actor env w user db ≡ some a
    → Member db a
unfolding find_dev_actor
find_dev_actor-Member env w user db a h = elim (or_else-cases _ _ a h) [
  | inl by_id ↦
      user_member-Member db (is_active_user user) a
        (λ u fits. (eq_iff u.status "active").0 (ground (arith, fits)))
        (unless-some (env.fails "read user") _ a by_id)
  | inr by_email ↦
      user_member-Member db (is_prefixed w user db) a
        (λ u fits. (eq_iff u.status "active").0 (ground (arith, fits)))
        (unless-some (env.fails "read user by email") _ a by_email)
]
