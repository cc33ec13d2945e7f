-- ===== src/Executions/Create/Replay.antt =====
-- The whole request, the first time and again (apps/api/executions.go).
use vpstools.Base.{
  ◌≡◌, refl, String, false, not, ◌||◌, ◌&&◌, Option, none, some, arith, ◌==◌, eq_iff, inl, inr,
  Bool-cases, if◌then◌else◌,
}
use vpstools.Base.Table.{find}
use vpstools.Store.Rows.{Db, IdempotencyKey}
use vpstools.Store.Action.{ok, Env, pure, ◌>>=◌}
use vpstools.Authz.{Actor}
use vpstools.Runners.Reply.{Reply, failure, raw}
use vpstools.Executions.Create.{
  Request, Helpers, is_key, replay_of, valid_idempotency_key, replay_idempotent_execution,
}
use vpstools.Executions.Create.Handle.{unless_replayed, create_execution, request_execution}
use vpstools.Executions.Create.Repeat.{Remembers, create_execution-Remembers}

module _ (env : Env) (h : Helpers) (actor : Actor) (header : String) (q : Request) (db : Db) where
  abbrev hash : String
  hash = h.payload_hash q

  abbrev key : String
  key = h.trim header

  -- The steps that come before the key is looked up.
  admitted :
      (reply : Reply)
      → (request_execution env h actor header (some q) db).0 ≡ ok reply
      → (key == "") ≡ false
      → (env.fails "failed to inspect idempotency key" ≡ false)
        × ((not (key == "") && not (valid_idempotency_key key)) ≡ false)
        × (request_execution env h actor header (some q) db
            ≡ unless_replayed
                (replay_of hash (find (is_key actor key) db.keys))
                (create_execution env h actor q key hash)
                db)
  unfolding request_execution replay_idempotent_execution ◌>>=◌
  admitted reply e given =
      (ground (arith, e, given), ground (arith, e, given), ground (arith, e, given))

  remembers :
      (body : String) (o : Option IdempotencyKey)
      → find (is_key actor key) db.keys ≡ o
      → (key == "") ≡ false
      → (unless_replayed (replay_of hash o) (create_execution env h actor q key hash) db).0
        ≡ ok (raw 201 body)
      → Remembers env actor key hash
          (raw 201 body)
          (unless_replayed (replay_of hash o) (create_execution env h actor q key hash) db).1
  unfolding unless_replayed pure
  remembers body none f given e =
      (create_execution-Remembers env actor key hash h q given).run db f (raw 201 body) e
  remembers body (some k) f given e = elim (Bool-cases (k.payload_hash == hash)) [
    | inl same ↦ (k, f, (eq_iff k.payload_hash hash).0 same, ground (arith, e, same))
    | inr differs ↦ ground (arith, e, differs)
  ]

  request_execution-Remembers :
      (body : String)
      → (key == "") ≡ false
      → (request_execution env h actor header (some q) db).0 ≡ ok (raw 201 body)
      → Remembers env actor key hash
          (raw 201 body)
          (request_execution env h actor header (some q) db).1
  request_execution-Remembers body given e =
      let a = admitted (raw 201 body) e given in
      rw a.2 (remembers body (find (is_key actor key) db.keys) refl given (rw a.2 at e))

-- What a request with a known key is answered with.
module _ (later : Env) (h : Helpers) (actor : Actor) (header : String) (again : Request)
    (db : Db) where
  repeats :
      (k : IdempotencyKey)
      → find (is_key actor (h.trim header)) db.keys ≡ some k
      → (again.target == "" || again.command == "") ≡ false
      → (h.trim header == "") ≡ false
      → (not (h.trim header == "") && not (valid_idempotency_key (h.trim header))) ≡ false
      → later.fails "failed to inspect idempotency key" ≡ false
      → request_execution later h actor header (some again) db ≡ (
        ok (
            if k.payload_hash == h.payload_hash again
            then raw 201 k.response_body
            else failure 409 "idempotency key was already used with a different request payload"),
        db,
      )
  unfolding request_execution replay_idempotent_execution unless_replayed ◌>>=◌
  repeats k found full given valid up = ground (arith, found, full, given, valid, up)

-- Once a request with an idempotency key is answered with 201, every later complete request of the same
-- actor with the same key header, when the key can be looked up, changes no table: with the payload
-- hash of the first it gets the same reply, and with another a 409.
pub repeated_request :
    (env : Env) (h : Helpers) (actor : Actor) (header : String) (q : Request) (db : Db)
    (body : String)
    → (h.trim header == "") ≡ false
    → (request_execution env h actor header (some q) db).0 ≡ ok (raw 201 body)
    → (later : Env) (again : Request) → (again.target == "" || again.command == "") ≡ false
    → later.fails "failed to inspect idempotency key" ≡ false
    → request_execution later h actor header
        (some again)
        (request_execution env h actor header (some q) db).1
      ≡ (
        ok (
            if h.payload_hash q == h.payload_hash again
            then raw 201 body
            else failure 409 "idempotency key was already used with a different request payload"),
        (request_execution env h actor header (some q) db).1,
      )
repeated_request env h actor header q db body given e later again full up =
    let m = request_execution-Remembers env h actor header q db body given e in
    let a = admitted env h actor header q db (raw 201 body) e given in
    rw (← m.2, m.3)
      (repeats later h actor header again (request_execution env h actor header (some q) db).1 m.0
        m.1 full given a.1 up)
