-- ===== src/Runners/Reply.antt =====
-- The replies of the handlers: the HTTP status and what the JSON body says.
use vpstools.Base.{ℕ, String, Bool}
use vpstools.Base.Int.{ℤ}
use vpstools.Store.Rows.{Db}
use vpstools.Store.Action.{Result, ok, err, Action}

-- The body that a claim sends to the runner.
pub record Job : Type 0 where
  pub target_id : String
  pub execution_id : String
  pub command : String
  pub host : String
  pub port : ℤ
  pub user : String
  pub credential_ref : String
  pub host_key_fingerprint : String
  pub timeout : ℤ
  pub lease_id : String
  pub runner_id : String
  pub expires_at_unix : ℕ
  pub signature : String

pub data Reply : Type 0 where
  -- {"error": …}; a denial also has its reason and a hint
  failure : ℕ → String → Reply
  -- {"status": …}
  status : ℕ → String → Reply
  -- a stored body, written as it is
  raw : ℕ → String → Reply
  dispatched : Job → Reply
  -- {"runner_id": …, "status": …, "runner_token": …}
  registered : String → String → Reply
  -- {"runner_id": …, "status": …}
  created : String → String → Reply
  -- {"registration_token": …, "expires_in": …}
  token : String → String → Reply
  -- {"runbook_id": …, "name": …, "status": "draft"}
  runbook_created : String → String → Reply
  -- {"status": "draft", "version": …}
  drafted : ℤ → Reply
  -- {"status": "preflight", "approval_required": …, "environment": …, …}
  preflight : Bool → String → String → ℕ → String → Reply
  -- {"status": "approved", "execution_id": …, …}
  approval_granted : String → Reply
  -- {"paused": …, "reason": …}
  automation : Bool → String → Reply
  -- {"status": "created", "name": …, "next_run_at": …}
  scheduled : String → ℕ → Reply
  -- {"token_id": …, "token": …, "user_id": …, "expires_at": …, …}
  token_created : String → String → String → ℕ → Reply
  -- {"server_id": …, "status": "created"}
  server_created : String → Reply
  -- {"server": {"server_id": …, "status": "reachable", "hostname": …, "ssh_port": …, "os_name": …, …}}
  server_checked : String → String → ℤ → String → Reply

abbrev pub code : Reply → ℕ
code (failure n m) = n
code (status n m) = n
code (raw n m) = n
code (dispatched j) = 200
code (registered r t) = 201
code (created r s) = 201
code (token t e) = 201
code (runbook_created i n) = 201
code (drafted v) = 200
code (preflight needs e r n c) = 200
code (approval_granted e) = 200
code (automation p r) = 200
code (scheduled n t) = 201
code (server_created i) = 201
code (token_created i t u e) = 201
code (server_checked i h p o) = 200

abbrev the_reply : Result Reply Reply → Reply
the_reply (ok r) = r
the_reply (err r) = r

-- What a handler writes to the client, and the tables that it leaves.
unfoldable pub respond : Action Reply Reply → Db → Reply × Db
respond m db = let (r, db') = m db in (the_reply r, db')
