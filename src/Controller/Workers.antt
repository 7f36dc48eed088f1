-- ===== src/Controller/Workers.antt =====
-- The workers of controller.py: registration, credentials and liveness.
use dvk_claude.Common.{
  ℕ, String, Bool, false, ◌&&◌, ◌||◌, none, some, ◌==◌, ◌=?◌, ltb, is_empty, is_some, if◌then◌else◌,
}
use dvk_claude.Result.{Result, ok, err, controller_error, ◌>>=◌, ◌>>◌, raise_if}
use dvk_claude.Json.{ℤ, pos, negsuc, sub_ℕ, Fields, end, index_text}
use dvk_claude.Table.{find, update, upsert}
use dvk_claude.Controller.Schema.{TokenHash, Db, Env, worker_key, credential_key, event}
use dvk_claude.Controller.Validate.{validate_worker}

abbrev pub worker_offline_ms : ℕ
worker_offline_ms = 90000

-- An identifier that is no text is left out: it raises here, where SQLite stores a number as its text.
unfoldable pub register_worker : Env → Fields → Db → Result (String × Db)
unfolding validate_worker upsert event index_text
register_worker env worker db = do
  validate_worker worker
  worker_id ← index_text "worker_id" worker
  ok (worker_id, event env.now "worker" worker_id "WORKER_REGISTERED" end (stored worker_id))
  where
    stored : String → Db
    stored worker_id = record db {
      workers =
          upsert worker_key
            (record {
              worker_id = worker_id;
              descriptor = worker;
              registered_at = env.now;
              last_heartbeat_at = env.now;
            })
            (λ w. record w { descriptor = worker; last_heartbeat_at = env.now }) db.workers;
    }

abbrev token_algorithm : String
token_algorithm = "pbkdf2_sha256"

-- `_hash_token(token)`, which draws a salt.
unfoldable pub hash_token : Env → String → TokenHash
hash_token env token = record {
  algorithm = token_algorithm;
  rounds = 310000;
  salt = env.salt;
  digest = env.pbkdf2 token 310000 env.salt;
}

-- `_hash_token(token, encoded)`, with the rounds and the salt of the stored text.
unfoldable pub rehash_token : Env → String → TokenHash → Result TokenHash
rehash_token env token encoded =
    if encoded.algorithm == token_algorithm
    then ok (record encoded { digest = env.pbkdf2 token encoded.rounds encoded.salt })
    else err (controller_error "unsupported worker credential")

unfoldable pub provision_worker_token : Env → String → String → Db → Result Db
unfolding hash_token upsert
provision_worker_token env worker_id token db = do
  raise_if (is_empty worker_id || is_empty token)
      (controller_error "worker_id and token are required")
  let digest = hash_token env token
  ok (record db {
    credentials =
        upsert credential_key
          (record { worker_id = worker_id; token_hash = digest; created_at = env.now })
          (λ c. record c { token_hash = digest; created_at = env.now }) db.credentials;
  })

-- `hmac.compare_digest` of the two texts, part by part.
abbrev same_hash : TokenHash → TokenHash → Bool
same_hash a b =
    a.algorithm == b.algorithm && a.rounds =? b.rounds && a.salt == b.salt && a.digest == b.digest

unfoldable pub authenticate_worker : Env → String → String → Db → Result Bool
unfolding rehash_token find
authenticate_worker env worker_id token db = elim (find credential_key worker_id db.credentials) [
  | none ↦ ok false
  | some c ↦ rehash_token env token c.token_hash >>= λ h. ok (same_hash c.token_hash h)
]

abbrev pub unknown_worker {ℓ} : {A : Type ℓ} → Result A
unknown_worker = err (controller_error "unknown worker")

-- UPDATE workers SET last_heartbeat_at=? WHERE worker_id=?
unfoldable pub touch_worker : ℕ → String → Db → Db
unfolding update
touch_worker now worker_id db = record db {
  workers = update worker_key worker_id (λ w. record w { last_heartbeat_at = now }) db.workers;
}

unfoldable pub heartbeat_worker : Env → String → Db → Result Db
unfolding find touch_worker event
heartbeat_worker env worker_id db =
    if is_some (find worker_key worker_id db.workers)
    then ok (
        event env.now "worker" worker_id "WORKER_HEARTBEAT" end (touch_worker env.now worker_id db))
    else unknown_worker

pub record WorkerStatus : Type 0 where
  pub is_offline : Bool
  pub heartbeat_age_ms : ℤ

abbrev is_late : ℤ → Bool
is_late (pos age) = ltb worker_offline_ms age
is_late (negsuc n) = false

-- The age is negative where the host's clock was set back since the last heartbeat.
unfoldable pub worker_status : Env → String → Db → Result WorkerStatus
unfolding find
worker_status env worker_id db = elim (find worker_key worker_id db.workers) [
  | none ↦ unknown_worker
  | some w ↦
      let age = sub_ℕ env.now w.last_heartbeat_at in
      ok (record { is_offline = is_late age; heartbeat_age_ms = age })
]
