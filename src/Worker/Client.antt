-- ===== src/Worker/Client.antt =====
-- `HTTPControllerClient` of worker.py, and a network that may lose a request or its reply. A request
-- that is lost is not delivered later.
use dvk_claude.Common.{String, ◌=?◌, some, concat, if◌then◌else◌}
use dvk_claude.Json.{string, Fields, end, field}
use dvk_claude.Controller.Schema.{Db, Env}
use dvk_claude.Controller.Claim.{Claim}
use dvk_claude.Api.{Server, Request, Payload, Answer, replies, crashes, Outcome}
use dvk_claude.Api.Post.{do_post}

pub record Client : Type 0 where
  pub worker_id : String
  pub token : String

pub data Fate : Type 0 where
  delivered request_lost reply_lost : Fate

-- A call of the server: what it draws from outside, and what the network does to it.
pub record Exchange : Type 0 where
  pub first : Env
  pub later : Env
  pub fate : Fate

-- `stale` is StaleLeaseTransportError, `failed` another TransportError.
pub data Reply : Type 0 where
  answered : Payload → Reply
  stale : Reply
  failed : Reply

-- The headers of `request`.
abbrev pub request_to : Client → String → Request
request_to client path = record {
  path = path;
  authorization = some (concat "Bearer " client.token);
  worker_header = some client.worker_id;
}

unfoldable pub reply_of : Answer → Reply
reply_of (replies code shown) =
    if code =? 200 then answered shown else if code =? 409 then stale else failed
reply_of (crashes e) = failed

pub record Called : Type 0 where
  pub reply : Reply
  pub db : Db

abbrev pub fated : Fate → Outcome → Db → Called
fated delivered o db = record { reply = reply_of o.answer; db = o.db }
fated request_lost o db = record { reply = failed; db = db }
fated reply_lost o db = record { reply = failed; db = o.db }

-- `request`
unfoldable pub call : Server → Client → Exchange → String → Fields → Db → Called
unfolding do_post reply_of
call srv client x path body db =
    fated x.fate (do_post x.first x.later srv (request_to client path) body db) db

abbrev pub own_body : Client → Fields → Fields
own_body client fs = field "worker_id" (string client.worker_id) fs

module _ (srv : Server) (client : Client) where
  -- The methods of the client.
  unfoldable pub heartbeat_worker : Exchange → Db → Called
  unfolding call
  heartbeat_worker x = call srv client x "/v1/workers/heartbeat" (own_body client end)

  unfoldable pub claim : Exchange → Db → Called
  unfolding call
  claim x = call srv client x "/v1/jobs/claim" (own_body client end)

  unfoldable pub heartbeat_run : Exchange → Claim → Db → Called
  unfolding call
  heartbeat_run x c = call srv client x "/v1/runs/heartbeat" (
      own_body client (
        field "run_id" (string c.run_id)
          (field "lease_id" (string c.lease_id) (field "lease_token" (string c.lease_token) end))))

  unfoldable pub ingest : Exchange → Fields → Db → Called
  unfolding call
  ingest x envelope = call srv client x "/v1/runs/result" envelope
