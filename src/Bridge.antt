-- ===== src/Bridge.antt =====
-- The commands of bridge.py, the plugin by which an operator decides gates in a chat. A command asks
-- the HTTP API twice, and other calls of the controller may come between. The texts of the answers are
-- kept as what they say. An answer of the server is one that api.py gives.
pub mod Shlex
pub mod Sent
pub mod Decided
pub mod Tests
use dvk_claude.Common.{
  ℕ, String, Option, none, some, List, [], ◌∷◌, ◌⊎◌, inl, inr, ◌==◌, ◌=?◌, ◌||◌, ltb, concat, codes,
  length, is_empty, strip, starts_with, keep, if◌then◌else◌,
}
use dvk_claude.Json.{Value, null, string, Fields, end, field}
use dvk_claude.Result.{Result, ok, err}
use dvk_claude.Controller.Schema.{Decision, approved, rejected, GateDecision, Db, Env}
use dvk_claude.Controller.Views.{PendingGate}
use dvk_claude.Controller.Machine.{Call, run}
use dvk_claude.Api.{Server, Request, Payload, gates, decided, Answer, replies, crashes, Outcome}
use dvk_claude.Api.Get.{do_get}
use dvk_claude.Api.Post.{do_post}
use dvk_claude.Worker.Client.{Fate, delivered, request_lost, reply_lost, Exchange}
use dvk_claude.Bridge.Shlex.{shlex_split, words}

abbrev pub default_actor : String
default_actor = "telegram-operator"

abbrev pub min_job_prefix : ℕ
min_job_prefix = 8

-- The two variables of the environment that matter.
pub record Settings : Type 0 where
  pub operator_token : Option String
  pub gate_actor : Option String

-- A BridgeError with the status and the body of a refusal, one without a status, and an exception that
-- no command catches: the connection is closed before a reply, or times out behind the request.
pub data Trouble : Type 0 where
  refused : ℕ → Payload → Trouble
  broken : String → Trouble
  escapes : Trouble

-- What is answered in the chat.
pub data Notice : Type 0 where
  usage : Notice
  invalid_usage : Notice
  not_listed : Trouble → Notice
  none_pending : Notice
  pending : List PendingGate → Notice
  changed : Notice
  not_authorized : Notice
  not_resolved : Trouble → Notice
  resolved : GateDecision → Notice
  resolved_otherwise : PendingGate → Notice
  raised : Notice

-- `_operator_token`
abbrev pub operator_token_of : Settings → Option String
operator_token_of settings = elim settings.operator_token [
  | none ↦ none
  | some t ↦ if is_empty t then none else some t
]

-- `_actor`
unfoldable pub actor : Settings → String
unfolding strip
actor settings = elim settings.gate_actor [
  | none ↦ default_actor
  | some a ↦ if is_empty (strip a) then default_actor else strip a
]

abbrev pub request_to : String → String → Request
request_to token path = record {
  path = path;
  authorization = some (concat "Bearer " token);
  worker_header = none;
}

abbrev pub reply_of : Answer → Trouble ⊎ Payload
reply_of (replies code shown) = if code =? 200 then inr shown else inl (refused code shown)
reply_of (crashes e) = inl escapes

-- What `_request` makes of an answer.
abbrev pub through : Fate → Answer → Trouble ⊎ Payload
through delivered a = reply_of a
through request_lost a = inl (broken "Controller unavailable")
through reply_lost a = inl escapes

abbrev no_token : Trouble
no_token = broken "HERMES_OPERATOR_TOKEN is not configured"

abbrev pub listed : Trouble ⊎ Payload → Trouble ⊎ List PendingGate
listed (inl t) = inl t
listed (inr (gates gs)) = inr gs
listed (inr p) = inl (broken "Controller returned an invalid pending-gates response")

-- `_select_gate`: exactly one of the listed gates must match.
abbrev pub only_gate : List PendingGate → Trouble ⊎ PendingGate
only_gate [] = inl (broken "no gate is pending for the job")
only_gate (g ∷ []) = inr g
only_gate (g ∷ h ∷ gs) = inl (broken "the prefix of the job is ambiguous")

abbrev pub matching : String → List PendingGate → List PendingGate
matching job_prefix = keep (λ g. starts_with g.job_id job_prefix)

unfoldable pub select_gate : String → List PendingGate → Trouble ⊎ PendingGate
unfolding keep
select_gate job_prefix gs =
    if ltb (length (codes job_prefix)) min_job_prefix
    then inl (broken "the prefix of the job is too short")
    else only_gate (matching job_prefix gs)

abbrev pub select_listed : String → Trouble ⊎ List PendingGate → Trouble ⊎ PendingGate
select_listed job_prefix (inl t) = inl t
select_listed job_prefix (inr gs) = select_gate job_prefix gs

-- `" ".join(parts)`
unfoldable pub spaced : List String → String
spaced [] = ""
spaced (s ∷ []) = s
spaced (s ∷ rest) = concat s (concat " " (spaced rest))

unfoldable pub note_of : List String → Value
unfolding spaced strip
note_of parts = let note = strip (spaced parts) in if is_empty note then null else string note

abbrev pub path_of : Decision → String
path_of approved = "/v1/gates/approve"
path_of rejected = "/v1/gates/reject"

abbrev pub action_of : String → Option Decision
action_of s =
    if s == "approve" then some approved else if s == "reject" then some rejected else none

-- What a command answers, and the database behind it.
pub record Handled : Type 0 where
  pub notice : Notice
  pub db : Db

abbrev pub handled : Notice → Db → Handled
handled notice db = record { notice = notice; db = db }

-- The handlers of exceptions in handle_gate.
abbrev pub trouble_notice : Trouble → Notice
trouble_notice escapes = raised
trouble_notice (broken m) = not_resolved (broken m)
trouble_notice (refused code shown) =
    if code =? 409
    then changed
    else if code =? 401
    then not_authorized
    else not_resolved (refused code shown)

abbrev pub answer_notice : PendingGate → Trouble ⊎ Payload → Notice
answer_notice g (inr (decided d)) = resolved d
answer_notice g (inr p) = resolved_otherwise g
answer_notice g (inl t) = trouble_notice t

abbrev pub body_of : Settings → PendingGate → List String → Fields
body_of settings g rest = field "job_id" (string g.job_id) (
    field "gate" (string g.gate) (
      field "source_run_id" (string g.source_run_id)
        (field "actor" (string (actor settings)) (field "note" (note_of rest) end))))

-- What comes back of the decision that is sent.
abbrev pub sent : Fate → PendingGate → Outcome → Db → Handled
sent delivered g o db = handled (answer_notice g (reply_of o.answer)) o.db
sent request_lost g o db = handled (trouble_notice (broken "Controller unavailable")) db
sent reply_lost g o db = handled raised o.db

module _ (srv : Server) (settings : Settings) where
  -- `pending_gates`
  unfoldable pub pending_gates : Exchange → Db → Trouble ⊎ List PendingGate
  unfolding do_get
  pending_gates x db = elim (operator_token_of settings) [
    | none ↦ inl no_token
    | some t ↦ listed (through x.fate (do_get x.first srv (request_to t "/v1/gates/pending") db))
  ]

  abbrev pub listing : Trouble ⊎ List PendingGate → Notice
  listing (inl escapes) = raised
  listing (inl t) = not_listed t
  listing (inr []) = none_pending
  listing (inr (g ∷ gs)) = pending (g ∷ gs)

  unfoldable pub handle_gates : Exchange → String → Db → Notice
  unfolding strip pending_gates
  handle_gates x raw_args db =
      if is_empty (strip raw_args) || strip raw_args == "list"
      then listing (pending_gates x db)
      else usage

  unfoldable pub decide_gate : Decision → List String → Exchange → PendingGate → Db → Handled
  unfolding do_post actor note_of
  decide_gate action rest y g db = elim (operator_token_of settings) [
    | none ↦ handled (trouble_notice no_token) db
    | some t ↦
        sent y.fate g
          (do_post y.first y.later srv (request_to t (path_of action)) (body_of settings g rest) db)
          db
  ]

  -- Behind the choice of a gate: `others` are the calls that come between the two requests.
  abbrev pub chosen :
      Decision → List String → Exchange → List (Env × Call) → Db → Trouble ⊎ PendingGate → Handled
  chosen action rest y others db (inl t) = handled (trouble_notice t) db
  chosen action rest y others db (inr g) = decide_gate action rest y g (run others db)

  unfoldable pub decide_parts : List String → Exchange → List (Env × Call) → Exchange → Db → Handled
  unfolding select_gate pending_gates decide_gate run
  decide_parts (a ∷ job_prefix ∷ rest) x others y db = elim (action_of a) [
    | none ↦ handled usage db
    | some action ↦ chosen action rest y others db (select_listed job_prefix (pending_gates x db))
  ]
  decide_parts parts x others y db = handled usage db

  abbrev pub parsed : Exchange → List (Env × Call) → Exchange → Db → Result (List String) → Handled
  parsed x others y db (err e) = handled invalid_usage db
  parsed x others y db (ok parts) = decide_parts parts x others y db

  -- `handle_gate`
  unfoldable pub handle_gate : Exchange → List (Env × Call) → Exchange → String → Db → Handled
  unfolding decide_parts words
  handle_gate x others y raw_args db = parsed x others y db (shlex_split raw_args)
