-- ===== src/Api/Tests.antt =====
-- Requests to the server at concrete inputs, and the theorems at such inputs.
use dvk_claude.Common.{String, ◌≡◌, refl, false, none, some, List, [], ◌∷◌, length}
use dvk_claude.Json.{ℤ, string, Fields, end, field, object}
use dvk_claude.Result.{key_error, ◌>>=◌, Ensures}
use dvk_claude.Controller.Schema.{Env, empty}
use dvk_claude.Controller.Machine.{Call, run}
use dvk_claude.Controller.Samples.{worker, at}
use dvk_claude.Api.{Server, Request, replies, healthy, raised}
use dvk_claude.Api.Get.{do_get}
use dvk_claude.Api.Post.{do_post}
use dvk_claude.Api.Body.{Codec, other_error, raw_body, Fits, raw_body-Fits}
use dvk_claude.Api.Calls.{Permits, succeeds, Kept, do_post-permitted, do_post-refused}

abbrev server : Server
server = record {
  enrollment_tokens = ("w1", "secret") ∷ [];
  operator_token = some "boss";
  number_text = λ n. "0";
}

abbrev request : String → String → Request
request path token = record { path = path; authorization = some token; worker_header = none }

-- A new worker enrols with the token that the server expects.
enrolled_workers :
    length
      (do_post
        (at 0 "")
        (at 1 "")
        server
        (request "/v1/workers/enrol" "Bearer secret")
        worker
        empty).db.workers
    ≡ 1
unfolding do_post dvk_claude.Controller.Workers.register_worker
    dvk_claude.Controller.Workers.provision_worker_token
    dvk_claude.Controller.Workers.authenticate_worker ◌>>=◌
enrolled_workers = refl

-- A decision without its fields is a bad request.
incomplete_decision :
    (do_post
      (at 0 "")
      (at 1 "")
      server
      (request "/v1/gates/approve" "Bearer boss")
      end
      empty).answer
    ≡ replies 400 (raised key_error)
unfolding do_post ◌>>=◌
incomplete_decision = refl

health : do_get (at 0 "") server (request "/health" "") empty ≡ replies 200 healthy
unfolding do_get
health = refl

do_post-permitted_example :
    (calls : List (Env × Call)) × Permits
      (at 0 "")
      (at 1 "")
      server
      (request "/v1/workers/enrol" "Bearer secret")
      worker
      empty
      calls
    × ((do_post
          (at 0 "")
          (at 1 "")
          server
          (request "/v1/workers/enrol" "Bearer secret")
          worker
          empty).db
        ≡ run calls empty)
do_post-permitted_example =
    do_post-permitted (at 0 "") (at 1 "") server (request "/v1/workers/enrol" "Bearer secret")
      worker empty

-- The token is right, and the descriptor lacks its fields: the credential is stored.
abbrev nameless : Fields
nameless = field "worker_id" (string "w1") end

refused_enrolment :
    succeeds
      (do_post
        (at 0 "")
        (at 1 "")
        server
        (request "/v1/workers/enrol" "Bearer secret")
        nameless
        empty).answer
    ≡ false
unfolding do_post dvk_claude.Controller.Workers.register_worker
    dvk_claude.Controller.Workers.provision_worker_token
    dvk_claude.Controller.Workers.authenticate_worker ◌>>=◌
refused_enrolment = refl

do_post-refused_example :
    Kept
      (at 0 "")
      server
      (request "/v1/workers/enrol" "Bearer secret")
      nameless
      empty
      (do_post
        (at 0 "")
        (at 1 "")
        server
        (request "/v1/workers/enrol" "Bearer secret")
        nameless
        empty).db
do_post-refused_example =
    do_post-refused (at 0 "") (at 1 "") server (request "/v1/workers/enrol" "Bearer secret")
      nameless empty refused_enrolment

abbrev codec : Codec
codec = record { gunzip = λ bs. other_error; loads = λ bs. some (object end) }

raw_body-Fits_example :
    Ensures Fits
      (raw_body codec (record { length = some (ℤ.pos 2); sent = 123 ∷ 125 ∷ []; is_gzip = false }))
raw_body-Fits_example =
    raw_body-Fits codec (record { length = some (ℤ.pos 2); sent = 123 ∷ 125 ∷ []; is_gzip = false })
