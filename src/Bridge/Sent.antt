-- ===== src/Bridge/Sent.antt =====
-- What the request of `/gate` has done when its answer has come.
use dvk_claude.Common.{String, ◌≡◌, ◌≢◌, refl, Bool, true, false, Option, none, some, List, arith}
use dvk_claude.Json.{string}
use dvk_claude.Result.{
  Error, controller_error, stale_result, gate_conflict, value_error, key_error, Result, ok, err,
  ◌>>=◌, Ensures,
}
use dvk_claude.Controller.Schema.{Decision, approved, rejected, GateDecision, Db}
use dvk_claude.Controller.Gates.{resolve_gate}
use dvk_claude.Controller.Views.{PendingGate}
use dvk_claude.Controller.Named.{Says, resolve_gate-Says}
use dvk_claude.Api.{
  Server, Payload, decided, unauthorized, operator_auth, error_answer, when, finish,
}
use dvk_claude.Api.Post.{do_post, resolve}
use dvk_claude.Worker.Client.{Fate, delivered, request_lost, reply_lost, Exchange}
use dvk_claude.Bridge.{
  Settings, Trouble, refused, broken, escapes, Notice, resolved, resolved_otherwise, raised,
  operator_token_of, actor, request_to, reply_of, no_token, note_of, path_of, Handled, handled,
  trouble_notice, answer_notice, body_of, sent, decide_gate,
}

-- A decision may have been applied.
abbrev pub may_have_decided : Notice → Bool
may_have_decided (resolved d) = true
may_have_decided (resolved_otherwise g) = true
may_have_decided raised = true
may_have_decided _ = false

-- An answer about the gate `g`: a decision is the one that was asked for, and the database is as it
-- was without one.
pub record Fine (base : Db) (action : Decision) (g : PendingGate) (h : Handled) : Type 0 where
  pub decides :
      (d : GateDecision) → h.notice ≡ resolved d → Says g.job_id g.gate g.source_run_id action d
  pub otherwise : may_have_decided h.notice ≡ false → h.db ≡ base

pub trouble-unresolved : (t : Trouble) (d : GateDecision) → trouble_notice t ≢ resolved d
trouble-unresolved escapes d h = cc
trouble-unresolved (broken m) d h = cc
trouble-unresolved (refused code shown) d h = ground (arith, h)

module _ (base : Db) (action : Decision) (g : PendingGate) where
  abbrev FineHere : Handled → Type 0
  FineHere = Fine base action g

  trouble-Fine : (t : Trouble) → FineHere (handled (trouble_notice t) base)
  trouble-Fine t = record {
    decides = λ d h. absurd (trouble-unresolved t d h);
    otherwise = λ _. refl;
  }

  raised-Fine : (db : Db) → FineHere (handled raised db)
  raised-Fine db = record { decides = λ d h. absurd cc; otherwise = λ h. absurd cc }

  error-Fine : (e : Error) → FineHere (handled (answer_notice g (reply_of (error_answer e))) base)
  unfolding error_answer
  error-Fine (gate_conflict m) = trouble-Fine (refused 409 (Payload.raised (gate_conflict m)))
  error-Fine (stale_result m) = trouble-Fine (refused 409 (Payload.raised (stale_result m)))
  error-Fine (controller_error m) = trouble-Fine (refused 400 (Payload.raised (controller_error m)))
  error-Fine (value_error m) = trouble-Fine (refused 400 (Payload.raised (value_error m)))
  error-Fine key_error = trouble-Fine (refused 400 (Payload.raised key_error))
  error-Fine e = trouble-Fine escapes

  finished-Fine :
      (m : Result (GateDecision × Db))
      → Ensures (λ r. Says g.job_id g.gate g.source_run_id action r.0) m
      → FineHere (sent delivered g (finish decided base m) base)
  unfolding finish
  finished-Fine (ok (d, new)) says = record {
    decides = λ e h. let s = says.holds (d, new) refl in rw (the_same e h) s;
    otherwise = λ h. absurd cc;
  }
    where
      the_same : (e : GateDecision) → resolved d ≡ resolved e → e ≡ d
      the_same e h = cc
  finished-Fine (err e) says = error-Fine e

  authorized-Fine :
      (auth : Result Bool) (m : Result (GateDecision × Db))
      → Ensures (λ r. Says g.job_id g.gate g.source_run_id action r.0) m
      → FineHere (sent delivered g (when base auth (finish decided base m)) base)
  unfolding when
  authorized-Fine (ok true) m says = finished-Fine m says
  authorized-Fine (ok false) m says = trouble-Fine (refused 401 unauthorized)
  authorized-Fine (err e) m says = error-Fine e

module _ (srv : Server) (settings : Settings) where
  posted :
      (action : Decision) (rest : List String) (y : Exchange) (g : PendingGate) (t : String)
      (db : Db)
      → do_post y.first y.later srv (request_to t (path_of action)) (body_of settings g rest) db
        ≡ when db (operator_auth srv (request_to t (path_of action))) (
            finish decided db (
              resolve_gate y.later
                (string g.job_id)
                (string g.gate)
                action
                (string g.source_run_id)
                (string (actor settings))
                (note_of rest)
                db))
  unfolding do_post resolve ◌>>=◌
  posted approved rest y g t db = refl
  posted rejected rest y g t db = refl

  sent-Fine :
      (action : Decision) (rest : List String) (y : Exchange) (g : PendingGate) (t : String)
      (db : Db) (fate : Fate)
      → Fine db action g (
          sent fate g
            (do_post y.first y.later srv
              (request_to t (path_of action))
              (body_of settings g rest)
              db)
            db)
  sent-Fine action rest y g t db delivered = rw (posted action rest y g t db) (
      authorized-Fine db action g (operator_auth srv (request_to t (path_of action))) _ (
        resolve_gate-Says y.later g.job_id g.gate g.source_run_id action (string (actor settings))
          (note_of rest) db))
  sent-Fine action rest y g t db request_lost =
      trouble-Fine db action g (broken "Controller unavailable")
  sent-Fine action rest y g t db reply_lost = raised-Fine db action g _

  pub decide_gate-Fine :
      (action : Decision) (rest : List String) (y : Exchange) (g : PendingGate) (db : Db)
      → Fine db action g (decide_gate srv settings action rest y g db)
  unfolding decide_gate
  decide_gate-Fine action rest y g db = by_token (operator_token_of settings)
    where
      by_token :
          (o : Option String)
          → Fine db action g (elim o [
            | none ↦ handled (trouble_notice no_token) db
            | some t ↦
                sent y.fate g
                  (do_post y.first y.later srv
                    (request_to t (path_of action))
                    (body_of settings g rest)
                    db)
                  db
          ])
      by_token none = trouble-Fine db action g no_token
      by_token (some t) = sent-Fine action rest y g t db y.fate
