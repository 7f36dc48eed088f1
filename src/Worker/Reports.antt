-- ===== src/Worker/Reports.antt =====
-- What a worker reports, and what the controller accepts.
use dvk_claude.Common.{
  String, ◌≡◌, refl, ap, ◌∙◌, true, false, not, Option, none, some, List, [], ◌∷◌, ◌++◌, ◌==◌,
  is_empty, is_some, any, member, member-append_left, ℕ, on_branches, arith, Option-cases, inl, inr,
  eq_iff, ◌⊎◌,
}
use dvk_claude.Json.{
  Value, null, string, object, Items, Fields, get, get_or, array?, object?, in_set,
}
use dvk_claude.Result.{
  Result, ok, err, value_error, ◌>>=◌, Ensures, Ensures-ok, Ensures-err, Ensures-if, Ensures-bind,
  IsOk,
}
use dvk_claude.Artifacts.{validate_artifacts}
use dvk_claude.Controller.Claim.{Claim}
use dvk_claude.Controller.Validate.Envelope.{
  validate_envelope, check_result, check_payload_kind, status_of,
}
use dvk_claude.Controller.Schema.{State}
use dvk_claude.Worker.{
  AdapterResult, result_payload, declared_gates, declares, gates_or_none, approved_gate_names,
  check_wait, normalize_gate_result, normalize_artifacts, artifact_list, hash_table, ignore_gate,
  rejected_artifacts,
}
use dvk_claude.Api.{Server}
use dvk_claude.Worker.Client.{Client}
use dvk_claude.Controller.Validate.{engine_names}
use dvk_claude.Github.{known_integrations}
use dvk_claude.Worker.Once.{
  known_engines, text_of, default_engine, Plan, engine_label, execution_engine, envelope_of,
  finished_envelope,
}

-- A result that waits names a gate that the task declares and that was not approved; any other
-- result names none.
abbrev pub IsGated : Fields → AdapterResult → Type 0
IsGated task r =
    ((r.status == "WAIT_USER" ≡ false) × (r.gate ≡ none))
    ⊎ ((gate : String) × (r.status == "WAIT_USER" ≡ true)
        × (r.gate ≡ some gate)
        × (declares task gate ≡ true)
        × (member gate (gates_or_none (approved_gate_names task)) ≡ false))

abbrev pub contract_statuses : List String
contract_statuses = "DONE" ∷ "WAIT_USER" ∷ "BLOCKED" ∷ "FAILED" ∷ []

abbrev pub InContract : AdapterResult → Type 0
InContract r = member r.status contract_statuses ≡ true

-- A result that the controller may read: of the contract, and with no gate that it would refuse.
abbrev pub IsReportable : Fields → AdapterResult → Type 0
IsReportable task r = IsGated task r × InContract r

check_wait-IsReportable :
    (task : Fields) (r : AdapterResult) (g : Option String)
    → InContract r
    → r.status == "WAIT_USER" ≡ true
    → r.gate ≡ g
    → IsReportable task (check_wait task r g)
unfolding check_wait member
check_wait-IsReportable task r none c s e = (inl (refl, refl), refl)
check_wait-IsReportable task r (some gate) c s e =
    on_branches P (is_empty gate) _ _ (λ _. (inl (refl, refl), refl))
      λ _.
        on_branches P (not (declares task gate)) _ _ (λ _. (inl (refl, refl), refl))
          λ d.
            on_branches P (member gate (gates_or_none (approved_gate_names task))) _ _
              (λ _. (inl (refl, refl), refl)) (λ a. (inr (gate, s, e, ground (arith, d), a), c))
  where
    P : AdapterResult → Type 0
    P = IsReportable task

ignore_gate-IsReportable :
    (task : Fields) (r : AdapterResult) (g : Option String)
    → InContract r
    → r.status == "WAIT_USER" ≡ false
    → r.gate ≡ g
    → IsReportable task (ignore_gate r g)
ignore_gate-IsReportable task r none c s e = (inl (s, e), c)
ignore_gate-IsReportable task r (some gate) c s e = (inl (s, refl), c)

normalize_gate_result-IsReportable :
    (r : AdapterResult) (task : Fields)
    → InContract r
    → Ensures (IsReportable task) (normalize_gate_result r task)
unfolding normalize_gate_result
normalize_gate_result-IsReportable r task c =
    Ensures-if (any _ (declared_gates task)) _ _ (λ _. Ensures-err _)
      λ _. Ensures-ok _ (
        on_branches (IsReportable task) (r.status == "WAIT_USER") _ _
          (λ s. check_wait-IsReportable task r r.gate c s refl)
          (λ s. ignore_gate-IsReportable task r r.gate c s refl))

abbrev AreAccepted : (String → String) → AdapterResult → Type 0
AreAccepted sha256 r =
    validate_artifacts sha256 (artifact_list r.artifacts) (hash_table r.hashes) ≡ ok tt

none-AreAccepted :
    (sha256 : String → String) (r : AdapterResult) → AreAccepted sha256 (rejected_artifacts r)
unfolding validate_artifacts
none-AreAccepted sha256 r = refl

-- What is left of a result that was gated: it, or its refusal.
normalize_artifacts-Ensures :
    (sha256 : String → String) (task : Fields) (r : AdapterResult)
    → IsReportable task r
    → Ensures (λ c. IsReportable task c × AreAccepted sha256 c) (normalize_artifacts sha256 r)
unfolding normalize_artifacts member
normalize_artifacts-Ensures sha256 task r g =
    by_check (validate_artifacts sha256 (artifact_list r.artifacts) (hash_table r.hashes)) refl
  where
    by_check :
        (m : Result (Unit {0}))
        → validate_artifacts sha256 (artifact_list r.artifacts) (hash_table r.hashes) ≡ m
        → Ensures
            (λ c. IsReportable task c × AreAccepted sha256 c)
            (elim m [
              | ok done ↦ ok r
              | err (value_error m) ↦ ok (rejected_artifacts r)
              | err e ↦ err e
            ])
    by_check (ok done) e = Ensures-ok r (g, e)
    by_check (err (value_error m)) e =
        Ensures-ok _ ((inl (refl, refl), refl), none-AreAccepted sha256 r)
    by_check (err e) h = Ensures-err e

abbrev IsKnownEngine : String → Type 0
IsKnownEngine s = member s (engine_names ++ known_integrations) ≡ true

text_of-IsKnownEngine :
    (v : Value) → in_set v known_engines ≡ ok true → Ensures IsKnownEngine (text_of v)
unfolding in_set
text_of-IsKnownEngine (string s) h =
    Ensures-ok s (member-append_left s engine_names known_integrations (cc))
text_of-IsKnownEngine v h = Ensures-err _

default_engine-IsKnownEngine : (task : Fields) → Ensures IsKnownEngine (default_engine task)
unfolding member
default_engine-IsKnownEngine task =
    Ensures-bind _ _
      λ codex _. Ensures-ok _ (on_branches IsKnownEngine codex _ _ (λ _. refl) (λ _. refl))

execution_engine-IsKnownEngine : (task : Fields) → Ensures IsKnownEngine (execution_engine task)
unfolding execution_engine
execution_engine-IsKnownEngine task = Ensures-bind _ _ λ is_known k.
    Ensures-if is_known _ _
      (λ t. text_of-IsKnownEngine (get_or "execution_engine" null task) (k ∙ ap ok t))
      (λ _. default_engine-IsKnownEngine task)

engine_label-IsKnownEngine : (task : Fields) → Ensures IsKnownEngine (engine_label task)
unfolding engine_label member
engine_label-IsKnownEngine task = Ensures-bind _ _ λ integrated _.
    Ensures-if integrated _ _ (λ _. Ensures-ok _ refl) (λ _. execution_engine-IsKnownEngine task)

artifact_list-array : (o : Option Items) → is_some (array? (artifact_list o)) ≡ true
artifact_list-array none = refl
artifact_list-array (some vs) = refl

hash_table-object : (o : Option Fields) → is_some (object? (hash_table o)) ≡ true
hash_table-object none = refl
hash_table-object (some fs) = refl

read-status :
    (s : String) → member s contract_statuses ≡ true → (t : State) × (status_of (string s) ≡ some t)
unfolding status_of member
read-status s h = elim (Option-cases (status_of (string s))) [
  | inr found ↦ found
  | inl e ↦ absurd (
      ground (
        arith,
        e,
        h,
        eq_iff "DONE" s,
        eq_iff s "DONE",
        eq_iff "WAIT_USER" s,
        eq_iff s "WAIT_USER",
        eq_iff "BLOCKED" s,
        eq_iff s "BLOCKED",
        eq_iff "FAILED" s,
        eq_iff s "FAILED",
      ))
]

payload-IsOk : (r : AdapterResult) → InContract r → IsOk (check_result (object (result_payload r)))
unfolding check_result result_payload ◌>>=◌
payload-IsOk r s = let (t, e) = read-status r.status s in rw (s, e) tt

kind-IsOk :
    (worker_id : String) (c : Claim) (now : ℕ) (engine : String) (r : AdapterResult)
    → IsKnownEngine engine
    → check_payload_kind (envelope_of worker_id c now engine r) ≡ ok tt
unfolding check_payload_kind envelope_of ◌>>=◌
kind-IsOk worker_id c now engine r e = rw e refl

-- The envelope of a checked result, as the controller reads it.
envelope-IsOk :
    (sha256 : String → String) (worker_id : String) (c : Claim) (now : ℕ) (engine : String)
    (r : AdapterResult)
    → AreAccepted sha256 r
    → IsKnownEngine engine
    → InContract r
    → IsOk (validate_envelope sha256 (envelope_of worker_id c now engine r))
unfolding validate_envelope envelope_of ◌>>=◌ get get_or
envelope-IsOk sha256 worker_id c now engine r a e s =
    rw
      (
        artifact_list-array r.artifacts,
        hash_table-object r.hashes,
        a,
        kind-IsOk worker_id c now engine r e,
      )
      (payload-IsOk r s)

-- The envelope that a worker makes of a result of the contract is one that the controller's
-- `_validate_envelope` accepts. Its result waits only for a gate that the task declares and that was
-- not approved yet; any other result names no gate.
pub finished_envelope-IsOk :
    (srv : Server) (client : Client) (p : Plan) (c : Claim) (r : AdapterResult)
    → InContract r
    → Ensures
        (λ e.
          (checked : AdapterResult) × (engine : String) × (e
            ≡ envelope_of client.worker_id c p.now engine checked)
          × IsGated c.task checked
          × IsOk (validate_envelope p.sha256 e))
        (finished_envelope srv client p c r)
unfolding finished_envelope
finished_envelope-IsOk srv client p c r s = Ensures-bind _ _ λ gated g.
    Ensures-bind _ _ λ checked n. Ensures-bind _ _ λ engine k.
      let reportable = (normalize_gate_result-IsReportable r c.task s).holds gated g in
      let fine = (normalize_artifacts-Ensures p.sha256 c.task gated reportable).holds checked n in
      let known = (engine_label-IsKnownEngine c.task).holds engine k in
      Ensures-ok _ (
        checked,
        engine,
        refl,
        fine.0.0,
        envelope-IsOk p.sha256 client.worker_id c p.now engine checked fine.1 known fine.0.1,
      )
