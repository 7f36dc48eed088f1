-- ===== src/Controller/Repeats/Tasks.antt =====
-- A task that is enqueued again under its idempotency key.
use dvk_claude.Common.{
  String, ◌≡◌, refl, ap, ◌∙◌, subst, Bool, false, Option, none, some, List, [], ◌∷◌, ◌++◌, is_empty,
  first, eq_refl, arith, Option-cases, inl, inr, if◌then◌else◌,
}
use dvk_claude.Result.{Result, ok, ◌>>=◌, Ensures, Ensures-ok, Ensures-bind}
use dvk_claude.Json.{Fields, Value, string, get}
use dvk_claude.Table.Keys.{insert-eq-ok}
use dvk_claude.Controller.Schema.{Job, Db, Env, job_key, event}
use dvk_claude.Controller.Validate.{validate_task}
use dvk_claude.Controller.Enqueue.{
  enqueue, enqueue_new, insert_job, find_by_key, text_column, same_request,
  check_project_repository, manifest_of, github_only, is_value,
}

pub first-append {ℓ} :
    {A : Type ℓ} (p : A → Bool) (xs : List A) (x : A)
    → first p xs ≡ none
    → first p (xs ++ x ∷ []) ≡ (if p x then some x else none)
unfolding first
first-append p [] x h = refl
first-append p (y ∷ ys) x h = ground (arith, first-append p ys x)

-- A job that is inserted is found by its key.
find_by_key-insert_job :
    (job : Job) (jobs new : List Job) (k : String)
    → insert_job job jobs ≡ ok new
    → job.idempotency_key ≡ some k
    → find_by_key k jobs ≡ none
    → find_by_key k new ≡ some job
unfolding insert_job find_by_key
find_by_key-insert_job job jobs new k h e n =
    let at_end = (insert-eq-ok job_key job jobs new (ground arith)).1 in
    subst (λ js. find_by_key k js ≡ some job) at_end (first-append _ jobs job n ∙ rw (e, eq_refl k))

-- The new database, as far as a later request reads it.
abbrev Remembers : String → Db → String → Db → Type 0
Remembers k db id new =
    (j : Job) × (find_by_key k new.jobs ≡ some j) × (j.job_id ≡ id) × (new.projects ≡ db.projects)

enqueue_new-Remembers :
    (env : Env) (task : Fields) (k : String) (db : Db)
    → find_by_key k db.jobs ≡ none
    → Ensures (λ r. Remembers k db r.0 r.1) (enqueue_new env task (some k) db)
unfolding enqueue_new event
enqueue_new-Remembers env task k db n = Ensures-bind _ _ λ named _. Ensures-bind _ _ λ parent _.
    Ensures-bind _ _ λ jobs e.
      Ensures-bind _ _
        λ engine _. Ensures-ok _ (_, find_by_key-insert_job _ db.jobs jobs k e refl n, refl, refl)

known :
    (k : String) (j : Job) (jobs : List Job)
    → is_empty k ≡ false
    → find_by_key k jobs ≡ some j
    → same_request (some k) jobs ≡ some j
known k j jobs n f = ground arith

unknown :
    (k : String) (jobs : List Job) → find_by_key k jobs ≡ none → same_request (some k) jobs ≡ none
unknown k jobs f = ground arith

-- The request is known: it is answered with the job of its key.
known_request :
    (env : Env) (task : Fields) (db : Db) (k : String) (j : Job)
    → validate_task env.sha256 task ≡ ok tt
    → (if is_value github_only (get "integrations" task)
        then check_project_repository task db
        else ok tt)
      ≡ ok tt
    → text_column (get "idempotency_key" task) ≡ ok (some k)
    → is_empty k ≡ false
    → find_by_key k db.jobs ≡ some j
    → enqueue env task db ≡ ok (j.job_id, db)
unfolding enqueue ◌>>=◌
known_request env task db k j v p t n f = rw (v, p, t) (ground (arith, n, f))

same_manifest :
    (v : Option Value) (db new : Db)
    → new.projects ≡ db.projects
    → manifest_of v new ≡ manifest_of v db
unfolding manifest_of
same_manifest none db new e = refl
same_manifest (some (string s)) db new e = cc
same_manifest (some v) db new e = refl

-- The checks read the projects only.
same_checks :
    (task : Fields) (db new : Db)
    → new.projects ≡ db.projects
    → check_project_repository task new ≡ check_project_repository task db
unfolding check_project_repository
same_checks task db new e = rw (same_manifest (get "project" task) db new e) refl

abbrev checks_repository : Fields → Db → Result (Unit {0})
checks_repository task db =
    if is_value github_only (get "integrations" task)
    then check_project_repository task db
    else ok tt

abbrev answer : Env → Fields → Option String → Db → Result (String × Db)
answer env task key db = elim (same_request key db.jobs) [
  | some job ↦ ok (job.job_id, db)
  | none ↦ enqueue_new env task key db
]

answer-Remembers :
    (env : Env) (task : Fields) (k : String) (db : Db)
    → is_empty k ≡ false
    → Ensures (λ r. Remembers k db r.0 r.1) (answer env task (some k) db)
answer-Remembers env task k db n = elim (Option-cases (find_by_key k db.jobs)) [
  | inl e ↦ rw (unknown k db.jobs e, answer) (enqueue_new-Remembers env task k db e)
  | inr (j, e) ↦ rw (known k j db.jobs n e, answer) (Ensures-ok _ (j, e, refl, refl))
]

checked_again :
    (task : Fields) (db new : Db)
    → new.projects ≡ db.projects
    → checks_repository task db ≡ ok tt
    → checks_repository task new ≡ ok tt
checked_again task db new e p = rw (same_checks task db new e) p

again :
    (later : Env) (task : Fields) (k : String) (db : Db) (r : String × Db)
    → validate_task later.sha256 task ≡ ok tt
    → checks_repository task db ≡ ok tt
    → text_column (get "idempotency_key" task) ≡ ok (some k)
    → is_empty k ≡ false
    → Remembers k db r.0 r.1
    → enqueue later task r.1 ≡ ok r
again later task k db (id, new) v p t n (j, f, e, ps) =
    known_request later task new k j v (checked_again task db new ps p) t n f
    ∙ ap (λ i. ok (i, new)) e

key_column :
    (task : Fields) (k : String) (key : Option String)
    → get "idempotency_key" task ≡ some (string k)
    → text_column (get "idempotency_key" task) ≡ ok key
    → some k ≡ key
unfolding text_column
key_column task k key g t = ground (arith, g, t)

-- When a task was enqueued under an idempotency key that is not empty, and the next call of the
-- controller enqueues it again, with the same hash function and whatever the clock reads, that call
-- returns the same job and leaves the database as it is.
pub enqueue-enqueue :
    (env later : Env) (task : Fields) (db : Db) (k : String)
    → later.sha256 ≡ env.sha256
    → get "idempotency_key" task ≡ some (string k)
    → is_empty k ≡ false
    → Ensures (λ r. enqueue later task r.1 ≡ ok r) (enqueue env task db)
unfolding enqueue
enqueue-enqueue env later task db k s g n = Ensures-bind _ _ λ _ v. Ensures-bind _ _ λ _ p.
    Ensures-bind _ _ λ key t. (record {
      holds = λ r h.
          let same = key_column task k key g t in
          again later task k db r (rw s v) p (rw same t) n
            ((answer-Remembers env task k db n).holds r (rw same h));
    })
