-- ===== src/Controller/Expiry.antt =====
-- What `reconcile_expired_leases` does to the runs of a database in agreement.
use mathlib.Core.Option
use dvk_claude.Common.{
  ℕ, String, ◌≡◌, refl, ap, ◌∙◌, Bool, true, false, ◌||◌, Option, none, some, List, [], ◌∷◌, ◌==◌,
  arith, any, keep, is_empty, eq_iff, Option-cases, Bool-cases, inl, inr, is_some, if◌then◌else◌,
}
use dvk_claude.Common.All.{All, All-mono, All-keep}
use dvk_claude.Result.{ok, IsOk, IsOk-eq-ok, ◌>>=◌, Ensures, Ensures-ok, Ensures-bind}
use dvk_claude.Table.{find}
use dvk_claude.Table.Laws.{find-update}
use dvk_claude.Table.Keys.{Unique, All-find_self}
use dvk_claude.Controller.Schema.{State, Job, Run, Db, Env, job_key, run_key, event}
use dvk_claude.Controller.Invariant.{IsConsistent, WithinAttempts}
use dvk_claude.Controller.Leases.{
  is_expired, mark_stale, release_job, expiry_target, expire_run, expire_all,
  reconcile_expired_leases,
}

abbrev listed : String → List Run → Bool
listed id runs = any (λ r. r.run_id == id) runs

abbrev expired_from : String → List Run → Option Run → Option Run
expired_from id rs found = if listed id rs then Option.map mark_stale found else found

expire_run-runs :
    (now : ℕ) (r : Run) (db : Db) (id : String)
    → Ensures
        (λ new. find run_key id new.runs ≡ (
          if r.run_id == id
          then Option.map mark_stale (find run_key id db.runs)
          else find run_key id db.runs))
        (expire_run now r db)
unfolding expire_run event
expire_run-runs now r db id =
    Ensures-bind _ _
      λ target _. Ensures-ok _ (find-update run_key id r.run_id mark_stale db.runs (λ r. refl))

marked_again :
    (first later : Bool) (o : Option Run)
    → (if later
        then Option.map mark_stale (if first then Option.map mark_stale o else o)
        else (if first then Option.map mark_stale o else o))
      ≡ (if first || later then Option.map mark_stale o else o)
marked_again true true none = refl
marked_again true true (some r) = refl
marked_again true false o = refl
marked_again false b o = refl

expire_all-runs :
    (now : ℕ) (rs : List Run) (db : Db) (id : String)
    → Ensures
        (λ new. find run_key id new.runs ≡ expired_from id rs (find run_key id db.runs))
        (expire_all now rs db)
unfolding expire_all any
expire_all-runs now [] db id = Ensures-ok _ refl
expire_all-runs now (r ∷ rs) db id = Ensures-bind _ _ λ mid e. (record {
  holds = λ new h.
      (expire_all-runs now rs mid id).holds new h
      ∙ ap (expired_from id rs) ((expire_run-runs now r db id).holds mid e)
      ∙ marked_again (r.run_id == id) (listed id rs) (find run_key id db.runs);
})

listed-keep-none :
    (p : Run → Bool) (id : String) (runs : List Run)
    → find run_key id runs ≡ none
    → listed id (keep p runs) ≡ false
unfolding find any keep
listed-keep-none p id [] h = refl
listed-keep-none p id (r ∷ rs) h = ground (arith, listed-keep-none p id rs)

-- Where the keys differ, a run is listed among those kept exactly if it passes the test.
listed-keep :
    (p : Run → Bool) (id : String) (runs : List Run) (r : Run)
    → Unique run_key runs
    → find run_key id runs ≡ some r
    → listed id (keep p runs) ≡ p r
unfolding find any keep
listed-keep p id [] r u h = cc
listed-keep p id (x ∷ xs) r (n, u) h =
    ground (arith, listed-keep p id xs r u, listed-keep-none p id xs, eq_iff x.run_id id)

-- The job of the run is in the table.
abbrev HasJob : List Job → Run → Type 0
HasJob jobs r = is_some (find job_key r.job_id jobs) ≡ true

expire_run-IsOk : (now : ℕ) (r : Run) (db : Db) → HasJob db.jobs r → IsOk (expire_run now r db)
unfolding expire_run expiry_target ◌>>=◌
expire_run-IsOk now r db h = elim (Bool-cases (is_empty r.job_id)) [
  | inl e ↦ rw e tt
  | inr e ↦ elim (Option-cases (find job_key r.job_id db.jobs)) [
    | inl f ↦ absurd (ground (arith, f))
    | inr (j, f) ↦ rw (e, f) tt
  ]
]

release_job-key : (s : State) (id : String) (j : Job) → job_key (release_job s id j) ≡ job_key j
unfolding release_job
release_job-key s id j = ground arith

expire_run-HasJob :
    (now : ℕ) (r other : Run) (db : Db)
    → HasJob db.jobs other
    → Ensures (λ new. HasJob new.jobs other) (expire_run now r db)
unfolding expire_run event
expire_run-HasJob now r other db h = Ensures-bind _ _ λ target _. Ensures-ok _ (
    ground (
      arith,
      find-update job_key other.job_id r.job_id (release_job target r.run_id) db.jobs
          (release_job-key target r.run_id),
    ))

expire_all-eq-ok :
    (now : ℕ) (rs : List Run) (db : Db)
    → All (λ r. HasJob db.jobs r) rs
    → (new : Db) × (expire_all now rs db ≡ ok new)
unfolding expire_all ◌>>=◌
expire_all-eq-ok now [] db h = (db, refl)
expire_all-eq-ok now (r ∷ rs) db (h, hs) =
    let (mid, e) = IsOk-eq-ok (expire_run now r db) (expire_run-IsOk now r db h) in
    let (new, f) = expire_all-eq-ok now rs mid (
      All-mono (λ x. HasJob db.jobs x) (λ x. HasJob mid.jobs x) rs
        (λ x k. (expire_run-HasJob now r x db k).holds mid e) hs) in
    (new, rw e f)

within-HasJob :
    (r : Run) (jobs : List Job) → WithinAttempts r (find job_key r.job_id jobs) → HasJob jobs r
within-HasJob r jobs h = elim (Option-cases (find job_key r.job_id jobs)) [
  | inl e ↦ absurd (ground arith)
  | inr (j, e) ↦ rw e refl
]

expired-HasJob :
    (now : ℕ) (db : Db)
    → IsConsistent db
    → All (λ r. HasJob db.jobs r) (keep (is_expired now) db.runs)
expired-HasJob now db c =
    All-mono _ (λ r. HasJob db.jobs r) (keep (is_expired now) db.runs)
      (λ r h. within-HasJob r db.jobs (c.attempts r.run_id r h.0))
      (All-keep _ (is_expired now) db.runs (All-find_self run_key db.runs c.run_ids))

-- A run whose lease has run out is made stale, and any other is left as it is.
abbrev pub expire : ℕ → Run → Run
expire now r = if is_expired now r then mark_stale r else r

expired_from-expire :
    (now : ℕ) (id : String) (runs : List Run)
    → Unique run_key runs
    → expired_from id (keep (is_expired now) runs) (find run_key id runs)
      ≡ Option.map (expire now) (find run_key id runs)
expired_from-expire now id runs u = elim (Option-cases (find run_key id runs)) [
  | inl e ↦ ground (arith, e)
  | inr (r, e) ↦ ground (arith, e, listed-keep (is_expired now) id runs r u e)
]

-- On a database in agreement, `reconcile_expired_leases` always returns. It answers with the runs
-- whose lease has run out; in the new database these are stale, and every other run is unchanged.
pub reconcile-expire :
    (env : Env) (db : Db)
    → IsConsistent db
    → (new : Db) × (reconcile_expired_leases env db ≡ ok (keep (is_expired env.now) db.runs, new))
      × ((id : String)
          → find run_key id new.runs ≡ Option.map (expire env.now) (find run_key id db.runs))
unfolding reconcile_expired_leases ◌>>=◌
reconcile-expire env db c =
    let rs = keep (is_expired env.now) db.runs in
    let (new, e) = expire_all-eq-ok env.now rs db (expired-HasJob env.now db c) in
    (
      new,
      rw e refl,
      λ id.
          (expire_all-runs env.now rs db id).holds new e
          ∙ expired_from-expire env.now id db.runs c.run_ids,
    )
