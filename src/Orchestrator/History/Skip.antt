-- ===== src/Orchestrator/History/Skip.antt =====
-- The skipping of blocked jobs and the resumption of waiting ones, row by row.
use mathlib.Core.List.{Memᴰ}
use mathlib.Core.Path.{subst}
use kase_ai.Prelude.{
  ℕ, zero, suc, String, ◌≡◌, refl, sym, inl, inr, Bool, true, some, List, [], ◌∷◌, map, arith,
  Result, ok, err, ok_injective, >>=-eq-ok, ◌==◌, string_eq, contains, filter, mem-filter,
  update_where, Bool-cases, if◌then◌else◌, Star-one, done, Rows, Rows-refl, Rows-trans,
  Rows-update_where, Star-trans,
}
use kase_ai.Orchestrator.JobGraph.{
  JobStatus, is_queued, is_empty, is_blocked, is_blocked_with, blocked_jobs, validate_job_graph,
}
use kase_ai.Orchestrator.Store.{StoredJob, Tables, with_status, update_jobs}
use kase_ai.Orchestrator.Scheduler.{
  AdvanceError, lift_error, skip_blocked, skipped_row, job_ids, resumes, resumed_row, of_audit,
}
use kase_ai.Orchestrator.History.Moves.{JobPath, dropped, resumed, Evolves, update_jobs-Evolves}
use kase_ai.Orchestrator.History.Keys.{HasKeys, same_row}

pub mem-update_where {ℓ} :
    {A : Type ℓ} (p : A → Bool) (f : A → A) (xs : List A) (y : A)
    → Memᴰ y (update_where p f xs)
    → (x : A) × Memᴰ x xs × (y ≡ (if p x then f x else x))
mem-update_where p f [] y m = elim m [ ]
mem-update_where p f (x ∷ xs) y (Memᴰ.head e) = (x, Memᴰ.head refl, e)
mem-update_where p f (x ∷ xs) y (Memᴰ.tail m) =
    let (z, n, e) = mem-update_where p f xs y m in (z, Memᴰ.tail n, e)

contains-job_ids :
    (js : List StoredJob) (id : String)
    → contains (job_ids js) id ≡ true
    → (j : StoredJob) × Memᴰ j js × (j.id ≡ id)
contains-job_ids [] id h = cc
contains-job_ids (j ∷ js) id h = elim (Bool-cases (j.id == id)) [
  | inl here ↦ (j, Memᴰ.head refl, (string_eq.eqb_iff j.id id).0 here)
  | inr apart ↦ let (k, m, e) = contains-job_ids js id (rw apart at h) in (k, Memᴰ.tail m, e)
]

-- The rows of the table and the list that the scheduler works on tell the same statuses.
abbrev pub Agrees : List StoredJob → List StoredJob → Type 0
Agrees rows jobs = (r j : StoredJob) → Memᴰ r rows → Memᴰ j jobs → r.id ≡ j.id → r.status ≡ j.status

blocked-queued :
    (jobs blocked : List StoredJob) (j : StoredJob)
    → blocked_jobs (λ j. j.node) jobs ≡ ok blocked
    → Memᴰ j blocked
    → Memᴰ j jobs × (is_queued j.status ≡ true)
unfolding blocked_jobs is_blocked is_blocked_with
blocked-queued jobs blocked j e m =
    let nodes = map (λ (k : StoredJob). k.node) jobs in
    let (_, _, e') = >>=-eq-ok (validate_job_graph nodes) _ e in
    let same : blocked ≡ filter (λ k. is_blocked nodes k.node) jobs = cc in
    let (k, b) = mem-filter (λ k. is_blocked nodes k.node) jobs j (subst (Memᴰ j) same m) in
    (k, ground (arith, b))

Agrees-skip :
    (now : ℕ) (rows jobs : List StoredJob) (ids : List String)
    → Agrees rows jobs
    → Agrees (update_where (λ j. contains ids j.id) (skipped_row now) rows) (
        update_where
          (λ j. contains ids j.id)
          (λ j. record (with_status JobStatus.skipped j) { finished_at = some now })
          jobs)
Agrees-skip now rows jobs ids h r' j' m n e =
    let (r, m', er) = mem-update_where (λ j. contains ids j.id) (skipped_row now) rows r' m in
    let (j, n', ej) =
      mem-update_where (λ j. contains ids j.id)
        (λ j. record (with_status JobStatus.skipped j) { finished_at = some now }) jobs j' n in
    let kept_r : r'.id ≡ r.id = rw er (ground arith) in
    let kept_j : j'.id ≡ j.id = rw ej (ground arith) in
    let one : r.id ≡ j.id = cc in
    let same : r.status ≡ j.status = h r j m' n' one in
    rw (er, ej, one)
      (elim (Bool-cases (contains ids j.id)) [ inl hit ↦ rw hit refl | inr miss ↦ rw miss same ])

pub lift_error-eq-ok {ℓ κ μ} :
    {E : Type ℓ} {F : Type κ} {A : Type μ} (f : E → F) (m : Result E A) {a : A}
    → lift_error f m ≡ ok a
    → m ≡ ok a
lift_error-eq-ok f (ok a) h = cc
lift_error-eq-ok f (err e) h = cc

skip-Rows :
    (now : ℕ) (rows jobs blocked : List StoredJob)
    → Agrees rows jobs
    → blocked_jobs (λ j. j.node) jobs ≡ ok blocked
    → Rows JobPath rows (update_where (λ j. contains (job_ids blocked) j.id) (skipped_row now) rows)
skip-Rows now rows jobs blocked h b =
    Rows-update_where JobPath (λ j. contains (job_ids blocked) j.id) (skipped_row now) rows
      (λ j. done)
      λ r m hit.
        let (j, n, e) = contains-job_ids blocked r.id hit in
        let (n', idle) = blocked-queued jobs blocked j b n in
        let same : r.status ≡ j.status = h r j m n' (sym e) in
        Star-one (record {
          frozen = ground arith;
          move = dropped (ground (arith, same)) refl refl (refl, refl);
        })

pub skip_blocked-Rows :
    (fuel now : ℕ) (rows jobs : List StoredJob) (r : List StoredJob × List StoredJob)
    → Agrees rows jobs
    → skip_blocked fuel now rows jobs ≡ ok r
    → Rows JobPath rows r.0
unfolding skip_blocked
skip_blocked-Rows zero now rows jobs r h e = cc
skip_blocked-Rows (suc fuel) now rows jobs r h e =
    let (blocked, b, e') =
      >>=-eq-ok (lift_error AdvanceError.graph (blocked_jobs (λ j. j.node) jobs)) _ e in
    elim (Bool-cases (is_empty blocked)) [
      | inl over ↦
          let same : ◌≡◌ {A = Result AdvanceError (List StoredJob × List StoredJob)}
              (ok (rows, jobs)) (ok r) =
            rw over at e' in
          subst (λ x. Rows JobPath rows x.0) (ok_injective same)
            (Rows-refl JobPath (λ j. done) rows)
      | inr again ↦
          let rest =
            skip_blocked-Rows fuel now _ _ r (Agrees-skip now rows jobs (job_ids blocked) h)
              (rw again at e') in
          Rows-trans JobPath (λ x y z. Star-trans)
            (skip-Rows now rows jobs blocked h (lift_error-eq-ok _ _ b)) rest
    ]

pub Agrees-resumed :
    (id : String) (now : ℕ) (db : Tables)
    → HasKeys db
    → Agrees
        (update_where (resumes id db now) resumed_row db.jobs)
        (update_where (resumes id db now) (with_status JobStatus.queued) (of_audit id db.jobs))
Agrees-resumed id now db keys r' j' m n e =
    let (r, m', er) = mem-update_where (resumes id db now) resumed_row db.jobs r' m in
    let (j, n', ej) =
      mem-update_where (resumes id db now) (with_status JobStatus.queued) (of_audit id db.jobs) j'
        n in
    let (n₁, _) = mem-filter _ db.jobs j n' in
    let kept_r : r'.id ≡ r.id = rw er (ground arith) in
    let kept_j : j'.id ≡ j.id = rw ej (ground arith) in
    let one : r ≡ j = same_row (λ k. k.id) db.jobs r j keys.jobs m' n₁ cc in
    rw (er, ej, one) (ground arith)

pub resumed-Evolves :
    (id : String) (now : ℕ) (db : Tables)
    → Evolves db (update_jobs (resumes id db now) resumed_row db)
resumed-Evolves id now db =
    update_jobs-Evolves (resumes id db now) resumed_row db
      λ j m h. record { frozen = ground arith; move = resumed (ground arith) refl (refl, refl) }
