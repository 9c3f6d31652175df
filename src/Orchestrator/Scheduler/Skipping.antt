-- ===== src/Orchestrator/Scheduler/Skipping.antt =====
-- The loop of `advance` that skips blocked jobs: it ends, and it leaves none.
use mathlib.Core.List.{Memᴰ}
use mathlib.Core.Path.{subst}
use kase_ai.Prelude.{
  ℕ, zero, suc, ◌≤◌, ◌<◌, ◌≡◌, refl, sym, ap, ◌∙◌, inl, inr, Bool, true, false, some, List, [], ◌∷◌,
  map, arith, ok, string_eq, contains, contains-cons, contains-cons_self, filter, mem-filter,
  update_where, count_where, length, Bool-cases, All, Rows, no_rows, row, Rows-All, Rows-refl,
  Rows-trans, Rows-update_where,
}
use kase_ai.Orchestrator.JobGraph.{
  JobGraphNode, JobStatus, ids, is_queued, is_running, is_waiting, is_empty, is_blocked,
  is_blocked_with, blocked_jobs,
}
use kase_ai.Orchestrator.JobGraph.Validation.{IsUnique, IsValid}
use kase_ai.Orchestrator.JobGraph.Acceptance.{validate_job_graph_iff}
use kase_ai.Orchestrator.Store.{StoredJob, with_status}
use kase_ai.Orchestrator.Scheduler.{skip_blocked, skipped_row, job_ids}

-- A node that may have got another status.
pub record IsSameNode (n n' : JobGraphNode) : Type 0 where
  pub id : n'.id ≡ n.id
  pub kind : n'.kind ≡ n.kind
  pub depends_on : n'.depends_on ≡ n.depends_on

ids-Rows : {ns ns' : List JobGraphNode} → Rows IsSameNode ns ns' → ids ns' ≡ ids ns
ids-Rows no_rows = refl
ids-Rows (row s r) = rw (s.id, ids-Rows r)

-- Validity is a matter of the ids and the dependencies.
pub IsValid-Rows : {ns ns' : List JobGraphNode} → Rows IsSameNode ns ns' → IsValid ns → IsValid ns'
IsValid-Rows {ns} {ns'} r v =
    let same = ids-Rows r in
    record {
      unique = subst IsUnique (sym same) v.unique;
      present =
          subst (λ known. All (λ n. All (λ d. contains known d ≡ true) n.depends_on) ns') (sym same)
            (Rows-All IsSameNode (λ n. All (λ d. contains (ids ns) d ≡ true) n.depends_on)
              (λ n n' s h. rw s.depends_on h) r v.present);
      acyclic = (
        v.acyclic.0,
        Rows-All IsSameNode (λ n. All (λ d. v.acyclic.0 d < v.acyclic.0 n.id) n.depends_on)
            (λ n n' s h. rw (s.depends_on, s.id) h) r v.acyclic.1,
      );
    }

count_where-le {ℓ} :
    {A : Type ℓ} (q p : A → Bool) (f : A → A) (xs : List A)
    → ((x : A) → q (f x) ≡ false)
    → count_where q (update_where p f xs) ≤ count_where q xs
count_where-le q p f [] k = omega arith
count_where-le q p f (x ∷ xs) k = let gone = k x in ground (arith, count_where-le q p f xs k)

count_where-lt {ℓ} :
    {A : Type ℓ} (q p : A → Bool) (f : A → A) (xs : List A) (y : A)
    → ((x : A) → q (f x) ≡ false)
    → Memᴰ y xs
    → p y ≡ true
    → q y ≡ true
    → count_where q (update_where p f xs) < count_where q xs
count_where-lt q p f [] y k m h i = elim m [ ]
count_where-lt q p f (x ∷ xs) y k (Memᴰ.head e) h i =
    let fewer = count_where-le q p f xs k in
    let gone = k x in
    let h' : p x ≡ true = rw (← e) h in let i' : q x ≡ true = rw (← e) i in ground arith
count_where-lt q p f (x ∷ xs) y k (Memᴰ.tail m) h i =
    let gone = k x in ground (arith, count_where-lt q p f xs y k m h i)

pub count_where-length {ℓ} :
    {A : Type ℓ} (q : A → Bool) (xs : List A) → count_where q xs ≤ length xs
count_where-length q [] = omega arith
count_where-length q (x ∷ xs) = ground (arith, count_where-length q xs)

-- The change of the list `effectiveJobs` for one round of blocked jobs.
abbrev pub skipped_jobs : ℕ → List StoredJob → List StoredJob → List StoredJob
skipped_jobs now blocked =
    update_where (λ j. contains (job_ids blocked) j.id)
      (λ j. record (with_status JobStatus.skipped j) { finished_at = some now })

-- What the loop does to a job of the list: it may become `skipped`.
pub record SkipStep (j j' : StoredJob) : Type 0 where
  pub same : IsSameNode j.node j'.node
  pub running : is_running j'.status ≡ true → is_running j.status ≡ true
  pub waiting : is_waiting j'.status ≡ true → is_waiting j.status ≡ true
  pub enqueued_at : j'.enqueued_at ≡ j.enqueued_at

SkipStep-refl : (j : StoredJob) → SkipStep j j
SkipStep-refl j = record {
  same = record { id = refl; kind = refl; depends_on = refl };
  running = λ h. h;
  waiting = λ h. h;
  enqueued_at = refl;
}

SkipStep-trans : (i j k : StoredJob) → SkipStep i j → SkipStep j k → SkipStep i k
SkipStep-trans i j k s t = record {
  same = record {
    id = t.same.id ∙ s.same.id;
    kind = t.same.kind ∙ s.same.kind;
    depends_on = t.same.depends_on ∙ s.same.depends_on;
  };
  running = λ h. s.running (t.running h);
  waiting = λ h. s.waiting (t.waiting h);
  enqueued_at = t.enqueued_at ∙ s.enqueued_at;
}

skipped_jobs-Rows :
    (now : ℕ) (blocked jobs : List StoredJob) → Rows SkipStep jobs (skipped_jobs now blocked jobs)
skipped_jobs-Rows now blocked jobs =
    Rows-update_where SkipStep (λ j. contains (job_ids blocked) j.id) _ jobs SkipStep-refl
      (λ j m h. record {
        same = record { id = refl; kind = refl; depends_on = refl };
        running = λ t. ground (arith, t);
        waiting = λ t. ground (arith, t);
        enqueued_at = refl;
      })

pub SkipStep-nodes :
    {jobs jobs' : List StoredJob}
    → Rows SkipStep jobs jobs'
    → Rows IsSameNode (map (λ j. j.node) jobs) (map (λ j. j.node) jobs')
SkipStep-nodes no_rows = no_rows
SkipStep-nodes (row s r) = row s.same (SkipStep-nodes r)

contains-mem : (js : List StoredJob) (j : StoredJob) → Memᴰ j js → contains (job_ids js) j.id ≡ true
contains-mem [] j m = elim m [ ]
contains-mem (k ∷ js) j (Memᴰ.head e) = rw e (contains-cons_self k.id (job_ids js))
contains-mem (k ∷ js) j (Memᴰ.tail m) = contains-cons k.id j.id (job_ids js) (contains-mem js j m)

-- In a valid graph the blocked jobs are those that the test finds.
blocked_jobs-eq :
    (jobs : List StoredJob)
    → IsValid (map (λ j. j.node) jobs)
    → blocked_jobs (λ j. j.node) jobs
      ≡ ok (filter (λ j. is_blocked (map (λ k. k.node) jobs) j.node) jobs)
unfolding blocked_jobs
blocked_jobs-eq jobs valid = rw ((validate_job_graph_iff (map (λ j. j.node) jobs)).1 valid)

first_of {ℓ} : {A : Type ℓ} (xs : List A) → is_empty xs ≡ false → (x : A) × Memᴰ x xs
first_of [] h = cc
first_of (x ∷ xs) h = (x, Memᴰ.head refl)

pub is_empty-nil {ℓ} : {A : Type ℓ} (xs : List A) → is_empty xs ≡ true → xs ≡ []
is_empty-nil [] h = refl
is_empty-nil (x ∷ xs) h = cc

-- A round that skips some job leaves fewer queued ones.
fewer_queued :
    (now : ℕ) (jobs : List StoredJob) (test : StoredJob → Bool)
    → ((j : StoredJob) → test j ≡ true → is_queued j.status ≡ true)
    → is_empty (filter test jobs) ≡ false
    → count_where (λ j. is_queued j.status) (skipped_jobs now (filter test jobs) jobs)
      < count_where (λ j. is_queued j.status) jobs
fewer_queued now jobs test idle h =
    let (j, m) = first_of (filter test jobs) h in
    let (mem, hit) = mem-filter test jobs j m in
    count_where-lt (λ k. is_queued k.status) (λ k. contains (job_ids (filter test jobs)) k.id) _
      jobs j (λ k. refl) mem (contains-mem (filter test jobs) j m) (idle j hit)

is_blocked-queued :
    (ns : List JobGraphNode) (n : JobGraphNode) → is_blocked ns n ≡ true → is_queued n.status ≡ true
unfolding is_blocked is_blocked_with
is_blocked-queued ns n h = ground arith

skip_blocked-ok :
    (fuel now : ℕ) (rows jobs : List StoredJob)
    → IsValid (map (λ j. j.node) jobs)
    → count_where (λ j. is_queued j.status) jobs < fuel
    → (r : List StoredJob × List StoredJob) × (skip_blocked fuel now rows jobs ≡ ok r)
      × (blocked_jobs (λ j. j.node) r.1 ≡ ok [])
      × Rows SkipStep jobs r.1
unfolding skip_blocked
skip_blocked-ok zero now rows jobs valid h = absurd (omega arith)
skip_blocked-ok (suc fuel) now rows jobs valid h =
    let found = blocked_jobs-eq jobs valid in
    let test : StoredJob → Bool = λ j. is_blocked (map (λ k. k.node) jobs) j.node in
    elim (Bool-cases (is_empty (filter test jobs))) [
      | inl over ↦ (
        (rows, jobs),
        rw (found, over) refl,
        found ∙ ap (λ (js : List StoredJob). ok js) (is_empty-nil _ over),
        Rows-refl SkipStep SkipStep-refl jobs,
      )
      | inr again ↦
          let step = skipped_jobs-Rows now (filter test jobs) jobs in
          let fewer = fewer_queued now jobs test (λ j. is_blocked-queued _ j.node) again in
          let (r, e, b, rest) =
            skip_blocked-ok fuel now
              (update_where (λ j. contains (job_ids (filter test jobs)) j.id) (skipped_row now)
                rows)
              (skipped_jobs now (filter test jobs) jobs) (IsValid-Rows (SkipStep-nodes step) valid)
              (omega arith) in
          (r, rw (found, again) e, b, Rows-trans SkipStep SkipStep-trans step rest)
    ]

-- On the jobs of a valid graph the loop that skips blocked jobs ends, whatever their statuses, within
-- one round more than there are jobs, and when it ends no job is blocked. It gives no job another
-- place in the graph, and makes none running or waiting.
pub skip_blocked_returns :
    (now : ℕ) (rows jobs : List StoredJob)
    → IsValid (map (λ j. j.node) jobs)
    → (r : List StoredJob × List StoredJob) × (skip_blocked (suc (length jobs)) now rows jobs
        ≡ ok r)
      × (blocked_jobs (λ j. j.node) r.1 ≡ ok [])
      × Rows SkipStep jobs r.1
skip_blocked_returns now rows jobs valid =
    let few = count_where-length (λ (j : StoredJob). is_queued j.status) jobs in
    skip_blocked-ok (suc (length jobs)) now rows jobs valid (omega arith)
