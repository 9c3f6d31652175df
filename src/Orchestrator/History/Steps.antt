-- ===== src/Orchestrator/History/Steps.antt =====
-- Any sequence of the orchestrator's operations, in any order and with any arguments: workers,
-- scheduler runs and cancellation requests interleave at their transactions.
use mathlib.Core.Path.{subst}
use kase_ai.Prelude.{ℕ, String, ◌≡◌, Option, List, ok, string_eq, Star, done, more}
use kase_ai.Orchestrator.Store.{StoredJob, AgentRun, Tables, Payload}
use kase_ai.Orchestrator.Lifecycle.{JobError, claim, heartbeat, wait_for_child, succeed, fail}
use kase_ai.Orchestrator.Scheduler.{advance, recover}
use kase_ai.Orchestrator.Cancellation.{cancel}
use kase_ai.Orchestrator.History.Moves.{Evolves, Evolves-refl, Evolves-trans}
use kase_ai.Orchestrator.History.Keys.{HasKeys, Evolves-HasKeys}
use kase_ai.Orchestrator.History.Work.{
  heartbeat-Evolves, wait_for_child-Evolves, succeed-Evolves, fail-Evolves,
}
use kase_ai.Orchestrator.History.Claim.{claim-Evolves}
use kase_ai.Orchestrator.History.Advance.{advance-Evolves, recover-Evolves, cancel-Evolves}

-- One operation. An operation that throws leaves the tables as they are, so only those that do not
-- are listed; the tables of the agents, which this part only reads, may change in between.
pub data Step (db db' : Tables) : Type 0 where
  claims :
      (p : Payload) (lease_ms now : ℕ) (r : Option StoredJob × Tables)
      → claim p lease_ms now db ≡ ok r
      → r.1 ≡ db'
      → Step db db'
  beats :
      (id : String) (lease_ms : ℕ) (attempt : Option ℕ) (now : ℕ)
      → (heartbeat id lease_ms attempt now db).1 ≡ db'
      → Step db db'
  waits :
      (p : Payload) (child : String) (attempt : ℕ)
      → wait_for_child p child attempt db ≡ ok db'
      → Step db db'
  succeeds :
      (p : Payload) (attempt : Option ℕ) (now : ℕ) → succeed p attempt now db ≡ db' → Step db db'
  fails :
      (p : Payload) (error : JobError) (attempt : Option ℕ) (now : ℕ)
      → fail p error attempt now db ≡ db'
      → Step db db'
  advances :
      (max_jobs : ℕ) (refusal : String → Option String) (id : String) (now : ℕ)
      → (advance max_jobs refusal id now db).0 ≡ db'
      → Step db db'
  recovers :
      (max_jobs : ℕ) (refusal : String → Option String) (now : ℕ)
      → (recover max_jobs refusal now db).0 ≡ db'
      → Step db db'
  cancels : (id actor : String) (now : ℕ) → cancel id actor now db ≡ ok db' → Step db db'
  agents_run : (runs : List AgentRun) → record db { runs = runs } ≡ db' → Step db db'

abbrev pub Reach : Tables → Tables → Type 0
Reach = Star Step

Step-Evolves : {db db' : Tables} → HasKeys db → Step db db' → Evolves db db'
Step-Evolves {db} {db'} k (claims p l n r e q) = subst (Evolves db) q (claim-Evolves p l n db r k e)
Step-Evolves {db} {db'} k (beats i l a n q) = subst (Evolves db) q (heartbeat-Evolves i l a n db)
Step-Evolves {db} {db'} k (waits p c a e) = wait_for_child-Evolves p c a db db' e
Step-Evolves {db} {db'} k (succeeds p a n q) = subst (Evolves db) q (succeed-Evolves p a n db)
Step-Evolves {db} {db'} k (fails p x a n q) = subst (Evolves db) q (fail-Evolves p x a n db k)
Step-Evolves {db} {db'} k (advances m f i n q) = subst (Evolves db) q (advance-Evolves m f i n db k)
Step-Evolves {db} {db'} k (recovers m f n q) = subst (Evolves db) q (recover-Evolves m f n db k)
Step-Evolves {db} {db'} k (cancels i a n e) = cancel-Evolves i a n db db' e
Step-Evolves {db} {db'} k (agents_run runs q) =
    let same = Evolves-refl db in
    subst (Evolves db) q (record { jobs = same.jobs; audits = same.audits; events = same.events })

pub Reach-Evolves : {db db' : Tables} → HasKeys db → Reach db db' → Evolves db db'
Reach-Evolves k done = Evolves-refl _
Reach-Evolves k (more s r) =
    let e = Step-Evolves k s in Evolves-trans e (Reach-Evolves (Evolves-HasKeys e k) r)
