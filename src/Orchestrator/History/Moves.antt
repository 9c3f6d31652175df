-- ===== src/Orchestrator/History/Moves.antt =====
-- The life of a job and of an audit: the changes of a row that the operations make.
use mathlib.Core.List.{Memᴰ}
use kase_ai.Prelude.{
  ℕ, suc, ◌-◌, ◌≤◌, max, String, ◌≡◌, refl, Bool, true, false, List, [], ◌∷◌, ◌++◌, arith, Star,
  done, Star-one, Star-trans, Rows, Rows-refl, Rows-trans, Rows-update_where, ◌∙◌,
}
use kase_ai.Orchestrator.AuditState.{AuditStatus, is_terminal_audit_status, audit_status_eq}
use kase_ai.Orchestrator.JobGraph.{is_queued, is_running, is_waiting, is_succeeded, is_terminal}
use kase_ai.Orchestrator.Store.{
  Audit, StoredJob, Tables, is_pending, Message, EventData, AuditEvent, next_event, append_event,
  send, update_jobs, update_audits,
}

-- What identifies a job and places it in its graph, which no operation changes.
pub record IsFrozen (j j' : StoredJob) : Type 0 where
  pub id : j'.id ≡ j.id
  pub audit_id : j'.audit_id ≡ j.audit_id
  pub kind : j'.kind ≡ j.kind
  pub depends_on : j'.depends_on ≡ j.depends_on
  pub max_retries : j'.max_retries ≡ j.max_retries

abbrev pub SameCounters : StoredJob → StoredJob → Type 0
SameCounters j j' = (j'.attempts ≡ j.attempts) × (j'.continuations ≡ j.continuations)

-- How many attempts may fail before a job is given up: a first timeout is always forgiven.
abbrev pub allowance : StoredJob → ℕ
allowance j = max j.max_retries 1

pub data JobMove (j j' : StoredJob) : Type 0 where
  marked : j'.status ≡ j.status → SameCounters j j' → JobMove j j'
  claimed :
      is_queued j.status ≡ true
      → is_running j'.status ≡ true
      → j'.attempts ≡ suc j.attempts
      → j'.continuations ≡ j.continuations
      → JobMove j j'
  suspends :
      is_running j.status ≡ true
      → is_waiting j'.status ≡ true
      → j'.attempts ≡ j.attempts
      → j'.continuations ≡ suc j.continuations
      → JobMove j j'
  ends :
      is_running j.status ≡ true → is_terminal j'.status ≡ true → SameCounters j j' → JobMove j j'
  requeued :
      is_running j.status ≡ true
      → is_queued j'.status ≡ true
      → SameCounters j j'
      → j.attempts - j.continuations ≤ allowance j
      → JobMove j j'
  resumed :
      is_waiting j.status ≡ true → is_queued j'.status ≡ true → SameCounters j j' → JobMove j j'
  dropped :
      is_pending j.status ≡ true
      → is_terminal j'.status ≡ true
      → is_succeeded j'.status ≡ false
      → SameCounters j j'
      → JobMove j j'

pub record JobStep (j j' : StoredJob) : Type 0 where
  pub frozen : IsFrozen j j'
  pub move : JobMove j j'

-- An audit keeps its id, its project and its mode; a terminal state is kept, and `queued` is never
-- returned to.
pub record AuditStep (a a' : Audit) : Type 0 where
  pub id : a'.id ≡ a.id
  pub project_id : a'.project_id ≡ a.project_id
  pub mode : a'.mode ≡ a.mode
  pub terminal : is_terminal_audit_status a.status ≡ true → a'.status ≡ a.status
  pub started : a'.status ≡ AuditStatus.queued → a.status ≡ AuditStatus.queued

abbrev pub JobPath : StoredJob → StoredJob → Type 0
JobPath = Star JobStep

-- One event more, numbered after the last one of its audit.
abbrev pub EventStep : List AuditEvent → List AuditEvent → Type 0
EventStep es es' =
    (id : String) × (content : EventData) × (es' ≡ es ++ next_event id content es ∷ [])

-- The tables before and after: each job along a path, each audit by a step, the events longer.
pub record Evolves (db db' : Tables) : Type 0 where
  pub jobs : Rows JobPath db.jobs db'.jobs
  pub audits : Rows AuditStep db.audits db'.audits
  pub events : Star EventStep db.events db'.events

AuditStep-refl : (a : Audit) → AuditStep a a
AuditStep-refl a = record {
  id = refl;
  project_id = refl;
  mode = refl;
  terminal = λ h. refl;
  started = λ h. h;
}

AuditStep-trans : (a b c : Audit) → AuditStep a b → AuditStep b c → AuditStep a c
AuditStep-trans a b c s t = record {
  id = t.id ∙ s.id;
  project_id = t.project_id ∙ s.project_id;
  mode = t.mode ∙ s.mode;
  terminal = λ h. ground (arith, s.terminal h, t.terminal);
  started = λ h. s.started (t.started h);
}

pub Evolves-refl : (db : Tables) → Evolves db db
Evolves-refl db = record {
  jobs = Rows-refl JobPath (λ j. done) db.jobs;
  audits = Rows-refl AuditStep AuditStep-refl db.audits;
  events = done;
}

pub Evolves-trans : {db₁ db₂ db₃ : Tables} → Evolves db₁ db₂ → Evolves db₂ db₃ → Evolves db₁ db₃
Evolves-trans e f = record {
  jobs = Rows-trans JobPath (λ x y z. Star-trans) e.jobs f.jobs;
  audits = Rows-trans AuditStep AuditStep-trans e.audits f.audits;
  events = Star-trans e.events f.events;
}

pub update_jobs-Evolves :
    (test : StoredJob → Bool) (change : StoredJob → StoredJob) (db : Tables)
    → ((j : StoredJob) → Memᴰ j db.jobs → test j ≡ true → JobStep j (change j))
    → Evolves db (update_jobs test change db)
update_jobs-Evolves test change db k = record {
  jobs = Rows-update_where JobPath test change db.jobs (λ j. done) (λ j m h. Star-one (k j m h));
  audits = Rows-refl AuditStep AuditStep-refl db.audits;
  events = done;
}

pub update_audits-Evolves :
    (test : Audit → Bool) (change : Audit → Audit) (db : Tables)
    → ((a : Audit) → Memᴰ a db.audits → test a ≡ true → AuditStep a (change a))
    → Evolves db (update_audits test change db)
update_audits-Evolves test change db k = record {
  jobs = Rows-refl JobPath (λ j. done) db.jobs;
  audits = Rows-update_where AuditStep test change db.audits AuditStep-refl k;
  events = done;
}

pub append_event-Evolves :
    {db db' : Tables} (id : String) (content : EventData)
    → Evolves db db'
    → Evolves db (append_event id content db')
unfolding append_event
append_event-Evolves id content e = record {
  jobs = e.jobs;
  audits = e.audits;
  events = Star-trans e.events (Star-one (id, content, refl));
}

pub send-Evolves : {db db' : Tables} (m : Message) → Evolves db db' → Evolves db (send m db')
send-Evolves m e = record { jobs = e.jobs; audits = e.audits; events = e.events }
