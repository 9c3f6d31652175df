-- ===== src/Orchestrator/History/Advance.antt =====
-- `advance`, `recover` and `cancel`, row by row.
use mathlib.Core.Path.{subst}
use kase_ai.Prelude.{
  ℕ, ◌-◌, String, ◌≡◌, refl, ◌⊎◌, inl, inr, true, false, ◌&&◌, Option, some, List, [], ◌∷◌, arith,
  ok, Result-cases, ◌==◌, string_eq, Bool-cases, Option-cases, is_some, leb,
}
use kase_ai.Orchestrator.AuditState.{audit_status_eq, is_terminal_audit_status}
use kase_ai.Orchestrator.JobGraph.{is_queued, is_running}
use kase_ai.Orchestrator.Store.{Audit, StoredJob, Tables, find_audit}
use kase_ai.Orchestrator.Scheduler.{
  advance_audit, deliver, advance, is_expired, recovered_row, recover_jobs, advance_all, recover,
  is_before, default_lease_ms,
}
use kase_ai.Orchestrator.Cancellation.{cancel, request_cancellation, start_cancellation}
use kase_ai.Orchestrator.History.Moves.{
  JobStep, marked, requeued, ends, Evolves, Evolves-refl, Evolves-trans, update_jobs-Evolves,
  update_audits-Evolves, append_event-Evolves, send-Evolves,
}
use kase_ai.Orchestrator.History.Keys.{HasKeys, find-eq-some, Evolves-HasKeys}
use kase_ai.Orchestrator.History.Schedule.{advance_audit-Evolves, cancelled-Evolves}

pub deliver-Evolves :
    (refusal : String → Option String) (audit : Audit) (js : List StoredJob) (db₀ db : Tables)
    → Evolves db₀ db
    → Evolves db₀ (deliver refusal audit js db).0
unfolding deliver
deliver-Evolves refusal audit [] db₀ db e = e
deliver-Evolves refusal audit (j ∷ js) db₀ db e = elim (Option-cases (refusal j.id)) [
  | inl accepted ↦
      rw (accepted, deliver) (deliver-Evolves refusal audit js db₀ _ (send-Evolves _ e))
  | inr (text, refused) ↦
      rw (refused, deliver)
        (Evolves-trans e (
          update_jobs-Evolves (λ r. r.id == j.id) _ db
            (λ r m h. record { frozen = ground arith; move = marked refl (refl, refl) })))
]

pub advance-Evolves :
    (max_jobs : ℕ) (refusal : String → Option String) (id : String) (now : ℕ) (db : Tables)
    → HasKeys db
    → Evolves db (advance max_jobs refusal id now db).0
unfolding advance
advance-Evolves max_jobs refusal id now db keys = elim (Option-cases (find_audit id db.audits)) [
  | inl missing ↦ rw (missing, advance) (Evolves-refl db)
  | inr (audit, found) ↦
      let (mem, _) = find-eq-some _ db.audits audit found in
      elim (Bool-cases (is_terminal_audit_status audit.status)) [
        | inl over ↦ rw (found, over, advance) (Evolves-refl db)
        | inr open_audit ↦ elim (Result-cases (advance_audit max_jobs audit now db)) [
          | inl (r, moved) ↦
              rw (found, open_audit, moved, advance)
                (deliver-Evolves refusal audit r.1 db r.0
                  (advance_audit-Evolves max_jobs audit now db r keys mem open_audit moved))
          | inr (x, refused) ↦ rw (found, open_audit, refused, advance) (Evolves-refl db)
        ]
      ]
]

recovered_row-JobStep :
    (now : ℕ) (j : StoredJob) → is_running j.status ≡ true → JobStep j (recovered_row now j)
recovered_row-JobStep now j h =
    elim (Bool-cases (leb (j.attempts - j.continuations) j.max_retries)) [
      | inl again ↦ rw again (record {
        frozen = ground arith;
        move = requeued h refl (refl, refl) (ground (arith, again));
      })
      | inr over ↦ rw over (record { frozen = ground arith; move = ends h refl (refl, refl) })
    ]

recover_jobs-Evolves : (now : ℕ) (db : Tables) → Evolves db (recover_jobs now db)
unfolding recover_jobs
recover_jobs-Evolves now db =
    Evolves-trans
      (update_jobs-Evolves (is_expired now) (recovered_row now) db
        (λ j m h. recovered_row-JobStep now j (ground arith)))
      (update_jobs-Evolves
        (λ j. is_queued j.status && is_before j.enqueued_at (now - default_lease_ms)) _ _
        (λ j m h. record { frozen = ground arith; move = marked refl (refl, refl) }))

advance_all-Evolves :
    (max_jobs : ℕ) (refusal : String → Option String) (audits : List Audit) (now : ℕ) (db : Tables)
    → HasKeys db
    → Evolves db (advance_all max_jobs refusal audits now db).0
unfolding advance_all
advance_all-Evolves max_jobs refusal [] now db keys = Evolves-refl db
advance_all-Evolves max_jobs refusal (a ∷ others) now db keys =
    let moved = advance-Evolves max_jobs refusal a.id now db keys in
    elim (Option-cases (advance max_jobs refusal a.id now db).1) [
      | inr (e, failed) ↦ rw (failed, advance_all) moved
      | inl fine ↦
          rw (fine, advance_all)
            (Evolves-trans moved
              (advance_all-Evolves max_jobs refusal others now _ (Evolves-HasKeys moved keys)))
    ]

pub recover-Evolves :
    (max_jobs : ℕ) (refusal : String → Option String) (now : ℕ) (db : Tables)
    → HasKeys db
    → Evolves db (recover max_jobs refusal now db).0
unfolding recover
recover-Evolves max_jobs refusal now db keys =
    let moved = recover_jobs-Evolves now db in
    Evolves-trans moved (advance_all-Evolves max_jobs refusal _ now _ (Evolves-HasKeys moved keys))

request_cancellation-Evolves :
    (id : String) (now : ℕ) (db : Tables) → Evolves db (request_cancellation id now db)
unfolding request_cancellation
request_cancellation-Evolves id now db =
    Evolves-trans (cancelled-Evolves (λ j. j.audit_id == id) now db) (
      update_audits-Evolves (λ a. a.id == id) _ _
        (λ a m h. record {
          id = refl;
          project_id = refl;
          mode = refl;
          terminal = λ t. refl;
          started = λ q. q;
        }))

start_cancellation-Evolves :
    (audit : Audit) (actor : String) (now : ℕ) (db : Tables)
    → Evolves db (start_cancellation audit actor now db)
unfolding start_cancellation
start_cancellation-Evolves audit actor now db =
    let moved = request_cancellation-Evolves audit.id now db in
    append_event-Evolves _ _
      (record { jobs = moved.jobs; audits = moved.audits; events = moved.events })

-- What a request that is not refused has done: it has started the cancellation, or nothing.
pub cancel-eq-ok :
    (id actor : String) (now : ℕ) (db db' : Tables)
    → cancel id actor now db ≡ ok db'
    → (db ≡ db')
      ⊎ ((audit : Audit) × (find_audit id db.audits ≡ some audit)
          × (is_terminal_audit_status audit.status ≡ false)
          × (start_cancellation audit actor now db ≡ db'))
unfolding cancel
cancel-eq-ok id actor now db db' e = elim (Option-cases (find_audit id db.audits)) [
  | inl missing ↦ ground (arith, missing)
  | inr (audit, found) ↦ elim (Bool-cases (is_terminal_audit_status audit.status)) [
    | inl over ↦ inl (ground (arith, found))
    | inr not_over ↦ elim (Bool-cases (is_some audit.cancellation_requested_at)) [
      | inl again ↦ inl (ground (arith, found))
      | inr first ↦ inr (audit, found, not_over, ground (arith, found))
    ]
  ]
]

pub cancel-Evolves :
    (id actor : String) (now : ℕ) (db db' : Tables)
    → cancel id actor now db ≡ ok db'
    → Evolves db db'
cancel-Evolves id actor now db db' e = elim (cancel-eq-ok id actor now db db' e) [
  | inl same ↦ subst (Evolves db) same (Evolves-refl db)
  | inr (audit, _, _, same) ↦
      subst (Evolves db) same (start_cancellation-Evolves audit actor now db)
]
