-- ===== src/Recon/Examples.antt =====
-- The request budget's theorems at an audit of ten requests and two jobs.
use kase_ai.Prelude.{◌≡◌, refl, String, ℕ, [], ◌∷◌, Result, ok, err}
use kase_ai.Recon.Budget.{
  Slot, SlotRequest, ReconTables, katana, active, reserve_requests, settle_requests,
}
use kase_ai.Recon.Budget.Conservation.{IsBalanced, settle_requests-IsBalanced}

abbrev crawl : Slot
crawl = record {
  id = "rr_1";
  audit_id = "aud_1";
  audit_job_id = "job_1";
  stage = katana;
  reserved_count = 6;
  consumed_count = 0;
  status = active;
  lease_expires_at = 5;
}

abbrev tables : ReconTables
tables = record {
  budgets = record { audit_id = "aud_1"; recon_limit = 10; reserved = 6; consumed = 0 } ∷ [];
  slots = crawl ∷ [];
}

tables-IsBalanced : IsBalanced tables
tables-IsBalanced = record { keys = (refl, tt); covers = (refl, tt) }

abbrev again : SlotRequest
again = record {
  audit_id = "aud_1";
  audit_job_id = "job_1";
  stage = katana;
  requested = 7;
  lease_expires_at = 30;
}

abbrev ok_or {ℓ κ} : {E : Type ℓ} {A : Type κ} → A → Result E A → A
ok_or a (ok b) = b
ok_or a (err e) = a

abbrev taken : (String × ℕ) × ReconTables
taken = ok_or (("", 0), tables) (reserve_requests again "rr_1" 9 tables)

abbrev sent : ReconTables
sent = ok_or tables (settle_requests "rr_1" 6 2 4 tables)

sent_lem : settle_requests "rr_1" 6 2 4 tables ≡ ok sent
unfolding settle_requests
sent_lem = refl

settle_example : IsBalanced sent
settle_example = settle_requests-IsBalanced "rr_1" 6 2 4 tables sent sent_lem tables-IsBalanced
