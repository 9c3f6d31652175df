-- ===== src/Recon/Budget.antt =====
-- apps/api/src/recon/recon-budget.service.ts: how many requests the recon jobs of an audit may send.
-- The row of a job and a stage is unique, and so is the row of an id.
pub mod Conservation
pub mod Reserving
use kase_ai.Prelude.{
  ℕ, ◌+◌, ◌-◌, min, String, Bool, true, false, not, ◌&&◌, ◌||◌, Option, none, some, List, [], ◌∷◌,
  ◌++◌, ◌==◌, string_eq, nat_eq, Result, ok, err, ◌>>=◌, ◌>>◌, throw_if, or_throw, find, filter,
  leb, ltb, update_where, length, if◌then◌else◌,
}

pub data Stage : Type 0 where
  katana httpx httpx_redirect : Stage

abbrev pub is_stage : Stage → Stage → Bool
is_stage katana katana = true
is_stage httpx httpx = true
is_stage httpx_redirect httpx_redirect = true
is_stage _ _ = false

pub data SlotStatus : Type 0 where
  active settled reclaimed : SlotStatus

abbrev pub is_active_slot : SlotStatus → Bool
is_active_slot active = true
is_active_slot _ = false

-- `ReconRequestReservation`
pub record Slot : Type 0 where
  pub id : String
  pub audit_id : String
  pub audit_job_id : String
  pub stage : Stage
  pub reserved_count : ℕ
  pub consumed_count : ℕ
  pub status : SlotStatus
  pub lease_expires_at : ℕ

-- `ReconRequestBudget`
pub record RequestBudget : Type 0 where
  pub audit_id : String
  pub recon_limit : ℕ
  pub reserved : ℕ
  pub consumed : ℕ

pub record ReconTables : Type 0 where
  pub budgets : List RequestBudget
  pub slots : List Slot

-- `ReconReservationRequest`
pub record SlotRequest : Type 0 where
  pub audit_id : String
  pub audit_job_id : String
  pub stage : Stage
  pub requested : ℕ
  pub lease_expires_at : ℕ

pub data ReconError : Type 0 where
  budget_not_found slot_not_found does_not_fit : ReconError

abbrev pub update_budget : String → (RequestBudget → RequestBudget) → ReconTables → ReconTables
update_budget audit_id f db = record db {
  budgets = update_where (λ b. b.audit_id == audit_id) f db.budgets;
}

abbrev pub update_slot : String → (Slot → Slot) → ReconTables → ReconTables
update_slot id f db = record db { slots = update_where (λ s. s.id == id) f db.slots }

-- What is reserved and lost is charged as consumed.
abbrev pub charged : ℕ → ℕ → RequestBudget → RequestBudget
charged released spent b = record b {
  reserved = b.reserved - released;
  consumed = b.consumed + spent;
}

abbrev pub reclaimed_slot : ℕ → Slot → Slot
reclaimed_slot now s = record s {
  status = reclaimed;
  consumed_count = s.reserved_count;
  lease_expires_at = now;
}

-- `reclaimLocked`
unfoldable pub reclaim : Slot → ℕ → ReconTables → Result ReconError ReconTables
reclaim s now db = do
  _ ← or_throw (find (λ b. b.audit_id == s.audit_id) db.budgets) budget_not_found
  ok (
      update_slot s.id (reclaimed_slot now)
        (update_budget s.audit_id (charged s.reserved_count s.reserved_count) db))

abbrev pub find_slot : SlotRequest → List Slot → Option Slot
find_slot r = find (λ s. s.audit_job_id == r.audit_job_id && is_stage s.stage r.stage)

abbrev pub granted_slot : SlotRequest → ℕ → Slot → Slot
granted_slot r granted s = record s {
  reserved_count = granted;
  consumed_count = 0;
  status = active;
  lease_expires_at = r.lease_expires_at;
}

abbrev pub new_slot : SlotRequest → String → ℕ → Slot
new_slot r id granted = record {
  id = id;
  audit_id = r.audit_id;
  audit_job_id = r.audit_job_id;
  stage = r.stage;
  reserved_count = granted;
  consumed_count = 0;
  status = active;
  lease_expires_at = r.lease_expires_at;
}

abbrev pub more_requests : ℕ → RequestBudget → RequestBudget
more_requests n b = record b { reserved = b.reserved + n }

-- The row of the job and the stage, as the `upsert` leaves it.
abbrev pub upsert_slot : SlotRequest → String → ℕ → Option Slot → ReconTables → ReconTables
upsert_slot r new_id granted none db = record db {
  slots = db.slots ++ new_slot r new_id granted ∷ [];
}
upsert_slot r new_id granted (some s) db = update_slot s.id (granted_slot r granted) db

abbrev pub slot_id : Option Slot → String → String
slot_id none d = d
slot_id (some s) d = s.id

-- The part of `reserve` after an expired row has been reclaimed.
unfoldable pub grant :
    SlotRequest
    → String
    → Option Slot
    → ReconTables
    → Result ReconError ((String × ℕ) × ReconTables)
grant r new_id existing db = do
  b ← or_throw (find (λ b. b.audit_id == r.audit_id) db.budgets) budget_not_found
  let granted = min r.requested (b.recon_limit - b.reserved - b.consumed)
  if granted == 0
      then ok ((slot_id existing "", 0), db)
      else ok (
        (slot_id existing new_id, granted),
        upsert_slot r new_id granted existing (update_budget r.audit_id (more_requests granted) db),
      )

-- `reserve`: the id and the number of requests granted. `new_id` is `deterministicId` of the job and
-- the stage.
unfoldable pub reserve_requests :
    SlotRequest → String → ℕ → ReconTables → Result ReconError ((String × ℕ) × ReconTables)
unfolding grant reclaim
reserve_requests r new_id now db =
    if r.requested == 0 then ok (("", 0), db) else elim (find_slot r db.slots) [
      | none ↦ grant r new_id none db
      | some s ↦
          if is_active_slot s.status && leb now s.lease_expires_at
          then ok ((s.id, s.reserved_count), db)
          else if is_active_slot s.status
          then (reclaim s now db >>= grant r new_id (some s))
          else grant r new_id (some s) db
    ]

abbrev pub settled_slot : ℕ → ℕ → Slot → Slot
settled_slot consumed now s = record s {
  consumed_count = consumed;
  status = settled;
  lease_expires_at = now;
}

-- `settle`, for the id and the number that `reserve` has returned.
unfoldable pub settle_requests : String → ℕ → ℕ → ℕ → ReconTables → Result ReconError ReconTables
settle_requests id granted consumed now db = if id == "" || granted == 0 then ok db else do
  throw_if (ltb granted consumed) does_not_fit
  s ← or_throw (find (λ s. s.id == id) db.slots) slot_not_found
  if not (is_active_slot s.status) then ok db else do
    _ ← or_throw (find (λ b. b.audit_id == s.audit_id) db.budgets) budget_not_found
    ok (
        update_slot s.id (settled_slot consumed now)
          (update_budget s.audit_id (charged s.reserved_count consumed) db))

-- `renewForJob`
unfoldable pub renew_for_job : String → ℕ → ReconTables → ReconTables
renew_for_job audit_job_id lease_expires_at db = record db {
  slots =
      update_where (λ s. s.audit_job_id == audit_job_id && is_active_slot s.status)
        (λ s. record s { lease_expires_at = lease_expires_at }) db.slots;
}

abbrev pub is_expired_slot : ℕ → Slot → Bool
is_expired_slot now s = is_active_slot s.status && ltb s.lease_expires_at now

unfoldable pub reclaim_all : List Slot → ℕ → ReconTables → Result ReconError ReconTables
unfolding reclaim
reclaim_all [] now db = ok db
reclaim_all (s ∷ rest) now db = reclaim s now db >>= reclaim_all rest now

-- `reclaimExpired`, whose sums over the rows of an audit are added row by row.
unfoldable pub reclaim_expired : ℕ → ReconTables → Result ReconError (ℕ × ReconTables)
unfolding reclaim_all
reclaim_expired now db = do
  let rows = filter (is_expired_slot now) db.slots
  db' ← reclaim_all rows now db
  ok (length rows, db')
