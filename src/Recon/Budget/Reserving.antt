-- ===== src/Recon/Budget/Reserving.antt =====
-- What `reserve` leaves of a request budget.
use kase_ai.Prelude.{string_eq, nat_eq}
