-- ===== src/Recon/HostLease/Examples.antt =====
-- The theorem on the lease at a worker that renews while another tries.
use kase_ai.Prelude.{
  ◌+◌, ◌≡◌, refl, true, false, none, some, [], ◌∷◌, arith, ok, err, Star, done, more,
}
use kase_ai.Recon.HostLease.{LeaseState, timed_out, try_acquire, renew, acquire}
use kase_ai.Recon.HostLease.Exclusion.{LeaseStep, tries, renews, passes, lease_is_exclusive}

abbrev idle : LeaseState
idle = record { key = none; now = 1_000 }

abbrev taken : LeaseState
taken = record { key = some (record { token = "t1"; expires_at = 61_000 }); now = 1_000 }

abbrev renewed : LeaseState
renewed = record { key = some (record { token = "t1"; expires_at = 71_000 }); now = 11_000 }

taken_run : try_acquire "t1" 60_000 idle ≡ (true, taken)
unfolding try_acquire
taken_run = refl

tried_run : (try_acquire "t2" 60_000 taken).1 ≡ taken
unfolding try_acquire
tried_run = refl

renewed_run : (renew "t1" 60_000 (record taken { now = 11_000 })).1 ≡ renewed
unfolding renew
renewed_run = refl

abbrev steps : Star (LeaseStep "t1") taken renewed
steps =
    more (tries "t2" 60_000 tried_run)
      (more (passes 10_000 refl) (more (renews "t1" 60_000 (omega arith) renewed_run) done))

exclusion_example : try_acquire "t2" 60_000 renewed ≡ (false, renewed)
exclusion_example =
    lease_is_exclusive "t1" 60_000 idle taken renewed "t2" 60_000 (omega arith) taken_run steps
      (omega arith)

expired_run :
    acquire
      ((λ s. record s { now = s.now + 50_000 })
        ∷ (λ s. record s { now = s.now + 20_000 })
        ∷ (λ s. s)
        ∷ [])
      "t2"
      100_000
      60_000
      taken
    ≡ ok (record { key = some (record { token = "t2"; expires_at = 131_000 }); now = 71_000 })
unfolding acquire try_acquire
expired_run = refl

timeout_run :
    acquire ((λ s. record s { now = s.now + 50_000 }) ∷ (λ s. s) ∷ []) "t2" 40_000 60_000 taken
    ≡ err timed_out
unfolding acquire try_acquire
timeout_run = refl
