-- ===== src/Wfh/Quota/Agreement.antt =====
-- The check of the quota and the status that is shown agree.
use madhatter.Base.{ℕ, ◌+◌, ◌-◌, ◌≡◌, Bool, ltb, Bool-cases, length, inl, inr, Option-cases, arith}
use madhatter.Calendar.{Day, is_holiday}
use madhatter.Store.Exec.{Outcome, ok, err}
use madhatter.Wfh.{Wfh, Service}
use madhatter.Wfh.Period.{compute_period_bounds}
use madhatter.Wfh.Requests.{get_wfh_requests_voluntary_in_period}
use madhatter.Wfh.Quota.{QuotaStatus, get_quota_status_for_date, check_quota}

-- What a check and a status of one day say of each other, where both give a result.
abbrev pub Agree : ℕ → Outcome Wfh Bool → Outcome Wfh QuotaStatus → Type 0
Agree most (ok free _) (ok q _) =
    (free ≡ ltb 0 q.remaining) × (q.used + q.remaining ≡ most + q.over_quota_by)
Agree most (ok _ _) (err _ _) = ⊥
Agree most (err _ _) q = Unit

-- Where the check of the quota of a member and a date gives a result, so does the status; there is
-- quota left in the one exactly where days remain in the other, and the days used and remaining are
-- together the most allowed and those over it.
pub check_quota-Agree :
    (s : Service) (m : ℕ) (d : Day) (w : Wfh)
    → Agree s.cfg.max_days_per_period (check_quota s m d w) (get_quota_status_for_date s m d w)
unfolding check_quota get_quota_status_for_date
check_quota-Agree s m d w = elim (Bool-cases (is_holiday s.holiday_checker d)) [
  | inl off ↦ rw (Agree, off) tt
  | inr on ↦ elim (Option-cases (compute_period_bounds s.cfg d)) [
    | inl lost ↦ rw (Agree, on, lost) tt
    | inr (p, there) ↦
        rw (Agree, check_quota, get_quota_status_for_date, on, there)
          (numbers s.cfg.max_days_per_period (length (get_wfh_requests_voluntary_in_period m p w)))
  ]
]
  where
    numbers :
        (most used : ℕ)
        → (ltb used most ≡ ltb 0 (most - used)) × (used + (most - used) ≡ most + (used - most))
    numbers most used = (ground arith, ground arith)
