-- ===== src/Wfh/Quota/Purge.antt =====
-- The purge of old rows and its preview.
use madhatter.Base.{
  ℕ, ◌+◌, ◌-◌, ◌≡◌, refl, sym, Bool, true, false, not, ◌&&◌, ◌==◌, any, Bool-cases, List, [], ◌∷◌,
  keep, length, inl, inr, Option, none, some, Option-cases, arith, ap,
}
use madhatter.Base.Int.{ℤ, pos, leb_ℤ, ◌-ℤ◌}
use madhatter.Store.Exec.{Outcome, ok, err, after}
use madhatter.Wfh.{WfhRequest, WfhAssignmentSwap, Wfh, Service, today_utc}
use madhatter.Wfh.Period.{Period, compute_period_bounds, previous_period_start}
use madhatter.Wfh.Requests.{
  refers_to_old, is_before, purge_wfh_requests_before, count_wfh_requests_before,
}
use madhatter.Wfh.Quota.{
  PurgeResult, purge_off, purge_run, is_purge_enabled, purge_past_periods,
  purge_past_periods_dry_run,
}

length-keep_split :
    (p : WfhRequest → Bool) (rs : List WfhRequest)
    → length rs ≡ length (keep p rs) + length (keep (λ r. not (p r)) rs)
length-keep_split p [] = refl
length-keep_split p (r ∷ rs) = ground (arith, length-keep_split p rs)

counts :
    (cutoff : ℤ) (rs : List WfhRequest)
    → length (keep (is_before cutoff) rs)
      ≡ length rs - length (keep (λ r. not (is_before cutoff r)) rs)
counts cutoff rs = omega (arith, length-keep_split (is_before cutoff) rs)

-- What a purge leaves: the requests from the cutoff on, and the swaps of which no older request is.
abbrev pub is_kept : ℤ → WfhRequest → Bool
is_kept cutoff r = leb_ℤ cutoff (pos r.date)

abbrev pub older : ℤ → List WfhRequest → List WfhRequest
older cutoff rs = keep (λ r. not (is_kept cutoff r)) rs

abbrev pub Purges : Service → Wfh → Outcome Wfh PurgeResult → Type 0
Purges s w (ok purge_off w') = ((s.cfg.enabled && s.cfg.purge_enabled) ≡ false) × (w' ≡ w)
Purges s w (ok (purge_run x) w') =
    (p : Period) × ((s.cfg.enabled && s.cfg.purge_enabled) ≡ true)
    × (compute_period_bounds s.cfg (today_utc s) ≡ some p)
    × (x.cutoff ≡ p.period_start -ℤ pos s.cfg.period_days)
    × (x.rows ≡ length (older x.cutoff w.requests))
    × (w' ≡ record w {
      requests = keep (is_kept x.cutoff) w.requests;
      swaps =
          keep
            (λ (y : WfhAssignmentSwap). not (
              any (λ (r : WfhRequest). r.id == y.requester_wfh_request_id)
                (older x.cutoff w.requests)))
            w.swaps;
    })
Purges s w (err e w') = (compute_period_bounds s.cfg (today_utc s) ≡ none) × (w' ≡ w)

keep_kept :
    (cutoff : ℤ) (rs : List WfhRequest)
    → keep (λ r. not (is_before cutoff r)) rs ≡ keep (is_kept cutoff) rs
keep_kept cutoff [] = refl
keep_kept cutoff (r ∷ rs) = ground (arith, keep_kept cutoff rs)

any-older :
    (cutoff : ℤ) (id : ℕ) (rs : List WfhRequest)
    → any (λ (r : WfhRequest). (r.id == id) && is_before cutoff r) rs
      ≡ any (λ (r : WfhRequest). r.id == id) (older cutoff rs)
any-older cutoff id [] = refl
any-older cutoff id (r ∷ rs) = ground (arith, any-older cutoff id rs)

keep_swaps :
    (cutoff : ℤ) (w : Wfh) (xs : List WfhAssignmentSwap)
    → keep (λ x. not (refers_to_old cutoff w x)) xs
      ≡ keep
          (λ (y : WfhAssignmentSwap). not (
            any (λ (r : WfhRequest). r.id == y.requester_wfh_request_id) (older cutoff w.requests)))
          xs
keep_swaps cutoff w [] = refl
keep_swaps cutoff w (x ∷ xs) =
    ground (arith, keep_swaps cutoff w xs, any-older cutoff x.requester_wfh_request_id w.requests)

-- The result of a call, without the state that it leaves.
abbrev pub result_of : {A : Type 0} → Outcome Wfh A → Option A
result_of (ok a _) = some a
result_of (err _ _) = none

left_by :
    (cutoff : ℤ) (w : Wfh)
    → after (purge_wfh_requests_before cutoff w) ≡ record w {
      requests = keep (is_kept cutoff) w.requests;
      swaps =
          keep
            (λ (y : WfhAssignmentSwap). not (
              any
                (λ (r : WfhRequest). r.id == y.requester_wfh_request_id)
                (older cutoff w.requests)))
            w.swaps;
    }
unfolding purge_wfh_requests_before
left_by cutoff w = rw (keep_kept cutoff w.requests, keep_swaps cutoff w w.swaps) refl

-- The dry run gives the result of the purge, the number of rows included, and changes nothing. The
-- purge, where it is enabled and there is a period, leaves exactly the requests from the start of the
-- period before this one on, and the swaps of which no older request is, and gives the number of the
-- older ones; otherwise it changes nothing.
pub purge_past_periods-Purges :
    (s : Service) (w : Wfh)
    → (result_of (purge_past_periods_dry_run s w) ≡ result_of (purge_past_periods s w))
      × (after (purge_past_periods_dry_run s w) ≡ w)
      × Purges s w (purge_past_periods s w)
unfolding purge_past_periods purge_past_periods_dry_run purge_wfh_requests_before
    count_wfh_requests_before is_purge_enabled previous_period_start
purge_past_periods-Purges s w = elim (Bool-cases (s.cfg.enabled && s.cfg.purge_enabled)) [
  | inr off ↦ rw off (refl, refl, (off, refl))
  | inl on ↦ elim (Option-cases (compute_period_bounds s.cfg (today_utc s))) [
    | inl lost ↦ rw (on, lost) (refl, refl, (lost, refl))
    | inr (p, there) ↦
        let cutoff = p.period_start -ℤ pos s.cfg.period_days in
        rw (on, there)
          (
            ap (λ n. some (purge_run (record { cutoff = cutoff; rows = n })))
                (counts cutoff w.requests),
            refl,
            (p, on, there, refl, sym (counts cutoff w.requests), left_by cutoff w),
          )
  ]
]
