-- ===== src/Wfh/Period.antt =====
-- Quota periods: `ComputePeriodBounds` and what reads it first (internal/wfh/service.go). The
-- program divides by the length of the period, so a length of 0 stops it; such a configuration is
-- outside the model.
pub mod Tiling
use madhatter.Base.{ℕ, Bool, ◌&&◌, Option, none, some, if◌then◌else◌}
use madhatter.Base.Int.{ℤ, pos, negsuc, ◌+ℤ◌, ◌-ℤ◌, ◌/ℤ◌, ◌*ℤ◌, leb_ℤ}
use madhatter.Calendar.{Day}
use madhatter.Wfh.{Config, Service}

-- The first and the last day; a period may start before the year 1.
pub record Period : Type 0 where
  pub period_start : ℤ
  pub period_end : ℤ

-- The count of days from the anchor, divided downwards.
unfoldable pub period_index : ℕ → ℤ → ℤ
period_index period_days (pos n) = pos n /ℤ period_days
period_index period_days (negsuc n) = (negsuc n -ℤ pos period_days +ℤ pos 1) /ℤ period_days

unfoldable pub period_at : ℕ → Day → ℤ → Period
period_at period_days anchor index =
    let start : ℤ = pos anchor +ℤ index *ℤ period_days in
    record { period_start = start; period_end = start +ℤ (pos period_days -ℤ pos 1) }

-- `none` is the error of an anchor that is no date.
unfoldable pub compute_period_bounds : Config → Day → Option Period
unfolding period_index period_at
compute_period_bounds cfg date = elim cfg.period_anchor [
  | none ↦ none
  | some anchor ↦
      some
        (period_at cfg.period_days anchor (period_index cfg.period_days (pos date -ℤ pos anchor)))
]

abbrev pub in_period : Period → Day → Bool
in_period p date = leb_ℤ p.period_start (pos date) && leb_ℤ (pos date) p.period_end

unfoldable pub previous_period_start : Config → Day → Option ℤ
unfolding compute_period_bounds
previous_period_start cfg ref_date = elim (compute_period_bounds cfg ref_date) [
  | none ↦ none
  | some p ↦ some (p.period_start -ℤ pos cfg.period_days)
]
