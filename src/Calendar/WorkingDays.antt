-- ===== src/Calendar/WorkingDays.antt =====
-- What `workingDaysBetween` (internal/rota/engine.go) counts.
use madhatter.Base.{ℕ, zero, suc, ◌+◌, ◌-◌, ◌≤◌, ◌≡◌, false, arith}
use madhatter.Calendar.{Day, HolidayChecker, should_skip_date, count_working, working_days_between}

module _ (checker : HolidayChecker) where
  count_working-add :
      (d : Day) (a b : ℕ)
      → count_working checker d (a + b)
        ≡ count_working checker d a + count_working checker (d + a) b
  unfolding count_working
  count_working-add d zero b = ground arith
  count_working-add d (suc a) b =
      let e : suc a + b ≡ suc (a + b) = omega arith in
      let f : d + suc a ≡ suc d + a = omega arith in
      rw (e, f) (ground (arith, count_working-add (suc d) a b))

  -- The working days from one date to a second, and from there to a third, add up to those from the
  -- first to the third, where the dates are in order.
  pub working_days_between-add :
      (a b c : Day)
      → a ≤ b
      → b ≤ c
      → working_days_between checker a c
        ≡ working_days_between checker a b + working_days_between checker b c
  unfolding working_days_between
  working_days_between-add a b c h k = ground (arith, count_working-add a (b - a) (c - b))

  pub working_days_between_next :
      (d : Day) → should_skip_date checker d ≡ false → working_days_between checker d (suc d) ≡ 1
  unfolding working_days_between count_working
  working_days_between_next d h = let e : suc d - d ≡ 1 = omega arith in rw (e, h)

  pub working_days_between_self : (d : Day) → working_days_between checker d d ≡ 0
  unfolding working_days_between count_working
  working_days_between_self d = let e : d - d ≡ 0 = omega arith in rw e
