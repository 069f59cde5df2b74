-- ===== src/Rota/Rotation/Laws.antt =====
-- The `switch` of the rotation indices of internal/rota/engine.go, over the working days in between.
use madhatter.Base.{
  ℕ, suc, ◌+◌, ◌-◌, ◌%◌, ◌≤◌, ◌<◌, ◌≡◌, ◌≢◌, sym, ap, ◌∙◌, false, arith, inl, inr, Bool-cases, ◌==◌,
  ==_iff, ltb, residue, residue-lt, residue_eq, residue-residue, residue_cancel, residue_zero,
  residue_neg,
}
use madhatter.Base.Int.{ℤ, pos, negsuc, pos_part, neg_part, ◌+ℤ◌, ◌-ℤ◌, ◌%ℤ◌, +ℤ_parts, -ℤ_parts}
use madhatter.Calendar.{Day, HolidayChecker, working_days_between, should_skip_date}
use madhatter.Calendar.WorkingDays.{working_days_between-add, working_days_between_next}
use madhatter.Rota.Rotation.{mod_non_negative, index_from}
use native.Mathlib.Nat.{mod-lt, mod_self, mod-eq_of_lt}

pub mod_non_negative-residue :
    (x : ℤ) (m : ℕ) → 0 < m → mod_non_negative x m ≡ residue (pos_part x) (neg_part x) m
unfolding mod_non_negative ◌%ℤ◌
mod_non_negative-residue (pos n) m h = sym (residue_zero n m)
mod_non_negative-residue (negsuc n) m h = ground (
  arith,
  residue_neg (suc n) m h,
  mod-lt (suc n) h,
  mod_self m,
  mod-eq_of_lt {n = m - suc n % m} {m = m},
)

-- The working days from day zero on.
worked : HolidayChecker → Day → ℕ
worked checker d = working_days_between checker 0 d

elapsed :
    (checker : HolidayChecker) (d e : Day)
    → d ≤ e
    → worked checker e ≡ worked checker d + working_days_between checker d e
unfolding worked
elapsed checker d e h = working_days_between-add checker 0 d e (omega arith) h

moved :
    (x : ℤ) (a b m : ℕ)
    → 0 < m
    → pos_part x + b ≡ a + neg_part x
    → mod_non_negative x m ≡ residue a b m
moved x a b m h e = mod_non_negative-residue x m h ∙ residue_eq _ _ a b m h e

-- On every branch the index is the stored one moved by the working days in between.
index_from-residue :
    (checker : HolidayChecker) (d : Day) (i : ℤ) (e : Day) (m : ℕ)
    → 0 < m
    → index_from checker d i e m
      ≡ residue (pos_part i + worked checker e) (neg_part i + worked checker d) m
unfolding index_from
index_from-residue checker d i e m h = elim (Bool-cases (e == d)) [
  | inl same ↦ rw same (moved i _ _ m h (omega (arith, ap (worked checker) ((==_iff e d).0 same))))
  | inr other ↦ elim (Bool-cases (ltb d e)) [
    | inl later ↦
        rw (other, later)
          (moved (i +ℤ pos (working_days_between checker d e)) _ _ m h (
            omega (
              arith,
              +ℤ_parts i (pos (working_days_between checker d e)),
              elapsed checker d e (ground arith),
            )))
    | inr earlier ↦
        rw (other, earlier)
          (moved (i -ℤ pos (working_days_between checker e d)) _ _ m h (
            omega (
              arith,
              -ℤ_parts i (pos (working_days_between checker e d)),
              elapsed checker e d (ground arith),
            )))
  ]
]

module _ (checker : HolidayChecker) (d : Day) (i : ℤ) (m : ℕ) (team : 0 < m) where
  -- The index of a date lies in the team, where that is not empty.
  index_from-lt : (e : Day) → index_from checker d i e m < m
  index_from-lt e =
      rw (index_from-residue checker d i e m team)
        (residue-lt (pos_part i + worked checker e) (neg_part i + worked checker d) m team)

  -- For a team that is not empty, storing the index of a date and asking from there gives what asking
  -- from the start gives: the rotation does not depend on how often it was stored on the way, nor on
  -- the order of the dates.
  pub index_from-index_from :
      (e f : Day)
      → index_from checker e (pos (index_from checker d i e m)) f m ≡ index_from checker d i f m
  index_from-index_from e f =
      index_from-residue checker e (pos (index_from checker d i e m)) f m team
      ∙ ap (λ t. residue (t + worked checker f) (0 + worked checker e) m)
          (index_from-residue checker d i e m team)
      ∙ residue-residue _ _ (worked checker f) (0 + worked checker e) m team
      ∙ residue_eq _ _ _ _ m team (omega arith)
      ∙ sym (index_from-residue checker d i f m team)

  -- For a team that is not empty, from a working day to the next date the index moves to the next
  -- member, and round to the first.
  index_from_next :
      (e : Day)
      → should_skip_date checker e ≡ false
      → index_from checker d i (suc e) m ≡ (index_from checker d i e m + 1) % m
  index_from_next e work =
      index_from-residue checker d i (suc e) m team
      ∙ residue_eq _ _ (pos_part i + worked checker e + 1) (neg_part i + worked checker d + 0) m
          team
          (omega (
            arith,
            elapsed checker e (suc e) (omega arith),
            working_days_between_next checker e work,
          ))
      ∙ sym (
          residue-residue (pos_part i + worked checker e) (neg_part i + worked checker d) 1 0 m
            team)
      ∙ residue_zero _ m
      ∙ ap (λ t. (t + 1) % m) (sym (index_from-residue checker d i e m team))

  -- For a team that is not empty, two dates in order with some working days between them, but fewer
  -- than the team has members, fall to different members: nobody has a second turn before everybody
  -- had one.
  pub index_from_fair :
      (e f : Day)
      → e ≤ f
      → 0 < working_days_between checker e f
      → working_days_between checker e f < m
      → index_from checker d i e m ≢ index_from checker d i f m
  index_from_fair e f h some_days few same = absurd (
      omega (
        arith,
        residue_cancel (pos_part i + worked checker e) (neg_part i + worked checker d)
            (working_days_between checker e f) m few
            (ap (λ t. residue t (neg_part i + worked checker d) m)
                (omega (arith, elapsed checker e f h))
              ∙ sym (index_from-residue checker d i f m team)
              ∙ sym same
              ∙ index_from-residue checker d i e m team),
      ))
