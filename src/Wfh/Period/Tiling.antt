-- ===== src/Wfh/Period/Tiling.antt =====
-- The periods of `ComputePeriodBounds` divide the calendar.
use madhatter.Base.{
  ℕ, suc, ◌+◌, ◌-◌, ◌*◌, ◌/◌, ◌%◌, ◌<◌, ◌≤◌, ◌≡◌, true, arith, ap, subst, sym, ◌∙◌, refl,
  Option-cases, some, none, inl, inr, ◌↔◌, &&-true, some_inj,
}
use madhatter.Base.Int.{
  ℤ, pos, negsuc, pos_part, neg_part, sub_ℕ, ◌+ℤ◌, ◌-ℤ◌, ◌/ℤ◌, ◌*ℤ◌, leb_ℤ, +ℤ_parts, -ℤ_parts,
}
use native.Mathlib.Nat.{mod-lt, div-add-mod', mul-le-mul_right}
use native.Mathlib.Decide.{dec_lt}
use madhatter.Calendar.{Day}
use madhatter.Wfh.{Config}
use madhatter.Wfh.Period.{Period, period_index, period_at, compute_period_bounds, in_period}

-- The index is the quotient rounded down: a number of whole periods and a rest below one.
IsFloor : ℕ → ℤ → ℤ → Type 0
IsFloor m n q = (r : ℕ) × (r < m) × (pos_part n + neg_part q * m ≡ neg_part n + pos_part q * m + r)

lowered : (m n : ℕ) → 0 < m → negsuc n -ℤ pos m +ℤ pos 1 ≡ negsuc (n + m - 1)
unfolding ◌-ℤ◌ ◌+ℤ◌
lowered m n h = ground arith

sub_ℕ_parts : (x : ℕ) → (pos_part (sub_ℕ 0 x) ≡ 0) × (neg_part (sub_ℕ 0 x) ≡ x)
sub_ℕ_parts x = ground arith

period_index-IsFloor : (m : ℕ) (n : ℤ) → 0 < m → IsFloor m n (period_index m n)
unfolding IsFloor period_index ◌/ℤ◌ ◌-ℤ◌ ◌+ℤ◌
period_index-IsFloor m (pos n) h = (n % m, mod-lt n h, omega (arith, div-add-mod' n m))
period_index-IsFloor m (negsuc n) h =
    let k = n + m in
    let e : suc (n + m - 1) ≡ n + m = omega arith in
    let d : k / m * m + k % m ≡ k = div-add-mod' k m in
    let l : k % m < m = mod-lt k h in
    rw (lowered m n h, e, (sub_ℕ_parts (k / m)).0, (sub_ℕ_parts (k / m)).1)
      (m - 1 - k % m, omega (arith, l), omega (arith, d, l))

quotient_le : (a b r r' m : ℕ) → a * m + r ≡ b * m + r' → r' < m → a ≤ b
quotient_le a b r r' m e l = elim (dec_lt b a) [
  | no le ↦ omega arith
  | yes gt ↦ absurd (omega (arith, mul-le-mul_right m gt, e, l))
]

-- Only one index has a rest below the length.
floor_unique : (m : ℕ) (n q q' : ℤ) → IsFloor m n q → IsFloor m n q' → q ≡ q'
unfolding IsFloor
floor_unique m n (pos a) (pos b) (r, l, e) (r', l', e') =
    let le : a ≤ b = quotient_le a b r r' m (omega (arith, e, e')) l' in
    let ge : b ≤ a = quotient_le b a r' r m (omega (arith, e, e')) l in ap pos (omega arith)
floor_unique m n (pos a) (negsuc b) (r, l, e) (r', l', e') = absurd (omega (arith, e, e', l'))
floor_unique m n (negsuc a) (pos b) (r, l, e) (r', l', e') = absurd (omega (arith, e, e', l))
floor_unique m n (negsuc a) (negsuc b) (r, l, e) (r', l', e') =
    let le : a ≤ b = quotient_le a b r' r m (omega (arith, e, e')) l in
    let ge : b ≤ a = quotient_le b a r r' m (omega (arith, e, e')) l' in ap negsuc (omega arith)

*ℤ_parts : (q : ℤ) (m : ℕ) → pos_part (q *ℤ m) + neg_part q * m ≡ neg_part (q *ℤ m) + pos_part q * m
unfolding ◌*ℤ◌
*ℤ_parts (pos a) m = omega arith
*ℤ_parts (negsuc a) m = omega (arith, (sub_ℕ_parts (suc a * m)).0, (sub_ℕ_parts (suc a * m)).1)

-- The date is the first day of the period and a rest below its length.
starts_before :
    (m a d : ℕ) (q : ℤ)
    → IsFloor m (pos d -ℤ pos a) q
    → (r : ℕ) × (r < m) × (pos_part (pos a +ℤ q *ℤ m) + r ≡ d + neg_part (pos a +ℤ q *ℤ m))
unfolding IsFloor
starts_before m a d q (r, l, e) =
    (r, l, omega (arith, e, -ℤ_parts (pos d) (pos a), +ℤ_parts (pos a) (q *ℤ m), *ℤ_parts q m))

ends_after :
    (s : ℤ) (m : ℕ)
    → 0 < m
    → pos_part (s +ℤ (pos m -ℤ pos 1)) + neg_part s + 1
      ≡ neg_part (s +ℤ (pos m -ℤ pos 1)) + pos_part s + m
ends_after s m h = omega (arith, +ℤ_parts s (pos m -ℤ pos 1), -ℤ_parts (pos m) (pos 1))

leb_ℤ_iff : (a b : ℤ) → (leb_ℤ a b ≡ true) ↔ (pos_part a + neg_part b ≤ pos_part b + neg_part a)
unfolding leb_ℤ
leb_ℤ_iff a b = ground arith

period_at_iff :
    (m a d : ℕ) (q : ℤ)
    → 0 < m
    → (in_period (period_at m a q) d ≡ true) ↔ IsFloor m (pos d -ℤ pos a) q
unfolding period_at IsFloor
period_at_iff m a d q h =
    let s : ℤ = pos a +ℤ q *ℤ m in
    let t : ℤ = s +ℤ (pos m -ℤ pos 1) in
    let facts = -ℤ_parts (pos d) (pos a) in
    let length = ends_after s m h in
    let start = +ℤ_parts (pos a) (q *ℤ m) in
    let index = *ℤ_parts q m in
    (
      (λ e.
          let both = &&-true (leb_ℤ s (pos d)) (leb_ℤ (pos d) t) e in
          let lo : pos_part s + 0 ≤ d + neg_part s = (leb_ℤ_iff s (pos d)).0 both.0 in
          let hi : d + neg_part t ≤ pos_part t + 0 = (leb_ℤ_iff (pos d) t).0 both.1 in
          (d + neg_part s - pos_part s, omega (arith, length), omega (arith, facts, start, index))),
      (λ f.
          let (r, l, e) = starts_before m a d q f in
          let lo = (leb_ℤ_iff s (pos d)).1 (omega (arith, e)) in
          let hi = (leb_ℤ_iff (pos d) t).1 (omega (arith, e, l, length)) in rw (lo, hi) refl),
    )

period_of : (cfg : Config) (anchor : Day) → Day → Period
period_of cfg anchor d =
    period_at cfg.period_days anchor (period_index cfg.period_days (pos d -ℤ pos anchor))

bounds-period_of :
    (cfg : Config) (anchor d : Day)
    → cfg.period_anchor ≡ some anchor
    → compute_period_bounds cfg d ≡ some (period_of cfg anchor d)
unfolding compute_period_bounds period_of
bounds-period_of cfg anchor d h = rw h refl

pub compute_period_bounds-some :
    (cfg : Config) (anchor d : Day)
    → cfg.period_anchor ≡ some anchor
    → (p : Period) × (compute_period_bounds cfg d ≡ some p)
compute_period_bounds-some cfg anchor d h =
    (period_of cfg anchor d, bounds-period_of cfg anchor d h)

no_bounds : (cfg : Config) (d : Day) → cfg.period_anchor ≡ none → compute_period_bounds cfg d ≡ none
unfolding compute_period_bounds
no_bounds cfg d h = rw h refl

-- Bounds that were computed are those of an anchor that is a date.
bounds_at :
    (cfg : Config) (d : Day) (p : Period)
    → compute_period_bounds cfg d ≡ some p
    → (anchor : Day) × (cfg.period_anchor ≡ some anchor) × (period_of cfg anchor d ≡ p)
bounds_at cfg d p e = elim (Option-cases cfg.period_anchor) [
  | inl absent ↦ absurd (cc (no_bounds cfg d absent, e))
  | inr (anchor, there) ↦ (anchor, there, some_inj (sym (bounds-period_of cfg anchor d there) ∙ e))
]

-- The period of a date is the only one of the periods in which it lies.
in_period_iff :
    (cfg : Config) (anchor d x : Day)
    → 0 < cfg.period_days
    → (in_period (period_of cfg anchor d) x ≡ true)
      ↔ (period_of cfg anchor x ≡ period_of cfg anchor d)
unfolding period_of
in_period_iff cfg anchor d x h =
    let m : ℕ = cfg.period_days in
    let q : ℤ = period_index m (pos d -ℤ pos anchor) in
    let q' : ℤ = period_index m (pos x -ℤ pos anchor) in
    let own : IsFloor m (pos x -ℤ pos anchor) q' = period_index-IsFloor m _ h in
    (
      (λ e.
          ap (period_at m anchor) (floor_unique m _ q' q own ((period_at_iff m anchor x q h).0 e))),
      (λ e. subst (λ p. in_period p x ≡ true) e ((period_at_iff m anchor x q' h).1 own)),
    )

-- With a period of at least one day, the bounds computed for a date contain a date exactly where the
-- bounds computed for that other date are the same; so the periods cover the calendar and do not
-- overlap.
pub compute_period_bounds-tile :
    (cfg : Config) (d x : Day) (p : Period)
    → 0 < cfg.period_days
    → compute_period_bounds cfg d ≡ some p
    → (in_period p x ≡ true) ↔ (compute_period_bounds cfg x ≡ some p)
compute_period_bounds-tile cfg d x p h e =
    let (anchor, there, here) = bounds_at cfg d p e in
    let other = bounds-period_of cfg anchor x there in
    let iff = in_period_iff cfg anchor d x h in
    rw (← here)
      ((λ inside. other ∙ ap some (iff.0 inside)), (λ same. iff.1 (some_inj (sym other ∙ same))))

-- With a period of at least one day, a period has as many days as the configuration says: its end
-- is its start and one day less than that.
compute_period_bounds-length :
    (cfg : Config) (d : Day) (p : Period)
    → 0 < cfg.period_days
    → compute_period_bounds cfg d ≡ some p
    → pos_part p.period_end + neg_part p.period_start + 1
      ≡ neg_part p.period_end + pos_part p.period_start + cfg.period_days
unfolding period_at period_of
compute_period_bounds-length cfg d p h e =
    let (anchor, there, here) = bounds_at cfg d p e in rw (← here) (ends_after _ cfg.period_days h)
