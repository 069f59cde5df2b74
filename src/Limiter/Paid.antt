-- ===== src/Limiter/Paid.antt =====
-- A call of one bucket of internal/ratelimit.
use madhatter.Base.{
  ℕ, ◌+◌, ◌-◌, ◌*◌, ◌≤◌, ◌≡◌, refl, true, false, leb, Bool, Bool-cases, inl, inr, arith,
}
use madhatter.Limiter.{TokenBucket, token, refilled, allow}

abbrev pub cost : Bool → ℕ → ℕ
cost true t = t
cost false t = 0

-- A call changes a bucket's tokens and its instant: what it takes and what it leaves is what was there
-- after the refill.
abbrev pub Paid : ℕ → ℕ → TokenBucket → Type 0
Paid infinite now b =
    (t : ℕ) × ((allow infinite now b).1 ≡ record b { tokens = t; last_refill = now })
    × (cost (allow infinite now b).0.0 (token b) + t ≡ refilled b now)

pub allow-Paid : (infinite now : ℕ) (b : TokenBucket) → Paid infinite now b
unfolding allow
allow-Paid infinite now b = elim (Bool-cases (leb (token b) (refilled b now))) [
  | inl enough ↦ rw (enough, allow) (refilled b now - token b, refl, (ground arith))
  | inr short ↦ rw (short, allow) (refilled b now, refl, omega arith)
]

pub refilled-le_full : (b : TokenBucket) (now : ℕ) → refilled b now ≤ b.capacity * token b
unfolding refilled
refilled-le_full b now = ground arith

pub refilled-le_earned :
    (b : TokenBucket) (now : ℕ) → refilled b now ≤ b.tokens + (now - b.last_refill) * b.gain
unfolding refilled
refilled-le_earned b now = ground arith
