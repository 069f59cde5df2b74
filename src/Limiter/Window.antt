-- ===== src/Limiter/Window.antt =====
-- How many requests internal/ratelimit lets pass.
use madhatter.Base.{
  nanoseconds, ℕ, ◌+◌, ◌-◌, ◌*◌, ◌≤◌, ◌≡◌, sym, ap, subst, ◌∙◌, true, false, ◌&&◌, Bool, Bool-cases,
  some, List, [], ◌∷◌, keep, length, Text, text_eq, text_eq_iff, text_eq_self, inl, inr, arith,
}
use madhatter.Limiter.{
  TokenBucket, token, Limiter, new, bucket_of, get_or_new, refilled, allow, allow_key, Call,
  serve_calls,
}
use madhatter.Limiter.Lookup.{allow_key_own, allow_key_other, get_or_new_known}
use madhatter.Limiter.Paid.{cost, allow-Paid, refilled-le_full, refilled-le_earned}
use madhatter.Limiter.Uniform.{
  HasNumbers, IsUniform, get_or_new-HasNumbers, allow_key-IsUniform, serve_calls-IsUniform,
  new-IsUniform,
}
use madhatter.Limiter.Alone.{is_answer_to}

-- The requests of a client that passed.
abbrev pub admitted : Text → List (Text × (Bool × ℕ)) → ℕ
admitted key xs = length (keep (λ a. is_answer_to key a && a.1.0) xs)

-- The calls come in order, from one instant to another.
abbrev pub IsWithin : ℕ → ℕ → List Call → Type 0
IsWithin s e [] = s ≤ e
IsWithin s e (c ∷ cs) = (s ≤ c.0) × IsWithin c.0 e cs

admitted_own :
    (key : Text) (ok : Bool) (d t : ℕ) (xs : List (Text × (Bool × ℕ)))
    → text_eq key key ≡ true
    → admitted key ((key, (ok, d)) ∷ xs) * t ≡ cost ok t + admitted key xs * t
admitted_own key true d t xs h = rw h (omega arith)
admitted_own key false d t xs h = rw h (omega arith)

-- The two stretches of a wait.
earned-split :
    (s now e gain : ℕ) → s ≤ now → now ≤ e → (now - s) * gain + (e - now) * gain ≡ (e - s) * gain
earned-split s now e gain h k =
    let whole : (now - s) + (e - now) ≡ e - s = omega arith in
    omega (arith, ap (λ (t : ℕ). t * gain) whole)

IsWithin-le : (s e : ℕ) (cs : List Call) → IsWithin s e cs → s ≤ e
IsWithin-le s e [] h = h
IsWithin-le s e (c ∷ cs) h = omega (arith, h.0, IsWithin-le c.0 e cs h.1)

IsWithin-weaken : (r s e : ℕ) (cs : List Call) → r ≤ s → IsWithin s e cs → IsWithin r e cs
IsWithin-weaken r s e [] k h = omega arith
IsWithin-weaken r s e (c ∷ cs) k h = (omega (arith, h.0), h.1)

-- From a bucket, no more passes than its tokens and what comes in.
abbrev Bounds : ℕ → Text → ℕ → List Call → Limiter → TokenBucket → Type 0
Bounds infinite key e cs l b =
    admitted key (serve_calls infinite cs l).0 * token b ≤ b.tokens + (e - b.last_refill) * b.gain

-- A call of the client itself, and the calls after it.
admitted-le_refilled :
    (infinite : ℕ) (key : Text) (now e : ℕ) (cs : List Call) (l : Limiter)
    → ((b : TokenBucket)
        → bucket_of key (allow_key infinite now key l).1.buckets ≡ some b
        → IsWithin b.last_refill e cs
        → Bounds infinite key e cs (allow_key infinite now key l).1 b)
    → IsWithin now e cs
    → admitted key (serve_calls infinite ((now, key) ∷ cs) l).0 * token (get_or_new key now l)
      ≤ refilled (get_or_new key now l) now + (e - now) * (get_or_new key now l).gain
unfolding serve_calls allow_key
admitted-le_refilled infinite key now e cs l later within =
    let b = get_or_new key now l in
    let (t, left, pays) = allow-Paid infinite now b in
    let rest =
      later (record b { tokens = t; last_refill = now })
        (allow_key_own infinite now key l ∙ ap (λ x. some x) left) within in
    let first =
      admitted_own key (allow infinite now b).0.0 (allow infinite now b).0.1 (token b)
        (serve_calls infinite cs (allow_key infinite now key l).1).0 (text_eq_self key) in
    omega (arith, rest, first, pays)

admitted-le_earned :
    (infinite : ℕ) (key : Text) (e : ℕ) (cs : List Call) (l : Limiter) (b : TokenBucket)
    → bucket_of key l.buckets ≡ some b
    → IsWithin b.last_refill e cs
    → Bounds infinite key e cs l b
unfolding serve_calls
admitted-le_earned infinite key e [] l b known within = omega arith
admitted-le_earned infinite key e ((now, k) ∷ cs) l b known (late, within) =
    elim (Bool-cases (text_eq k key)) [
      | inl own ↦
          let step =
            admitted-le_refilled infinite key now e cs l
              (admitted-le_earned infinite key e cs (allow_key infinite now key l).1) within in
          let found = get_or_new_known key now l b known in
          let first : admitted key (serve_calls infinite ((now, key) ∷ cs) l).0 * token b
              ≤ refilled b now + (e - now) * b.gain =
            subst
              (λ x.
                admitted key (serve_calls infinite ((now, key) ∷ cs) l).0 * token x
                ≤ refilled x now + (e - now) * x.gain)
              found step in
          let split = earned-split b.last_refill now e b.gain late (IsWithin-le now e cs within) in
          let reach = refilled-le_earned b now in
          subst (λ x. Bounds infinite key e ((now, x) ∷ cs) l b) (sym (text_eq_iff k key own))
            (omega (arith, first, split, reach))
      | inr other ↦
          let ih =
            admitted-le_earned infinite key e cs (allow_key infinite now k l).1 b
              (allow_key_other infinite now k key l other ∙ known)
              (IsWithin-weaken b.last_refill now e cs late within) in
          rw (other, admitted) ih
    ]

at_numbers :
    {capacity gain period : ℕ} (n wait : ℕ) (b : TokenBucket) (now : ℕ)
    → HasNumbers capacity gain period b
    → n * token b ≤ refilled b now + wait * b.gain
    → n * (period * nanoseconds) ≤ capacity * (period * nanoseconds) + wait * gain
at_numbers n wait b now (c, g, p) h =
    let full = refilled-le_full b now in
    let own : n * token b ≤ b.capacity * token b + wait * b.gain = omega (arith, full, h) in
    rw (sym c, sym g, sym p) own

-- The client's calls in a stretch of time, from a limiter in whatever state.
admitted-le_window :
    (infinite capacity gain period : ℕ) (key : Text) (s e : ℕ) (cs : List Call) (l : Limiter)
    → IsUniform capacity gain period key l
    → IsWithin s e cs
    → admitted key (serve_calls infinite cs l).0 * (period * nanoseconds)
      ≤ capacity * (period * nanoseconds) + (e - s) * gain
unfolding serve_calls
admitted-le_window infinite capacity gain period key s e [] l h within = omega arith
admitted-le_window infinite capacity gain period key s e ((now, k) ∷ cs) l h (late, within) =
    elim (Bool-cases (text_eq k key)) [
      | inl own ↦
          let numbers = get_or_new-HasNumbers capacity gain period key now l h in
          let step =
            admitted-le_refilled infinite key now e cs l
              (admitted-le_earned infinite key e cs (allow_key infinite now key l).1) within in
          let first =
            at_numbers (admitted key (serve_calls infinite ((now, key) ∷ cs) l).0) (e - now)
              (get_or_new key now l) now numbers step in
          let split = earned-split s now e gain late (IsWithin-le now e cs within) in
          subst
            (λ x.
              admitted key (serve_calls infinite ((now, x) ∷ cs) l).0 * (period * nanoseconds)
              ≤ capacity * (period * nanoseconds) + (e - s) * gain)
            (sym (text_eq_iff k key own)) (omega (arith, first, split))
      | inr other ↦
          let ih =
            admitted-le_window infinite capacity gain period key s e cs
              (allow_key infinite now k l).1
              (allow_key-IsUniform capacity gain period key infinite now k l h)
              (IsWithin-weaken s now e cs late within) in
          rw (other, admitted) ih
    ]

-- In whatever stretch of time, after whatever calls before, a client gets no more requests passed
-- than the capacity and what is refilled in that time, where the calls come in the order of their
-- times.
pub admitted-le :
    (infinite capacity gain period : ℕ) (key : Text) (before : List Call) (s e : ℕ) (cs : List Call)
    → IsWithin s e cs
    → admitted key
          (serve_calls infinite cs (serve_calls infinite before (new capacity gain period)).1).0
        * (period * nanoseconds)
      ≤ capacity * (period * nanoseconds) + (e - s) * gain
admitted-le infinite capacity gain period key before s e cs within =
    admitted-le_window infinite capacity gain period key s e cs
      (serve_calls infinite before (new capacity gain period)).1
      (serve_calls-IsUniform capacity gain period key infinite before (new capacity gain period)
        (new-IsUniform capacity gain period key))
      within
