-- ===== src/Limiter/Uniform.antt =====
-- The numbers of the buckets of a limiter of internal/ratelimit.
use madhatter.Base.{
  ℕ, ◌≡◌, refl, sym, ap, subst, ◌∙◌, Bool-cases, Option-cases, some, some_inj, List, [], ◌∷◌, Text,
  text_eq, text_eq_iff, inl, inr,
}
use madhatter.Limiter.{
  TokenBucket, Limiter, new, bucket_of, get_or_new, allow_key, Call, serve_calls,
}
use madhatter.Limiter.Lookup.{allow_key_own, allow_key_other}
use madhatter.Limiter.Paid.{allow-Paid}

-- A bucket with these numbers.
abbrev pub HasNumbers : ℕ → ℕ → ℕ → TokenBucket → Type 0
HasNumbers capacity gain period b = (b.capacity ≡ capacity) × (b.gain ≡ gain) × (b.period ≡ period)

-- A limiter with these numbers, as the bucket of a key has them if there is one.
abbrev pub IsUniform : ℕ → ℕ → ℕ → Text → Limiter → Type 0
IsUniform capacity gain period key l =
    (l.capacity ≡ capacity)
    × (l.gain ≡ gain)
    × (l.period ≡ period)
    × ((b : TokenBucket) → bucket_of key l.buckets ≡ some b → HasNumbers capacity gain period b)

module _ (capacity gain period : ℕ) (key : Text) where
  pub get_or_new-HasNumbers :
      (now : ℕ) (l : Limiter)
      → IsUniform capacity gain period key l
      → HasNumbers capacity gain period (get_or_new key now l)
  unfolding get_or_new
  get_or_new-HasNumbers now l (c, g, p, h) = elim (Option-cases (bucket_of key l.buckets)) [
    | inl fresh ↦ rw (fresh, get_or_new) (c, g, p)
    | inr (b, known) ↦ rw (known, get_or_new) (h b known)
  ]

  allow_key-IsUniform_own :
      (infinite now : ℕ) (l : Limiter)
      → IsUniform capacity gain period key l
      → IsUniform capacity gain period key (allow_key infinite now key l).1
  unfolding allow_key
  allow_key-IsUniform_own infinite now l h = (
    h.0,
    h.1,
    h.2,
    (λ b known.
        let (t, left, pays) = allow-Paid infinite now (get_or_new key now l) in
        let same =
          some_inj (sym known ∙ allow_key_own infinite now key l ∙ ap (λ x. some x) left) in
        subst (HasNumbers capacity gain period) (sym same) (get_or_new-HasNumbers now l h)),
  )

  pub allow_key-IsUniform :
      (infinite now : ℕ) (k : Text) (l : Limiter)
      → IsUniform capacity gain period key l
      → IsUniform capacity gain period key (allow_key infinite now k l).1
  unfolding allow_key
  allow_key-IsUniform infinite now k l h = elim (Bool-cases (text_eq k key)) [
    | inl own ↦
        subst (λ x. IsUniform capacity gain period key (allow_key infinite now x l).1)
          (sym (text_eq_iff k key own)) (allow_key-IsUniform_own infinite now l h)
    | inr other ↦ (
      h.0,
      h.1,
      h.2,
      (λ b known. h.3 b (sym (allow_key_other infinite now k key l other) ∙ known)),
    )
  ]

  pub serve_calls-IsUniform :
      (infinite : ℕ) (cs : List Call) (l : Limiter)
      → IsUniform capacity gain period key l
      → IsUniform capacity gain period key (serve_calls infinite cs l).1
  unfolding serve_calls
  serve_calls-IsUniform infinite [] l h = h
  serve_calls-IsUniform infinite ((now, k) ∷ cs) l h =
      serve_calls-IsUniform infinite cs (allow_key infinite now k l).1
        (allow_key-IsUniform infinite now k l h)

  pub new-IsUniform : IsUniform capacity gain period key (new capacity gain period)
  unfolding bucket_of
  new-IsUniform = (refl, refl, refl, (λ b known. absurd (cc (known))))
