-- ===== src/Limiter/Alone.antt =====
-- The clients of internal/ratelimit do not disturb each other.
use madhatter.Base.{
  ℕ, ◌≡◌, refl, sym, ap, ◌∙◌, false, Bool, Bool-cases, Option-cases, some, List, [], ◌∷◌, keep,
  Text, text_eq, text_eq_iff, inl, inr,
}
use madhatter.Limiter.{Limiter, bucket_of, get_or_new, allow, allow_key, Call, serve_calls}
use madhatter.Limiter.Lookup.{allow_key_own, allow_key_other}

abbrev pub is_call_of : Text → Call → Bool
is_call_of key c = text_eq c.1 key

abbrev pub is_answer_to : Text → Text × (Bool × ℕ) → Bool
is_answer_to key a = text_eq a.0 key

-- Two limiters that a client cannot tell apart.
abbrev Alike : Text → Limiter → Limiter → Type 0
Alike key l m =
    (bucket_of key l.buckets ≡ bucket_of key m.buckets)
    × (l.capacity ≡ m.capacity)
    × (l.gain ≡ m.gain)
    × (l.period ≡ m.period)

get_or_new-Alike :
    (key : Text) (now : ℕ) (l m : Limiter)
    → Alike key l m
    → get_or_new key now l ≡ get_or_new key now m
unfolding get_or_new
get_or_new-Alike key now l m (b, c, g, p) = elim (Option-cases (bucket_of key m.buckets)) [
  | inl fresh ↦ rw (b, get_or_new, fresh, get_or_new, c, g, p) refl
  | inr (x, known) ↦ rw (b, get_or_new, known, get_or_new) refl
]

allow_key-answer :
    (infinite now : ℕ) (key : Text) (l m : Limiter)
    → Alike key l m
    → (allow_key infinite now key l).0 ≡ (allow_key infinite now key m).0
unfolding allow_key
allow_key-answer infinite now key l m h =
    ap (λ b. (allow infinite now b).0) (get_or_new-Alike key now l m h)

allow_key-Alike :
    (infinite now : ℕ) (key : Text) (l m : Limiter)
    → Alike key l m
    → Alike key (allow_key infinite now key l).1 (allow_key infinite now key m).1
unfolding allow_key
allow_key-Alike infinite now key l m h = (
  allow_key_own infinite now key l
      ∙ ap (λ b. some (allow infinite now b).1) (get_or_new-Alike key now l m h)
      ∙ sym (allow_key_own infinite now key m),
  h.1,
  h.2,
  h.3,
)

allow_key-Alike_other :
    (infinite now : ℕ) (key other : Text) (l m : Limiter)
    → text_eq other key ≡ false
    → Alike key l m
    → Alike key (allow_key infinite now other l).1 m
unfolding allow_key
allow_key-Alike_other infinite now key other l m differs h =
    (allow_key_other infinite now other key l differs ∙ h.0, h.1, h.2, h.3)

serve_calls-Alike :
    (infinite : ℕ) (key : Text) (cs : List Call) (l m : Limiter)
    → Alike key l m
    → keep (is_answer_to key) (serve_calls infinite cs l).0
      ≡ (serve_calls infinite (keep (is_call_of key) cs) m).0
unfolding serve_calls
serve_calls-Alike infinite key [] l m h = refl
serve_calls-Alike infinite key ((now, k) ∷ cs) l m h = elim (Bool-cases (text_eq k key)) [
  | inl own ↦
      let same : k ≡ key = text_eq_iff k key own in
      let ih =
        serve_calls-Alike infinite key cs (allow_key infinite now key l).1
          (allow_key infinite now key m).1 (allow_key-Alike infinite now key l m h) in
      rw (own, serve_calls, same, allow_key-answer infinite now key l m h)
        (ap (λ t. (key, (allow_key infinite now key m).0) ∷ t) ih)
  | inr other ↦ rw other (
      serve_calls-Alike infinite key cs (allow_key infinite now k l).1 m
        (allow_key-Alike_other infinite now key k l m other h))
]

-- However the calls of the clients are interleaved, the answers to a client are those that its own
-- calls get from the same limiter when nobody else calls.
pub serve_calls-alone :
    (infinite : ℕ) (key : Text) (cs : List Call) (l : Limiter)
    → keep (is_answer_to key) (serve_calls infinite cs l).0
      ≡ (serve_calls infinite (keep (is_call_of key) cs) l).0
serve_calls-alone infinite key cs l = serve_calls-Alike infinite key cs l l (refl, refl, refl, refl)
