-- ===== src/Limiter/Retry.antt =====
-- When a client that internal/ratelimit refused comes back.
use madhatter.Base.{
  nanoseconds, ℕ, ◌+◌, ◌-◌, ◌*◌, ◌/◌, ◌≤◌, ◌<◌, ◌≡◌, ◌≢◌, refl, sym, ap, subst, ◌∙◌, true, false,
  leb, ◌==◌, Bool, Bool-cases, ||-false, Option, List, [], ◌∷◌, any, Text, text_eq, leb-false, inl,
  inr, arith,
}
use native.Mathlib.Nat.{lt-div-mul-add, div-mul-le_self, mul-le-mul_right}
use madhatter.Limiter.{
  TokenBucket, token, Limiter, new, bucket_of, get_or_new, refilled, wait_for, allow, allow_key,
  retry_after_seconds, Response, passed, too_many_requests, client_key_from_addr, respond, serve,
  Call, serve_calls,
}
use madhatter.Limiter.Lookup.{allow_key_own, allow_key_other, get_or_new_known}
use madhatter.Limiter.Uniform.{
  IsUniform, get_or_new-HasNumbers, serve_calls-IsUniform, new-IsUniform,
}
use madhatter.Limiter.Alone.{is_call_of}

covers_deficit : (gain deficit gap : ℕ) → 0 < gain → deficit / gain < gap → deficit ≤ gap * gain
covers_deficit gain deficit gap h k =
    omega (arith, lt-div-mul-add {a = deficit} {b = gain} h, mul-le-mul_right gain k)

leaves_deficit : (gain deficit gap : ℕ) → 0 < gain → gap < deficit / gain → gap * gain < deficit
leaves_deficit gain deficit gap h k =
    omega (arith, div-mul-le_self deficit gain, mul-le-mul_right gain k)

retry_after_seconds-ge : (d : ℕ) → d ≤ retry_after_seconds d * nanoseconds
unfolding retry_after_seconds
retry_after_seconds-ge d = ground arith

retry_after_seconds-tight :
    (d gap : ℕ) → gap + nanoseconds < retry_after_seconds d * nanoseconds → gap < d
unfolding retry_after_seconds
retry_after_seconds-tight d gap h = ground arith

too_many_requests-inj : {m n : ℕ} → too_many_requests m ≡ too_many_requests n → m ≡ n
too_many_requests-inj h = cc

respond-false : (a : Bool × ℕ) {r : Response} → a.0 ≡ false → r ≡ respond a → r ≢ passed
respond-false (true, d) e h k = absurd (cc (e))
respond-false (false, d) e h k = absurd (cc (h, k))

-- A bucket that refused, as it was left.
Refused : ℕ → TokenBucket → ℕ → TokenBucket → Type 0
Refused now b secs b' =
    (t : ℕ) × (b' ≡ record b { tokens = t; last_refill = now })
    × (t < token b)
    × (secs ≡ retry_after_seconds ((token b - t) / b.gain))

allow-Refused :
    (infinite now : ℕ) (b : TokenBucket) (secs : ℕ)
    → 0 < b.gain
    → respond (allow infinite now b).0 ≡ too_many_requests secs
    → Refused now b secs (allow infinite now b).1
unfolding Refused allow wait_for
allow-Refused infinite now b secs pos h = elim (Bool-cases (leb (token b) (refilled b now))) [
  | inl enough ↦ absurd (cc (enough, h))
  | inr short ↦
      let less = leb-false (token b) (refilled b now) short in
      let rate : (b.gain == 0) ≡ false = ground arith in
      let told : too_many_requests
            (retry_after_seconds (wait_for infinite b (token b - refilled b now)))
          ≡ too_many_requests secs =
        rw (short, allow) at h in
      let same : wait_for infinite b (token b - refilled b now)
          ≡ (token b - refilled b now) / b.gain =
        rw rate refl in
      rw (short, allow)
        (refilled b now, refl, less, too_many_requests-inj (sym told) ∙ ap retry_after_seconds same)
]

allow_ripe :
    (infinite now later t : ℕ) (b : TokenBucket)
    → 0 < b.gain
    → 0 < b.capacity
    → now + retry_after_seconds ((token b - t) / b.gain) * nanoseconds < later
    → (allow infinite later (record b { tokens = t; last_refill = now })).0 ≡ (true, 0)
unfolding allow refilled
allow_ripe infinite now later t b gain capacity h =
    let wait = (token b - t) / b.gain in
    let gap : wait < later - now = omega (arith, retry_after_seconds-ge wait) in
    let earned = covers_deficit b.gain (token b - t) (later - now) gain gap in
    let full = mul-le-mul_right (token b) capacity in ground (arith, earned, full)

allow_unripe :
    (infinite now soon t : ℕ) (b : TokenBucket)
    → 0 < b.gain
    → t < token b
    → now ≤ soon
    → soon + nanoseconds < now + retry_after_seconds ((token b - t) / b.gain) * nanoseconds
    → (allow infinite soon (record b { tokens = t; last_refill = now })).0.0 ≡ false
unfolding allow refilled
allow_unripe infinite now soon t b gain less h k =
    let wait = (token b - t) / b.gain in
    let gap : soon - now < wait = retry_after_seconds-tight wait (soon - now) (omega arith) in
    let earned = leaves_deficit b.gain (token b - t) (soon - now) gain gap in ground (arith, earned)

serve_calls_others :
    (infinite : ℕ) (key : Text) (cs : List Call) (l : Limiter)
    → any (is_call_of key) cs ≡ false
    → bucket_of key (serve_calls infinite cs l).1.buckets ≡ bucket_of key l.buckets
unfolding serve_calls
serve_calls_others infinite key [] l h = refl
serve_calls_others infinite key ((now, k) ∷ cs) l h =
    let (other, rest) = ||-false (text_eq k key) (any (is_call_of key) cs) h in
    serve_calls_others infinite key cs (allow_key infinite now k l).1 rest
    ∙ allow_key_other infinite now k key l other

-- The next answer to a client, after a call of its own and calls of others.
next_answer :
    (infinite now later : ℕ) (key : Text) (cs : List Call) (l : Limiter)
    → any (is_call_of key) cs ≡ false
    → (allow_key infinite later key (serve_calls infinite cs (allow_key infinite now key l).1).1).0
      ≡ (allow infinite later (allow infinite now (get_or_new key now l)).1).0
unfolding allow_key
next_answer infinite now later key cs l h =
    let l' = (allow_key infinite now key l).1 in
    ap (λ b. (allow infinite later b).0)
      (get_or_new_known key later (serve_calls infinite cs l').1
        (allow infinite now (get_or_new key now l)).1
        (serve_calls_others infinite key cs l' h ∙ allow_key_own infinite now key l))

-- What the bucket of a refused client answers next.
allow_key-Refused :
    (infinite capacity gain period now secs : ℕ) (key : Text) (l : Limiter)
    → 0 < gain
    → IsUniform capacity gain period key l
    → respond (allow_key infinite now key l).0 ≡ too_many_requests secs
    → Refused now (get_or_new key now l) secs (allow infinite now (get_or_new key now l)).1
unfolding allow_key
allow_key-Refused infinite capacity gain period now secs key l g uniform h =
    let b = get_or_new key now l in
    let (_, same, _) = get_or_new-HasNumbers capacity gain period key now l uniform in
    allow-Refused infinite now b secs (subst (λ x. 0 < x) (sym same) g) h

-- The limiter after calls, made with these numbers.
abbrev pub reached : ℕ → ℕ → ℕ → ℕ → List Call → Limiter
reached infinite capacity gain period before =
    (serve_calls infinite before (new capacity gain period)).1

reached-IsUniform :
    (infinite capacity gain period : ℕ) (before : List Call) (key : Text)
    → IsUniform capacity gain period key (reached infinite capacity gain period before)
reached-IsUniform infinite capacity gain period before key =
    serve_calls-IsUniform capacity gain period key infinite before (new capacity gain period)
      (new-IsUniform capacity gain period key)

-- A call, calls of anyone, and a call again: its answer.
abbrev pub answer_again : (Text → Option Text) → ℕ → List Call → Text → ℕ → ℕ → Limiter → Response
answer_again split_host_port infinite cs addr now later l =
    let l' = (serve split_host_port infinite now addr l).1 in
    (serve split_host_port infinite later addr (serve_calls infinite cs l').1).0

-- The answer of a bucket with the numbers, that lacked a token when it told the seconds.
Again : ℕ → ℕ → ℕ → ℕ → ℕ → ℕ → Response → Type 0
Again infinite capacity gain now later secs r =
    (b : TokenBucket) × (t : ℕ) × (b.capacity ≡ capacity)
    × (b.gain ≡ gain)
    × (t < token b)
    × (secs ≡ retry_after_seconds ((token b - t) / b.gain))
    × (r ≡ respond (allow infinite later (record b { tokens = t; last_refill = now })).0)

answer_again-Again :
    (split_host_port : Text → Option Text) (infinite capacity gain period : ℕ)
    (before cs : List Call) (addr : Text) (now later secs : ℕ)
    → 0 < gain
    → (serve split_host_port infinite now addr (reached infinite capacity gain period before)).0
      ≡ too_many_requests secs
    → any (is_call_of (client_key_from_addr split_host_port addr)) cs ≡ false
    → Again infinite capacity gain now later secs (
        answer_again split_host_port infinite cs addr now later
          (reached infinite capacity gain period before))
unfolding serve Again Refused
answer_again-Again split_host_port infinite capacity gain period before cs addr now later secs g h
      others =
    let l = reached infinite capacity gain period before in
    let key = client_key_from_addr split_host_port addr in
    let uniform = reached-IsUniform infinite capacity gain period before key in
    let (cap, rate, _) = get_or_new-HasNumbers capacity gain period key now l uniform in
    let (t, left, less, told) =
      allow_key-Refused infinite capacity gain period now secs key l g uniform h in
    (
      get_or_new key now l,
      t,
      cap,
      rate,
      less,
      told,
      ap respond (next_answer infinite now later key cs l others)
          ∙ ap (λ x. respond (allow infinite later x).0) left,
    )

-- A client that the limiter of a middleware refuses, and that sends nothing before it comes back, is
-- let pass at whatever instant after the seconds it was told, where the capacity and the rate are not
-- zero, whatever the others send and whatever calls came before.
pub serve_again :
    (split_host_port : Text → Option Text) (infinite capacity gain period : ℕ)
    (before cs : List Call) (addr : Text) (now later secs : ℕ)
    → 0 < capacity
    → 0 < gain
    → (serve split_host_port infinite now addr (reached infinite capacity gain period before)).0
      ≡ too_many_requests secs
    → any (is_call_of (client_key_from_addr split_host_port addr)) cs ≡ false
    → now + secs * nanoseconds < later
    → answer_again split_host_port infinite cs addr now later
        (reached infinite capacity gain period before)
      ≡ passed
unfolding Again
serve_again split_host_port infinite capacity gain period before cs addr now later secs c g h others
      late =
    let (b, t, cap, rate, less, told, answer) =
      answer_again-Again split_host_port infinite capacity gain period before cs addr now later secs
        g h others in
    answer
    ∙ ap respond (
        allow_ripe infinite now later t b (subst (λ x. 0 < x) (sym rate) g)
          (subst (λ x. 0 < x) (sym cap) c) (subst (λ x. now + x * nanoseconds < later) told late))

-- A client that the limiter of a middleware refuses, that sends nothing before it comes back, and that
-- comes back with more than one of the seconds left that it was told, is not let pass, where the rate
-- is not zero, whatever the others send and whatever calls came before.
pub serve_too_soon :
    (split_host_port : Text → Option Text) (infinite capacity gain period : ℕ)
    (before cs : List Call) (addr : Text) (now soon secs : ℕ)
    → 0 < gain
    → (serve split_host_port infinite now addr (reached infinite capacity gain period before)).0
      ≡ too_many_requests secs
    → any (is_call_of (client_key_from_addr split_host_port addr)) cs ≡ false
    → now ≤ soon
    → soon + nanoseconds < now + secs * nanoseconds
    → answer_again split_host_port infinite cs addr now soon
        (reached infinite capacity gain period before)
      ≢ passed
unfolding Again
serve_too_soon split_host_port infinite capacity gain period before cs addr now soon secs g h others
      order early =
    let (b, t, cap, rate, less, told, answer) =
      answer_again-Again split_host_port infinite capacity gain period before cs addr now soon secs
        g h others in
    let refused =
      allow_unripe infinite now soon t b (subst (λ x. 0 < x) (sym rate) g) less order
        (subst (λ x. soon + nanoseconds < now + x * nanoseconds) told early) in
    respond-false (allow infinite soon (record b { tokens = t; last_refill = now })).0 refused
      answer
