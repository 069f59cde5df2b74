-- ===== src/Limiter.antt =====
-- internal/ratelimit/ratelimit.go and the middleware of internal/api/rate_limit.go.
mod Lookup
pub mod Alone
mod Paid
mod Uniform
pub mod Window
pub mod Retry
use madhatter.Base.{
  nanoseconds, ℕ, suc, ◌+◌, ◌-◌, ◌*◌, ◌/◌, Bool, true, false, ◌&&◌, ltb, leb, ◌==◌, if◌then◌else◌,
  Option, none, some, List, [], ◌∷◌, Text, text_eq,
}

-- `RefillRate` is `gain` tokens in `period` seconds. A token is `period * nanoseconds` of the units
-- in which the tokens are counted, so that `gain` units come with every nanosecond.
pub record TokenBucket : Type 0 where
  capacity : ℕ
  gain : ℕ
  period : ℕ
  tokens : ℕ
  last_refill : ℕ

abbrev pub token : TokenBucket → ℕ
token b = b.period * nanoseconds

abbrev pub new_token_bucket : ℕ → ℕ → ℕ → ℕ → TokenBucket
new_token_bucket capacity gain period now = record {
  capacity = capacity;
  gain = gain;
  period = period;
  tokens = capacity * (period * nanoseconds);
  last_refill = now;
}

-- The tokens after the refill.
unfoldable pub refilled : TokenBucket → ℕ → ℕ
refilled b now =
    let t = b.tokens + (now - b.last_refill) * b.gain in
    if ltb (b.capacity * token b) t then b.capacity * token b else t

-- With no refill the wait is infinite: what its conversion gives is the machine's.
unfoldable pub wait_for : ℕ → TokenBucket → ℕ → ℕ
wait_for infinite b deficit = if b.gain == 0 then infinite else deficit / b.gain

unfoldable pub allow : ℕ → ℕ → TokenBucket → (Bool × ℕ) × TokenBucket
unfolding refilled wait_for
allow infinite now b =
    let t = refilled b now in
    if leb (token b) t
    then ((true, 0), record b { tokens = t - token b; last_refill = now })
    else ((false, wait_for infinite b (token b - t)), record b { tokens = t; last_refill = now })

pub record Limiter : Type 0 where
  capacity : ℕ
  gain : ℕ
  period : ℕ
  buckets : List (Text × TokenBucket)

abbrev pub new : ℕ → ℕ → ℕ → Limiter
new capacity gain period = record {
  capacity = capacity;
  gain = gain;
  period = period;
  buckets = [];
}

unfoldable pub bucket_of : Text → List (Text × TokenBucket) → Option TokenBucket
unfolding text_eq
bucket_of key [] = none
bucket_of key ((k, b) ∷ bs) = if text_eq k key then some b else bucket_of key bs

unfoldable pub set_bucket :
    Text → TokenBucket → List (Text × TokenBucket) → List (Text × TokenBucket)
unfolding text_eq
set_bucket key b [] = (key, b) ∷ []
set_bucket key b ((k, c) ∷ bs) =
    let rest = set_bucket key b bs in if text_eq k key then (k, b) ∷ bs else (k, c) ∷ rest

-- The bucket of a key, made where there is none.
unfoldable pub get_or_new : Text → ℕ → Limiter → TokenBucket
unfolding bucket_of
get_or_new key now l = elim (bucket_of key l.buckets) [
  | none ↦ new_token_bucket l.capacity l.gain l.period now
  | some b ↦ b
]

unfoldable pub allow_key : ℕ → ℕ → Text → Limiter → (Bool × ℕ) × Limiter
unfolding get_or_new allow set_bucket
allow_key infinite now key l =
    let answer = allow infinite now (get_or_new key now l) in
    (answer.0, record l { buckets = set_bucket key answer.1 l.buckets })

-- The header, in whole seconds, rounded up, at least one.
unfoldable pub retry_after_seconds : ℕ → ℕ
retry_after_seconds d =
    let secs = d / nanoseconds in
    let up = if ltb 0 d && ltb (secs * nanoseconds) d then secs + 1 else secs in
    if ltb up 1 then 1 else up

pub data Response : Type 0 where
  passed : Response
  too_many_requests : ℕ → Response

-- `net.SplitHostPort` is given: the host, or none on an error.
unfoldable pub client_key_from_addr : (Text → Option Text) → Text → Text
client_key_from_addr split_host_port addr = elim (split_host_port addr) [
  | none ↦ addr
  | some host ↦ host
]

abbrev pub respond : Bool × ℕ → Response
respond (true, d) = passed
respond (false, d) = too_many_requests (retry_after_seconds d)

unfoldable pub serve : (Text → Option Text) → ℕ → ℕ → Text → Limiter → Response × Limiter
unfolding allow_key client_key_from_addr retry_after_seconds
serve split_host_port infinite now addr l =
    let answer = allow_key infinite now (client_key_from_addr split_host_port addr) l in
    (respond answer.0, answer.1)

-- The calls of the token endpoints of the API, which answer with a fixed number of seconds.
unfoldable pub token_rate_limit_middleware :
    (Text → Option Text) → ℕ → ℕ → Text → Option Limiter → Response × Option Limiter
unfolding allow_key client_key_from_addr
token_rate_limit_middleware split_host_port infinite now addr none = (passed, none)
token_rate_limit_middleware split_host_port infinite now addr (some l) =
    let answer = allow_key infinite now (client_key_from_addr split_host_port addr) l in
    ((if answer.0.0 then passed else too_many_requests 60), some answer.1)

-- The limiters of the program: 10 tokens in a minute for the sign-in, 30 for the tokens of the API.
abbrev pub auth_limiter : Limiter
auth_limiter = new 10 10 60

abbrev pub token_limiter : Limiter
token_limiter = new 30 30 60

-- A call of a key at an instant.
abbrev pub Call : Type 0
Call = ℕ × Text

-- The answers to calls, each with its key.
unfoldable pub serve_calls : ℕ → List Call → Limiter → List (Text × (Bool × ℕ)) × Limiter
unfolding allow_key
serve_calls infinite [] l = ([], l)
serve_calls infinite ((now, key) ∷ cs) l =
    let first = allow_key infinite now key l in
    let rest = serve_calls infinite cs first.1 in ((key, first.0) ∷ rest.0, rest.1)
