-- ===== src/Examples/Limits.antt =====
-- Runs of internal/ratelimit/ratelimit.go.
use madhatter.Base.{
  nanoseconds, ◌+◌, ◌-◌, ◌*◌, ◌≤◌, ◌≡◌, ◌≢◌, refl, Option, none, some, List, [], ◌∷◌, keep, Text,
  codes, text_eq, arith,
}
use madhatter.Base.Split.{split}
use madhatter.Limiter.{
  new, refilled, wait_for, allow, bucket_of, set_bucket, get_or_new, allow_key, retry_after_seconds,
  passed, too_many_requests, client_key_from_addr, serve, Call, serve_calls,
}
use madhatter.Limiter.Alone.{is_call_of, is_answer_to, serve_calls-alone}
use madhatter.Limiter.Window.{admitted, admitted-le}
use madhatter.Limiter.Retry.{reached, answer_again, serve_again, serve_too_soon}

first_part : List Text → Option Text
first_part (host ∷ port ∷ []) = some host
first_part _ = none

split_host_port : Text → Option Text
unfolding first_part split
split_host_port addr = first_part (split b':' addr)

abbrev calls : List Call
calls = (1, codes "10.0.0.1") ∷ (2, codes "10.0.0.2") ∷ (3, codes "10.0.0.1") ∷ []

serve_calls-alone_example :
    keep (is_answer_to (codes "10.0.0.1")) (serve_calls 0 calls (new 1 1 10)).0
    ≡ (serve_calls 0 (keep (is_call_of (codes "10.0.0.1")) calls) (new 1 1 10)).0
serve_calls-alone_example = serve_calls-alone 0 (codes "10.0.0.1") calls (new 1 1 10)

admitted-le_example :
    admitted (codes "10.0.0.1") (serve_calls 0 calls (reached 0 1 1 10 calls)).0
      * (10 * nanoseconds)
    ≤ 1 * (10 * nanoseconds) + (3 - 1) * 1
admitted-le_example =
    admitted-le 0 1 1 10 (codes "10.0.0.1") calls 1 3 calls
      (omega arith, (omega arith, (omega arith, omega arith)))

refused :
    (serve split_host_port 0 4 (codes "10.0.0.1:80") (reached 0 1 1 10 calls)).0
    ≡ too_many_requests 10
unfolding serve_calls serve allow_key get_or_new bucket_of set_bucket allow refilled wait_for
    client_key_from_addr retry_after_seconds split_host_port first_part split text_eq
refused = refl

serve_again_example :
    answer_again split_host_port 0
      ((5, codes "10.0.0.2") ∷ [])
      (codes "10.0.0.1:80")
      4
      10_000_000_005
      (reached 0 1 1 10 calls)
    ≡ passed
unfolding client_key_from_addr split_host_port first_part split text_eq
serve_again_example =
    serve_again split_host_port 0 1 1 10 calls ((5, codes "10.0.0.2") ∷ []) (codes "10.0.0.1:80") 4
      10_000_000_005 10 (omega arith) (omega arith) refused refl (omega arith)

serve_too_soon_example :
    answer_again split_host_port 0
      ((5, codes "10.0.0.2") ∷ [])
      (codes "10.0.0.1:80")
      4
      8_000_000_000
      (reached 0 1 1 10 calls)
    ≢ passed
unfolding client_key_from_addr split_host_port first_part split text_eq
serve_too_soon_example =
    serve_too_soon split_host_port 0 1 1 10 calls ((5, codes "10.0.0.2") ∷ []) (codes "10.0.0.1:80")
      4 8_000_000_000 10 (omega arith) refused refl (omega arith) (omega arith)
