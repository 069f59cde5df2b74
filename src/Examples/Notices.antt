-- ===== src/Examples/Notices.antt =====
-- Runs of internal/notify: an outbox with two notices, a channel that is busy once, and a signature
-- that is no real one.
use madhatter.Base.{
  nanoseconds, ℕ, zero, suc, ◌+◌, ◌*◌, ◌≡◌, refl, ap, ◌∙◌, true, false, ◌==◌, Option, none, some,
  List, [], ◌∷◌, ◌++◌, Text, codes, any, All, is_space, if◌then◌else◌, arith,
}
use madhatter.Base.Int.{ℤ, pos, negsuc}
use madhatter.Notify.{OutboxEntry, Outbox}
use madhatter.Notify.Table.{is_pending, new_entry}
use madhatter.Notify.Worker.{Worker, max_backoff, add_duration, run}
use madhatter.Notify.Worker.Settles.{run-settles}
use madhatter.Notify.Worker.Untouched.{Bounded, run-Bounded}
use madhatter.Notify.Events.{swap_requested, SwapEvent, swap}
use madhatter.Notify.Recipients.{Directory, set_notification_email_enabled}
use madhatter.Notify.Enqueue.{RecipientRef, ChannelNotifier, resolve_recipient, enqueue}
use madhatter.Notify.Enqueue.Written.{Writes}
use madhatter.Notify.Enqueue.Exact.{NoticesOf, enqueue-Writes}
use madhatter.Notify.Enqueue.Reached.{with_directory, unsubscribed-silent}
use madhatter.Notify.Token.{
  Crypto, dot, signed_text, unix, accepted, token_expired, ltb_int, parse_int,
  verify_unsubscribe_token_at, new_unsubscribe_token_with_ttl, default_unsubscribe_token_ttl,
  unix_epoch,
}
use madhatter.Notify.Token.Issued.{IsCrypto, IsUrlChar, verify-new_unsubscribe_token}
use madhatter.Notify.Token.Signed.{verify-IsSigned}
use madhatter.Base.{trim_space}

abbrev noon : ℕ
noon = (unix_epoch + 1_764_244_800) * nanoseconds

abbrev entry : ℕ → OutboxEntry
entry id =
    new_entry id noon (codes "swap.requested") (codes "email") (codes "bo@x.no") (codes "Bo")
      (codes "Swap") (codes "Ada asks") []

abbrev outbox : Outbox
outbox = record { rows = entry 500 ∷ entry 501 ∷ []; calls = []; uuid = λ n. 600 + n; drawn = 0 }

-- The first call of the channel fails.
abbrev worker : Worker
worker = record {
  resolve = λ _. some (λ n _. if n == 0 then some (codes "busy") else none);
  max_attempts = 5;
  backoff_base = 30 * nanoseconds;
  out_of_range = λ _. negsuc 0;
  by_next = λ _ _. true;
}

abbrev hourly : ℕ → ℕ → List ℕ
hourly zero t = []
hourly (suc n) t = t ∷ hourly n (t + max_backoff)

run-settles_example :
    any (λ (r : OutboxEntry). is_pending r.status) (run worker (hourly 10 noon) outbox).rows ≡ false
run-settles_example =
    run-settles worker (hourly 10 noon) noon outbox ((λ _. omega arith), ((λ _. omega arith), tt))
      (omega arith) (omega arith)

run-Bounded_example : Bounded worker outbox (run worker (hourly 2 noon) outbox)
run-Bounded_example = run-Bounded worker (hourly 2 noon) outbox (refl, (refl, tt))

abbrev asked : SwapEvent
asked = record {
  swap_id = codes "s1";
  requester_member_id = 1;
  requester_name = codes "Ada";
  target_member_id = 2;
  target_name = codes "Bo";
  requester_date = codes "2025-11-28";
  target_date = codes "2025-12-01";
  actor_name = codes "Ada";
  reason = [];
}

abbrev directory : Directory
directory = record {
  contacts =
      record { id = 1; name = codes "Ada"; email = codes "ada@x.no" }
      ∷ record { id = 2; name = codes "Bo"; email = codes "bo@x.no" }
      ∷ [];
  preferences = [];
  admins = [];
  is_address = λ _. true;
}

abbrev notifier : ChannelNotifier
notifier = record {
  base_url = codes "https://hat.no";
  subject = λ _ _. some (codes "Swap");
  body = λ _ d. some d.requester_name;
  trim_right = λ t. t;
  unsubscribe_fn = none;
  enabled = codes "email" ∷ [];
  kind_name = λ _. codes "swap.requested";
  now = noon;
  directory = directory;
}

abbrev bo : RecipientRef
bo = record { id = 2; name = codes "Bo" }

enqueue-Writes_example :
    (cs : List OutboxEntry) × NoticesOf notifier swap_requested (swap asked) (bo ∷ []) cs
    × Writes cs outbox (enqueue notifier swap_requested (swap asked) (bo ∷ []) outbox)
enqueue-Writes_example =
    enqueue-Writes notifier swap_requested (swap asked) (bo ∷ []) outbox
      ((λ k h. ground arith), (λ j k h. ground arith))

unsubscribed-silent_example :
    (enqueue
        (with_directory
          (set_notification_email_enabled noon 2 false (some noon) directory)
          notifier)
        swap_requested
        (swap asked)
        (record { id = 2; name = codes "Bo" } ∷ [])
        outbox
      ≡ outbox)
    × ((1 == 2) ≡ false
        → resolve_recipient
            (with_directory
              (set_notification_email_enabled noon 2 false (some noon) directory)
              notifier)
            (record { id = 1; name = [] })
          ≡ resolve_recipient notifier (record { id = 1; name = [] }))
unsubscribed-silent_example =
    unsubscribed-silent notifier noon 2 (some noon) swap_requested (swap asked) (codes "Bo")
      (record { id = 1; name = [] }) outbox refl

-- Each number in strokes, with an end mark.
abbrev strokes : ℕ → Text → Text
strokes zero s = b'B' ∷ s
strokes (suc n) s = b'A' ∷ strokes n s

abbrev encode : Text → Text
encode [] = []
encode (c ∷ s) = strokes c (encode s)

abbrev decode : ℕ → Text → Option Text
decode n [] = some []
decode n (c ∷ s) =
    if c == b'B'
    then (elim (decode 0 s) [ none ↦ none | some t ↦ some (n ∷ t) ])
    else decode (suc n) s

decode-strokes :
    (m n : ℕ) (s t : Text) → decode 0 s ≡ some t → decode n (strokes m s) ≡ some ((n + m) ∷ t)
decode-strokes zero n s t h = rw (h, decode) (ap (λ k. some (k ∷ t)) (omega arith))
decode-strokes (suc m) n s t h =
    decode-strokes m (suc n) s t h ∙ ap (λ k. some (k ∷ t)) (omega arith)

decode-encode : (s : Text) → decode 0 (encode s) ≡ some s
decode-encode [] = refl
decode-encode (c ∷ s) =
    decode-strokes c 0 (encode s) s (decode-encode s) ∙ ap (λ k. some (k ∷ s)) (omega arith)

strokes-IsUrlChar : (m : ℕ) (s : Text) → All IsUrlChar s → All IsUrlChar (strokes m s)
strokes-IsUrlChar zero s h = (refl, h)
strokes-IsUrlChar (suc m) s h = (refl, strokes-IsUrlChar m s h)

encode-IsUrlChar : (s : Text) → All IsUrlChar (encode s)
encode-IsUrlChar [] = tt
encode-IsUrlChar (c ∷ s) = strokes-IsUrlChar c (encode s) (encode-IsUrlChar s)

abbrev crypto : Crypto
crypto = record { hmac = λ key msg. 1 ∷ (key ++ msg); encode = encode; decode = decode 0 }

crypto-IsCrypto : IsCrypto crypto
crypto-IsCrypto = record {
  read_back = decode-encode;
  url_chars = encode-IsUrlChar;
  not_empty = λ _ _. refl;
}

abbrev token : Text
token =
    new_unsubscribe_token_with_ttl crypto (codes "m2") (codes "key") noon
      default_unsubscribe_token_ttl

abbrev expiry : ℕ
expiry = 1_764_244_800 + 30 * 24 * 3_600

verify-new_unsubscribe_token_example :
    verify_unsubscribe_token_at crypto token (codes "key") noon
    ≡ (if ltb_int (unix noon) (pos expiry) then accepted (codes "m2") else token_expired)
unfolding unix add_duration
verify-new_unsubscribe_token_example =
    verify-new_unsubscribe_token crypto b'm' (codes "2") (codes "key") noon noon expiry
      default_unsubscribe_token_ttl crypto-IsCrypto (unfold is_space in refl) (refl, (refl, tt))
      refl (omega arith)

accepted_now : verify_unsubscribe_token_at crypto token (codes "key") noon ≡ accepted (codes "m2")
unfolding unix add_duration
accepted_now =
    verify-new_unsubscribe_token crypto b'm' (codes "2") (codes "key") noon noon expiry
      default_unsubscribe_token_ttl crypto-IsCrypto (unfold is_space in refl) (refl, (refl, tt))
      refl (omega arith)

verify-IsSigned_example :
    (exp_str payload : Text) × (trim_space token
      ≡ signed_text (codes "m2") exp_str ++ (dot ∷ payload))
    × ((exp : ℤ) × (parse_int exp_str ≡ some exp) × (ltb_int (unix noon) exp ≡ true))
    × (decode 0 payload ≡ some (1 ∷ (codes "key" ++ signed_text (codes "m2") exp_str)))
verify-IsSigned_example = verify-IsSigned crypto token (codes "key") noon (codes "m2") accepted_now
