-- ===== src/Notify/Token.antt =====
-- internal/notify/token.go: the signed token of an unsubscribe link, `<member_id>.<exp_unix>.<sig>`.
pub mod Decimal
pub mod Issued
pub mod Signed
use Prim.Native.Nat.{◌^◌}
use madhatter.Base.{
  nanoseconds, ℕ, zero, suc, ◌+◌, ◌-◌, ◌*◌, ◌/◌, ◌%◌, ltb, leb, Bool, true, false, not, ◌&&◌, ◌||◌,
  ◌==◌, Option, none, some, List, [], ◌∷◌, ◌++◌, Text, codes, text_eq, trim_space, is_empty,
  if◌then◌else◌,
}
use madhatter.Base.Split.{split}
use madhatter.Base.Int.{ℤ, pos, negsuc, sub_ℕ}
use madhatter.Notify.Worker.{add_duration}

-- HMAC-SHA256 of a key and a message, and base64url without padding.
pub record Crypto : Type 0 where
  pub hmac : Text → Text → Text
  pub encode : Text → Text
  pub decode : Text → Option Text

-- The rounds of a decimal print: `fuel` is one more than the number, which is more than it has digits.
unfoldable pub digits : ℕ → ℕ → Text → Text
digits zero n out = out
digits (suc fuel) n out =
    let d = (48 + n % 10) ∷ out in
    let rest = digits fuel (n / 10) d in if n / 10 == 0 then d else rest

-- `strconv.FormatInt` in base 10.
unfoldable pub format_int : ℤ → Text
unfolding digits
format_int (pos n) = digits (suc n) n []
format_int (negsuc n) = 45 ∷ digits (suc (suc n)) (suc n) []

unfoldable pub scan : Text → ℕ → Option ℕ
scan [] n = some n
scan (c ∷ s) n =
    let rest = scan s (n * 10 + (c - 48)) in if leb 48 c && leb c 57 then rest else none

abbrev pub int64_limit : ℕ
int64_limit = 2 ^ 63

-- The sign was read: its digits, and its range.
unfoldable pub parse_unsigned : Bool → Text → Option ℤ
unfolding scan
parse_unsigned negative s = elim (if is_empty s then none else scan s 0) [
  | none ↦ none
  | some n ↦
      if not negative && ltb n int64_limit
      then some (pos n)
      else if negative && n == 0
      then some (pos 0)
      else if negative && leb n int64_limit
      then some (negsuc (n - 1))
      else none
]

-- `strconv.ParseInt(s, 10, 64)`.
unfoldable pub parse_int : Text → Option ℤ
unfolding parse_unsigned
parse_int [] = none
parse_int (c ∷ s) =
    if c == 43
    then parse_unsigned false s
    else if c == 45
    then parse_unsigned true s
    else parse_unsigned false (c ∷ s)

abbrev pub dot : ℕ
dot = 46

abbrev pub signed_text : Text → Text → Text
signed_text member_id exp_str = member_id ++ (dot ∷ exp_str)

abbrev pub unix_epoch : ℕ
unix_epoch = 62_135_596_800

-- `Unix()` of an instant.
unfoldable pub unix : ℕ → ℤ
unix t = sub_ℕ (t / nanoseconds) unix_epoch

unfoldable pub new_unsubscribe_token_with_ttl : Crypto → Text → Text → ℕ → ℤ → Text
unfolding format_int unix add_duration
new_unsubscribe_token_with_ttl c member_id secret now ttl =
    let body = signed_text member_id (format_int (unix (add_duration now ttl))) in
    body ++ (dot ∷ c.encode (c.hmac secret body))

abbrev pub default_unsubscribe_token_ttl : ℤ
default_unsubscribe_token_ttl = pos (30 * 24 * 3_600 * nanoseconds)

unfoldable pub new_unsubscribe_token : Crypto → Text → Text → ℕ → Text
unfolding new_unsubscribe_token_with_ttl
new_unsubscribe_token c member_id secret now =
    new_unsubscribe_token_with_ttl c member_id secret now default_unsubscribe_token_ttl

pub data Verdict : Type 0 where
  accepted : Text → Verdict
  invalid_token token_expired : Verdict

abbrev pub ltb_int : ℤ → ℤ → Bool
ltb_int (pos m) (pos n) = ltb m n
ltb_int (pos m) (negsuc n) = false
ltb_int (negsuc m) (pos n) = true
ltb_int (negsuc m) (negsuc n) = ltb n m

-- The comparison of the signatures.
unfoldable pub check_signature : Crypto → Text → Text → Text → Text → Verdict
unfolding text_eq
check_signature c secret member_id exp_str payload = elim (c.decode payload) [
  | none ↦ invalid_token
  | some got ↦
      if text_eq (c.hmac secret (signed_text member_id exp_str)) got
      then accepted member_id
      else invalid_token
]

unfoldable pub verify_parts : Crypto → Text → ℤ → List Text → Verdict
unfolding check_signature parse_int
verify_parts c secret now (member_id ∷ exp_str ∷ payload ∷ []) =
    if is_empty member_id || (is_empty exp_str || is_empty payload)
    then invalid_token
    else elim (parse_int exp_str) [
      | none ↦ invalid_token
      | some exp ↦
          if not (ltb_int now exp)
          then token_expired
          else check_signature c secret member_id exp_str payload
    ]
verify_parts c secret now _ = invalid_token

unfoldable pub verify_unsubscribe_token_at : Crypto → Text → Text → ℕ → Verdict
unfolding verify_parts unix split trim_space
verify_unsubscribe_token_at c token secret now =
    verify_parts c secret (unix now) (split dot (trim_space token))

unfoldable pub unsubscribe_url : Crypto → Text → Text → Text → ℕ → Text
unfolding new_unsubscribe_token
unsubscribe_url c base_url member_id secret now =
    if is_empty base_url || (is_empty member_id || is_empty secret)
    then []
    else base_url ++ (codes "/unsubscribe?token=" ++ new_unsubscribe_token c member_id secret now)
