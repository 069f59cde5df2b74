-- ===== src/Notify/Token/Issued.antt =====
-- A token is accepted until it expires.
use madhatter.Base.{
  ℕ, ◌<◌, ◌≡◌, refl, ap, ◌∙◌, true, false, ◌&&◌, ◌||◌, ◌==◌, Bool-cases, some, [], ◌∷◌, ◌++◌, Text,
  All, All-imp, text_eq_self, trim_space, trim_space_solid, is_space, IsSolid, is_empty,
  if◌then◌else◌, inl, inr, arith, leb,
}
use mathlib.Core.List.{append_assoc}
use madhatter.Base.Int.{ℤ, pos}
use madhatter.Notify.Worker.{add_duration}
use madhatter.Notify.Token.{
  Crypto, dot, signed_text, unix, format_int, parse_int, int64_limit, accepted, token_expired,
  ltb_int, check_signature, verify_parts, verify_unsubscribe_token_at,
  new_unsubscribe_token_with_ttl,
}
use madhatter.Notify.Token.Decimal.{
  IsDigit, parse_int-format_int, format_int-IsDigit, format_int-not_empty,
}
use madhatter.Base.Split.{Lacks, split, split-Lacks, split-append}

-- The alphabet of base64url.
abbrev pub IsUrlChar : ℕ → Type 0
IsUrlChar c =
    ((leb 48 c && leb c 57)
      || ((leb 65 c && leb c 90) || ((leb 97 c && leb c 122) || (c == 45 || c == 95))))
    ≡ true

-- What is relied on: base64url is read back, has its alphabet and is not empty for a signature.
pub record IsCrypto (c : Crypto) : Type 0 where
  pub read_back : (t : Text) → c.decode (c.encode t) ≡ some t
  pub url_chars : (t : Text) → All IsUrlChar (c.encode t)
  pub not_empty : (k m : Text) → is_empty (c.encode (c.hmac k m)) ≡ false

url_char-IsSolid : (c : ℕ) → IsUrlChar c → IsSolid c
unfolding is_space
url_char-IsSolid c h = ground arith

url_char-dot : (c : ℕ) → IsUrlChar c → (c == dot) ≡ false
url_char-dot c h = ground arith

digit-dot : (c : ℕ) → IsDigit c → (c == dot) ≡ false
digit-dot c h = ground arith

check_signature_own :
    (c : Crypto) (secret m e : Text)
    → IsCrypto c
    → check_signature c secret m e (c.encode (c.hmac secret (signed_text m e))) ≡ accepted m
unfolding check_signature
check_signature_own c secret m e ok =
    rw
      (
        ok.read_back (c.hmac secret (signed_text m e)),
        check_signature,
        text_eq_self (c.hmac secret (signed_text m e)),
      )
      refl

trim_token :
    (m0 : ℕ) (m exp_str sig : Text)
    → IsSolid m0
    → All IsSolid sig
    → trim_space (signed_text (m0 ∷ m) exp_str ++ (dot ∷ sig))
      ≡ signed_text (m0 ∷ m) exp_str ++ (dot ∷ sig)
unfolding is_space
trim_token m0 m exp_str sig solid sig_solid =
    trim_space_solid m0 (m ++ (dot ∷ exp_str)) (dot ∷ sig) solid (refl, sig_solid) refl

split_token :
    (m exp_str sig : Text)
    → Lacks dot m
    → Lacks dot exp_str
    → Lacks dot sig
    → split dot (signed_text m exp_str ++ (dot ∷ sig)) ≡ m ∷ exp_str ∷ sig ∷ []
split_token m exp_str sig hm he hs =
    ap (split dot) (append_assoc m (dot ∷ exp_str) (dot ∷ sig))
    ∙ split-append dot m (exp_str ++ (dot ∷ sig)) hm
    ∙ ap (λ t. m ∷ t)
        (split-append dot exp_str sig he ∙ ap (λ t. exp_str ∷ t) (split-Lacks dot sig hs))

verify_own_parts :
    (c : Crypto) (secret : Text) (m0 : ℕ) (m exp_str : Text) (now e : ℤ)
    → IsCrypto c
    → is_empty exp_str ≡ false
    → parse_int exp_str ≡ some e
    → verify_parts c secret now
        ((m0 ∷ m) ∷ exp_str ∷ c.encode (c.hmac secret (signed_text (m0 ∷ m) exp_str)) ∷ [])
      ≡ (if ltb_int now e then accepted (m0 ∷ m) else token_expired)
unfolding verify_parts
verify_own_parts c secret m0 m exp_str now e ok given parsed =
    let body = signed_text (m0 ∷ m) exp_str in
    elim (Bool-cases (ltb_int now e)) [
      | inl early ↦
          rw (given, ok.not_empty secret body, parsed, verify_parts, early)
            (check_signature_own c secret (m0 ∷ m) exp_str ok)
      | inr late ↦ rw (given, ok.not_empty secret body, parsed, verify_parts, late) refl
    ]

own_token :
    (c : Crypto) (secret : Text) (m0 : ℕ) (m exp_str : Text) (now e : ℤ)
    → IsCrypto c
    → IsSolid m0
    → Lacks dot (m0 ∷ m)
    → Lacks dot exp_str
    → is_empty exp_str ≡ false
    → parse_int exp_str ≡ some e
    → let body = signed_text (m0 ∷ m) exp_str in
      verify_parts c secret now
        (split dot (trim_space (body ++ (dot ∷ c.encode (c.hmac secret body)))))
      ≡ (if ltb_int now e then accepted (m0 ∷ m) else token_expired)
own_token c secret m0 m exp_str now e ok solid lacks no_dot given parsed =
    let body = signed_text (m0 ∷ m) exp_str in
    let sig = c.encode (c.hmac secret body) in
    let chars = ok.url_chars (c.hmac secret body) in
    ap (λ t. verify_parts c secret now (split dot t))
      (trim_token m0 m exp_str sig solid (All-imp _ _ sig url_char-IsSolid chars))
    ∙ ap (verify_parts c secret now)
        (split_token (m0 ∷ m) exp_str sig lacks no_dot (All-imp _ _ sig url_char-dot chars))
    ∙ verify_own_parts c secret m0 m exp_str now e ok given parsed

-- A token of a member, whose id is a text with no dot that starts with no space, is accepted for that
-- member until it expires, and then refused as expired.
pub verify-new_unsubscribe_token :
    (c : Crypto) (m0 : ℕ) (m secret : Text) (now later e : ℕ) (ttl : ℤ)
    → IsCrypto c
    → IsSolid m0
    → Lacks dot (m0 ∷ m)
    → unix (add_duration now ttl) ≡ pos e
    → e < int64_limit
    → verify_unsubscribe_token_at c
        (new_unsubscribe_token_with_ttl c (m0 ∷ m) secret now ttl)
        secret
        later
      ≡ (if ltb_int (unix later) (pos e) then accepted (m0 ∷ m) else token_expired)
unfolding verify_unsubscribe_token_at new_unsubscribe_token_with_ttl
verify-new_unsubscribe_token c m0 m secret now later e ttl ok solid lacks expiry fits = rw expiry (
    own_token c secret m0 m (format_int (pos e)) (unix later) (pos e) ok solid lacks
      (All-imp _ _ (format_int (pos e)) digit-dot (format_int-IsDigit e)) (format_int-not_empty e)
      (parse_int-format_int e fits))
