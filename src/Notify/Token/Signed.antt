-- ===== src/Notify/Token/Signed.antt =====
-- What a token that is accepted holds.
use madhatter.Base.{
  ℕ, ◌≡◌, sym, ap, ◌∙◌, true, ◌||◌, Bool-cases, Option-cases, some, List, [], ◌∷◌, ◌++◌, Text,
  text_eq, text_eq_iff, trim_space, is_empty, inl, inr,
}
use mathlib.Core.List.{append_assoc}
use madhatter.Base.Int.{ℤ}
use madhatter.Notify.Token.{
  Crypto, dot, signed_text, unix, parse_int, accepted, ltb_int, check_signature, verify_parts,
  verify_unsubscribe_token_at,
}
use madhatter.Base.Split.{split, join, join-split}

accepted_inj : {a b : Text} → accepted a ≡ accepted b → a ≡ b
accepted_inj h = cc

check_signature-IsSigned :
    (c : Crypto) (secret m exp_str payload member : Text)
    → check_signature c secret m exp_str payload ≡ accepted member
    → (m ≡ member) × (c.decode payload ≡ some (c.hmac secret (signed_text m exp_str)))
unfolding check_signature
check_signature-IsSigned c secret m exp_str payload member h =
    elim (Option-cases (c.decode payload)) [
      | inl bad ↦ absurd (cc (rw (bad, check_signature) at h))
      | inr (got, decoded) ↦
          let sig = c.hmac secret (signed_text m exp_str) in
          elim (Bool-cases (text_eq sig got)) [
            | inl same ↦ (
              accepted_inj (rw (decoded, check_signature, same) at h),
              decoded ∙ ap some (sym (text_eq_iff sig got same)),
            )
            | inr other ↦ absurd (cc (rw (decoded, check_signature, other) at h))
          ]
    ]

-- The parts of a token that is accepted.
abbrev HasParts : Crypto → Text → ℤ → Text → List Text → Type 0
HasParts c secret now member ps =
    (exp_str payload : Text) × (ps ≡ member ∷ exp_str ∷ payload ∷ [])
    × ((exp : ℤ) × (parse_int exp_str ≡ some exp) × (ltb_int now exp ≡ true))
    × (c.decode payload ≡ some (c.hmac secret (signed_text member exp_str)))

verify_parts-HasParts :
    (c : Crypto) (secret : Text) (now : ℤ) (member : Text) (ps : List Text)
    → verify_parts c secret now ps ≡ accepted member
    → HasParts c secret now member ps
unfolding verify_parts
verify_parts-HasParts c secret now member [] h = absurd (cc h)
verify_parts-HasParts c secret now member (a ∷ []) h = absurd (cc h)
verify_parts-HasParts c secret now member (a ∷ b ∷ []) h = absurd (cc h)
verify_parts-HasParts c secret now member (a ∷ b ∷ d ∷ x ∷ ps) h = absurd (cc h)
verify_parts-HasParts c secret now member (m ∷ exp_str ∷ payload ∷ []) h =
    elim (Bool-cases (is_empty m || (is_empty exp_str || is_empty payload))) [
      | inl blank ↦ absurd (cc (rw blank at h))
      | inr given ↦ elim (Option-cases (parse_int exp_str)) [
        | inl bad ↦ absurd (cc (rw (given, bad, verify_parts) at h))
        | inr (exp, parsed) ↦ elim (Bool-cases (ltb_int now exp)) [
          | inl early ↦
              let (named, signed) =
                check_signature-IsSigned c secret m exp_str payload member
                  (rw (given, parsed, verify_parts, early) at h) in
              (
                exp_str,
                payload,
                ap (λ t. t ∷ exp_str ∷ payload ∷ []) named,
                (exp, parsed, early),
                signed ∙ ap (λ t. some (c.hmac secret (signed_text t exp_str))) named,
              )
          | inr late ↦ absurd (cc (rw (given, parsed, verify_parts, late) at h))
        ]
      ]
    ]

-- A token that is accepted names the member, and has an expiry that has not come and the signature of
-- the two under the secret: it cannot be had without that signature, and is no good for another
-- member or a later expiry.
pub verify-IsSigned :
    (c : Crypto) (token secret : Text) (now : ℕ) (member : Text)
    → verify_unsubscribe_token_at c token secret now ≡ accepted member
    → (exp_str payload : Text) × (trim_space token ≡ signed_text member exp_str ++ (dot ∷ payload))
      × ((exp : ℤ) × (parse_int exp_str ≡ some exp) × (ltb_int (unix now) exp ≡ true))
      × (c.decode payload ≡ some (c.hmac secret (signed_text member exp_str)))
unfolding verify_unsubscribe_token_at
verify-IsSigned c token secret now member h =
    let ps = split dot (trim_space token) in
    let (exp_str, payload, parts, timely, signed) =
      verify_parts-HasParts c secret (unix now) member ps h in
    (
      exp_str,
      payload,
      sym (join-split dot (trim_space token))
          ∙ ap (join dot) parts
          ∙ sym (append_assoc member (dot ∷ exp_str) (dot ∷ payload)),
      timely,
      signed,
    )
