-- ===== src/Limiter/Lookup.antt =====
-- The buckets by their keys.
use madhatter.Base.{
  ℕ, ◌≡◌, refl, ap, ◌∙◌, false, Bool-cases, some, List, [], ◌∷◌, Text, text_eq, text_eq_iff,
  text_eq_self, inl, inr, arith,
}
use madhatter.Limiter.{TokenBucket, Limiter, bucket_of, set_bucket, get_or_new, allow, allow_key}

bucket_of-set_bucket :
    (key : Text) (b : TokenBucket) (bs : List (Text × TokenBucket))
    → bucket_of key (set_bucket key b bs) ≡ some b
unfolding bucket_of set_bucket
bucket_of-set_bucket key b [] = rw (text_eq_self key) refl
bucket_of-set_bucket key b ((k, c) ∷ bs) = elim (Bool-cases (text_eq k key)) [
  | inl hit ↦ rw (hit, bucket_of, hit) refl
  | inr other ↦ rw (other, bucket_of, other) (bucket_of-set_bucket key b bs)
]

bucket_of-set_bucket_other :
    (key other : Text) (b : TokenBucket) (bs : List (Text × TokenBucket))
    → text_eq key other ≡ false
    → bucket_of other (set_bucket key b bs) ≡ bucket_of other bs
unfolding bucket_of set_bucket
bucket_of-set_bucket_other key other b [] h = rw h refl
bucket_of-set_bucket_other key other b ((k, c) ∷ bs) h = elim (Bool-cases (text_eq k key)) [
  | inl hit ↦
      let differs : text_eq k other ≡ false =
        ap (λ t. text_eq t other) (text_eq_iff k key hit) ∙ h in
      rw (hit, bucket_of, differs) refl
  | inr miss ↦ ground (arith, miss, bucket_of-set_bucket_other key other b bs h)
]

-- The bucket of the key that calls, after the call.
pub allow_key_own :
    (infinite now : ℕ) (key : Text) (l : Limiter)
    → bucket_of key (allow_key infinite now key l).1.buckets
      ≡ some (allow infinite now (get_or_new key now l)).1
unfolding allow_key
allow_key_own infinite now key l =
    bucket_of-set_bucket key (allow infinite now (get_or_new key now l)).1 l.buckets

-- The buckets of the others.
pub allow_key_other :
    (infinite now : ℕ) (key other : Text) (l : Limiter)
    → text_eq key other ≡ false
    → bucket_of other (allow_key infinite now key l).1.buckets ≡ bucket_of other l.buckets
unfolding allow_key
allow_key_other infinite now key other l h =
    bucket_of-set_bucket_other key other (allow infinite now (get_or_new key now l)).1 l.buckets h

pub get_or_new_known :
    (key : Text) (now : ℕ) (l : Limiter) (b : TokenBucket)
    → bucket_of key l.buckets ≡ some b
    → get_or_new key now l ≡ b
unfolding get_or_new
get_or_new_known key now l b h = rw (h, get_or_new) refl
