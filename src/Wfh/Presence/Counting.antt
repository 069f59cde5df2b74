-- ===== src/Wfh/Presence/Counting.antt =====
-- The number of different ids in a list grows with the ids that are in it.
use madhatter.Base.{
  ℕ, suc, ◌≤◌, ◌≡◌, refl, true, false, not, ◌==◌, ==_iff, ==_refl, ap, List, [], ◌∷◌, keep, inl,
  inr, Bool-cases, arith,
}
use madhatter.Wfh.{elem}
use madhatter.Wfh.Presence.{count_unique_members}

-- Every id of the first list is in the second.
abbrev pub Within : List ℕ → List ℕ → Type 0
Within xs ys = (z : ℕ) → elem z xs ≡ true → elem z ys ≡ true

abbrev remove : ℕ → List ℕ → List ℕ
remove x = keep (λ y. not (y == x))

elem-remove : (z x : ℕ) (ys : List ℕ) → (z == x) ≡ false → elem z (remove x ys) ≡ elem z ys
elem-remove z x [] h = refl
elem-remove z x (y ∷ ys) h = ground (arith, elem-remove z x ys h)

remove_absent : (x : ℕ) (ys : List ℕ) → elem x ys ≡ false → remove x ys ≡ ys
remove_absent x [] h = refl
remove_absent x (y ∷ ys) h = ground (arith, remove_absent x ys)

count-remove :
    (x : ℕ) (ys : List ℕ)
    → elem x ys ≡ true
    → suc (count_unique_members (remove x ys)) ≡ count_unique_members ys
unfolding count_unique_members
count-remove x [] h = absurd (ground arith)
count-remove x (y ∷ ys) h = elim (Bool-cases (y == x)) [
  | inl e ↦
      let e' : y ≡ x = (==_iff y x).0 e in
      rw (e, e')
        (elim (Bool-cases (elem x ys)) [
          | inl p ↦ rw p (count-remove x ys p)
          | inr p ↦ rw (remove_absent x ys p, p) refl
        ])
  | inr e ↦
      let p : elem x ys ≡ true = ground arith in
      rw e (ground (arith, elem-remove y x ys e, count-remove x ys p))
]

tail-Within :
    (x : ℕ) (xs ys : List ℕ) → Within (x ∷ xs) ys → elem x xs ≡ false → Within xs (remove x ys)
tail-Within x xs ys h absent z p = elim (Bool-cases (z == x)) [
  | inl e ↦ absurd (cc (ap (λ v. elem v xs) ((==_iff z x).0 e), p, absent))
  | inr e ↦ rw (elem-remove z x ys e) (h z (ground (arith, p)))
]

pub count-Within :
    (xs ys : List ℕ) → Within xs ys → count_unique_members xs ≤ count_unique_members ys
unfolding count_unique_members
count-Within [] ys h = omega arith
count-Within (x ∷ xs) ys h = elim (Bool-cases (elem x xs)) [
  | inl e ↦ rw e (count-Within xs ys (λ z p. h z (ground (arith, p))))
  | inr e ↦
      let first : elem x ys ≡ true = h x (rw (==_refl x) refl) in
      rw (e, ← count-remove x ys first)
        (omega (arith, count-Within xs (remove x ys) (tail-Within x xs ys h e)))
]

pub at_most_one_more :
    (x : ℕ) (xs ys : List ℕ)
    → Within xs (x ∷ ys)
    → count_unique_members xs ≤ suc (count_unique_members ys)
unfolding count_unique_members
at_most_one_more x xs ys h = ground (arith, count-Within xs (x ∷ ys) h)
