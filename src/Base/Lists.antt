-- ===== src/Base/Lists.antt =====
-- Lists measured and indexed by native numbers, filtered and searched by Boolean tests.
use Prim.Native.Nat.{ℕ, zero, suc, ◌+◌, ◌≤◌, ◌<◌}
use mathlib.Core.Path.{◌≡◌, refl}
use mathlib.Core.Bool.{Bool, true, false, ◌||◌}
use mathlib.Core.List.{List, [], ◌∷◌, ◌++◌, map}
use mathlib.Core.Option.{Option, none, some}
use native.Mathlib.Omega.{arith}
use madhatter.Base.Tests.{if◌then◌else◌}

module _ {ℓ} {A : Type ℓ} where
  abbrev pub length : List A → ℕ
  length [] = 0
  length (x ∷ xs) = suc (length xs)

  abbrev pub get_elem? : List A → ℕ → Option A
  get_elem? [] i = none
  get_elem? (x ∷ xs) zero = some x
  get_elem? (x ∷ xs) (suc i) = get_elem? xs i

  abbrev pub take : ℕ → List A → List A
  take zero xs = []
  take (suc n) [] = []
  take (suc n) (x ∷ xs) = x ∷ take n xs

  -- The rows that pass a test, in order: `WHERE`, or a loop with `continue`.
  abbrev pub keep : (A → Bool) → List A → List A
  keep p [] = []
  keep p (x ∷ xs) = if p x then x ∷ keep p xs else keep p xs

  -- The first row that passes: `WHERE … LIMIT 1`, or a loop that returns.
  abbrev pub find : (A → Bool) → List A → Option A
  find p [] = none
  find p (x ∷ xs) = if p x then some x else find p xs

  abbrev pub any : (A → Bool) → List A → Bool
  any p [] = false
  any p (x ∷ xs) = p x || any p xs

  -- `UPDATE … WHERE`.
  abbrev pub update : (A → Bool) → (A → A) → List A → List A
  update p f [] = []
  update p f (x ∷ xs) = (if p x then f x else x) ∷ update p f xs

  abbrev pub is_empty : List A → Bool
  is_empty [] = true
  is_empty (x ∷ xs) = false

  -- A predicate of every item.
  abbrev pub All {κ} : (A → Type κ) → List A → Type κ
  All P [] = Unit
  All P (x ∷ xs) = P x × All P xs

module _ {ℓ} {A : Type ℓ} where
  pub length-append : (xs ys : List A) → length (xs ++ ys) ≡ length xs + length ys
  length-append [] ys = omega arith
  length-append (x ∷ xs) ys = omega (arith, length-append xs ys)

  pub length-update : (p : A → Bool) (f : A → A) (xs : List A) → length (update p f xs) ≡ length xs
  length-update p f [] = refl
  length-update p f (x ∷ xs) = omega (arith, length-update p f xs)

  pub length-keep-le : (p : A → Bool) (xs : List A) → length (keep p xs) ≤ length xs
  length-keep-le p [] = omega arith
  length-keep-le p (x ∷ xs) = ground (arith, length-keep-le p xs)

  pub length-take-le : (n : ℕ) (xs : List A) → n ≤ length xs → length (take n xs) ≡ n
  length-take-le zero xs h = refl
  length-take-le (suc n) [] h = omega arith
  length-take-le (suc n) (x ∷ xs) h = omega (arith, length-take-le n xs (omega arith))

  pub length-take-bound : (n : ℕ) (xs : List A) → length (take n xs) ≤ n
  length-take-bound zero xs = omega arith
  length-take-bound (suc n) [] = omega arith
  length-take-bound (suc n) (x ∷ xs) = omega (arith, length-take-bound n xs)

  pub any-append : (p : A → Bool) (xs ys : List A) → any p (xs ++ ys) ≡ (any p xs || any p ys)
  any-append p [] ys = refl
  any-append p (x ∷ xs) ys = ground (arith, any-append p xs ys)

  pub keep-append : (p : A → Bool) (xs ys : List A) → keep p (xs ++ ys) ≡ keep p xs ++ keep p ys
  keep-append p [] ys = refl
  keep-append p (x ∷ xs) ys = ground (arith, keep-append p xs ys)

  pub All-append {κ} : (P : A → Type κ) (xs ys : List A) → All P xs → All P ys → All P (xs ++ ys)
  All-append P [] ys hx hy = hy
  All-append P (x ∷ xs) ys hx hy = (hx.0, All-append P xs ys hx.1 hy)

  pub All-map {κ μ} :
      {B : Type κ} (P : A → Type μ) (Q : B → Type μ) (f : A → B) (xs : List A)
      → ((x : A) → P x → Q (f x))
      → All P xs
      → All Q (map f xs)
  All-map P Q f [] h hs = tt
  All-map P Q f (x ∷ xs) h hs = (h x hs.0, All-map P Q f xs h hs.1)

  pub All-keep : (p : A → Bool) (xs : List A) → All (λ x. p x ≡ true) (keep p xs)
  All-keep p [] = tt
  All-keep p (x ∷ xs) = ground (arith, All-keep p xs)

  pub All-keep_of {κ} : (P : A → Type κ) (p : A → Bool) (xs : List A) → All P xs → All P (keep p xs)
  All-keep_of P p [] h = tt
  All-keep_of P p (x ∷ xs) h = elim (p x) as (λ b. All P (if b then x ∷ keep p xs else keep p xs)) [
    | true ↦ (h.0, All-keep_of P p xs h.1)
    | false ↦ All-keep_of P p xs h.1
  ]

  pub All-take {κ} : (P : A → Type κ) (n : ℕ) (xs : List A) → All P xs → All P (take n xs)
  All-take P zero xs h = tt
  All-take P (suc n) [] h = tt
  All-take P (suc n) (x ∷ xs) h = (h.0, All-take P n xs h.1)

  pub find-none : (p : A → Bool) (xs : List A) → find p xs ≡ none → All (λ x. p x ≡ false) xs
  find-none p [] h = tt
  find-none p (x ∷ xs) h = ground (arith, find-none p xs)

  pub find-some : (p : A → Bool) (xs : List A) {y : A} → find p xs ≡ some y → p y ≡ true
  find-some p [] h = ground arith
  find-some p (x ∷ xs) {y} h = ground (arith, find-some p xs {y = y})

  pub any-find : (p : A → Bool) (xs : List A) {y : A} → find p xs ≡ some y → any p xs ≡ true
  any-find p [] h = ground arith
  any-find p (x ∷ xs) {y} h = ground (arith, any-find p xs {y = y})

  pub get_elem?-lt : (xs : List A) (i : ℕ) → i < length xs → (x : A) × (get_elem? xs i ≡ some x)
  get_elem?-lt [] i h = absurd (omega arith)
  get_elem?-lt (x ∷ xs) zero h = (x, refl)
  get_elem?-lt (x ∷ xs) (suc i) h = get_elem?-lt xs i (omega arith)

  -- The search commutes with a change that the test does not see.
  pub find-update :
      (q p : A → Bool) (f : A → A) (xs : List A) {y : A}
      → ((x : A) → q (f x) ≡ q x)
      → find q xs ≡ some y
      → find q (update p f xs) ≡ some (if p y then f y else y)
  find-update q p f [] h e = ground arith
  find-update q p f (x ∷ xs) {y} h e = ground (arith, find-update q p f xs {y = y} h, h x)

  pub find-map :
      (q : A → Bool) (f : A → A) (xs : List A) {y : A}
      → ((x : A) → q (f x) ≡ q x)
      → find q xs ≡ some y
      → find q (map f xs) ≡ some (f y)
  find-map q f [] h e = ground arith
  find-map q f (x ∷ xs) {y} h e = ground (arith, find-map q f xs {y = y} h, h x)

  pub any-keep : (p q : A → Bool) (xs : List A) → any p (keep q xs) ≡ true → any p xs ≡ true
  any-keep p q [] h = h
  any-keep p q (x ∷ xs) h = ground (arith, any-keep p q xs)

  pub absent-keep : (p q : A → Bool) (xs : List A) → any p xs ≡ false → any p (keep q xs) ≡ false
  absent-keep p q [] h = h
  absent-keep p q (x ∷ xs) h = ground (arith, absent-keep p q xs)

  -- A test that implies another.
  pub any_mono :
      (p q : A → Bool) (xs : List A)
      → ((x : A) → p x ≡ true → q x ≡ true)
      → any p xs ≡ true
      → any q xs ≡ true
  any_mono p q [] f h = h
  any_mono p q (x ∷ xs) f h = ground (arith, any_mono p q xs f, f x)

  pub All-imp {κ μ} :
      (P : A → Type κ) (Q : A → Type μ) (xs : List A) → ((x : A) → P x → Q x) → All P xs → All Q xs
  All-imp P Q [] f h = tt
  All-imp P Q (x ∷ xs) f h = (f x h.0, All-imp P Q xs f h.1)

  pub All-both {κ μ} :
      (P : A → Type κ) (Q : A → Type μ) (xs : List A)
      → All P xs
      → All Q xs
      → All (λ x. P x × Q x) xs
  All-both P Q [] h k = tt
  All-both P Q (x ∷ xs) h k = ((h.0, k.0), All-both P Q xs h.1 k.1)

  -- The element stands somewhere in the list.
  abbrev pub IsIn : A → List A → Type ℓ
  IsIn x xs = (j : ℕ) × (get_elem? xs j ≡ some x)

  pub All-IsIn : (xs : List A) → All (λ x. IsIn x xs) xs
  All-IsIn [] = tt
  All-IsIn (x ∷ xs) = (
    (0, refl),
    All-imp (λ y. IsIn y xs) (λ y. IsIn y (x ∷ xs)) xs (λ y (j, at). (suc j, at)) (All-IsIn xs),
  )

  keep_later :
      (t p : A → Bool) (x : A) (xs : List A)
      → any p (keep t xs) ≡ true
      → any p (keep t (x ∷ xs)) ≡ true
  keep_later t p x xs h = ground (arith, h)

  -- Each item that passes the test is found among those that pass, by what it satisfies itself.
  pub any-keep_self :
      (t : A → Bool) (p : A → A → Bool) (xs : List A)
      → ((x : A) → p x x ≡ true)
      → All (λ y. t y ≡ true → any (p y) (keep t xs) ≡ true) xs
  any-keep_self t p [] self = tt
  any-keep_self t p (x ∷ xs) self = (
    (λ h. ground (arith, h, self x)),
    All-imp _ _ xs (λ y f h. keep_later t (p y) x xs (f h)) (any-keep_self t p xs self),
  )
