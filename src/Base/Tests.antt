-- ===== src/Base/Tests.antt =====
-- Boolean tests on the native numbers, the conditional, and case splits that keep the equation.
use Prim.Native.Nat.{ℕ, ◌<◌, compare, Ordering}
use mathlib.Core.Path.{◌≡◌, refl}
use mathlib.Core.Logic.{◌↔◌, ◌⊎◌, inl, inr}
use mathlib.Core.Bool.{Bool, true, false, ◌&&◌, ◌||◌}
use mathlib.Core.Option.{Option, none, some}
use native.Mathlib.Omega.{arith}

abbrev pub ltb : ℕ → ℕ → Bool
ltb a b = elim (compare a b) [ Ordering.lt ↦ true | _ ↦ false ]

abbrev pub leb : ℕ → ℕ → Bool
leb a b = elim (compare a b) [ Ordering.gt ↦ false | _ ↦ true ]

infix 50 ◌==◌
abbrev pub ◌==◌ : ℕ → ℕ → Bool
a == b = elim (compare a b) [ Ordering.eq ↦ true | _ ↦ false ]

-- A second, in nanoseconds.
abbrev pub nanoseconds : ℕ
nanoseconds = 1_000_000_000

infix 1 if◌then◌else◌
abbrev pub if◌then◌else◌ {ℓ} : {A : Type ℓ} → Bool → A → A → A
if true then x else y = x
if false then x else y = y

pub leb-false : (a b : ℕ) → leb a b ≡ false → b < a
leb-false a b h = ground arith

pub ==_iff : (a b : ℕ) → ((a == b) ≡ true) ↔ (a ≡ b)
==_iff a b = ground arith

pub ==_refl : (a : ℕ) → (a == a) ≡ true
==_refl a = ground arith

pub Bool-cases : (b : Bool) → (b ≡ true) ⊎ (b ≡ false)
Bool-cases true = inl refl
Bool-cases false = inr refl

pub Option-cases {ℓ} : {A : Type ℓ} (o : Option A) → (o ≡ none) ⊎ ((a : A) × (o ≡ some a))
Option-cases none = inl refl
Option-cases (some a) = inr (a, refl)

pub &&-true : (a b : Bool) → (a && b) ≡ true → (a ≡ true) × (b ≡ true)
&&-true true b h = (refl, h)
&&-true false b h = absurd (ground arith)

pub some_inj {ℓ} : {A : Type ℓ} {a b : A} → some a ≡ some b → a ≡ b
some_inj h = cc

pub ||-false : (a b : Bool) → (a || b) ≡ false → (a ≡ false) × (b ≡ false)
||-false true b h = ground arith
||-false false b h = (refl, h)

-- A conjunction that is false stays so where no conjunct becomes true.
pub &&-false_mono :
    (a b c a' b' : Bool)
    → (a ≡ false → a' ≡ false)
    → (b ≡ false → b' ≡ false)
    → (a && (b && c)) ≡ false
    → (a' && (b' && c)) ≡ false
&&-false_mono false b c a' b' ha hb h = rw (ha refl) refl
&&-false_mono true false c true b' ha hb h = rw (hb refl) refl
&&-false_mono true false c false b' ha hb h = refl
&&-false_mono true true c true b' ha hb h = ground arith
&&-false_mono true true c false b' ha hb h = refl

pub ||-false_right : (b : Bool) → (b || false) ≡ b
||-false_right true = refl
||-false_right false = refl

pub ||-assoc : (a b c : Bool) → ((a || b) || c) ≡ (a || (b || c))
||-assoc true b c = refl
||-assoc false b c = refl

-- Two disjunctions with a part in common.
pub ||-spread :
    (e l a b : Bool) → (a ≡ true → (e || b) ≡ true) → (l || a) ≡ true → (e || (l || b)) ≡ true
||-spread true l a b f h = refl
||-spread false true a b f h = refl
||-spread false false a b f h = f h

pub not_true : (b : Bool) → (b ≡ true → ⊥) → b ≡ false
not_true true h = absurd (h refl)
not_true false h = refl
