-- ===== src/Base/Sums.antt =====
-- Residues of differences by a variable modulus, without negative numbers.
use Prim.Native.Nat.{ℕ, zero, suc, ◌+◌, ◌-◌, ◌*◌, ◌/◌, ◌%◌, ◌<◌}
use mathlib.Core.Path.{◌≡◌, sym, ◌∙◌, ap}
use native.Mathlib.Nat.{
  add-mul-mod_self_right, mod-add-mod, mod-lt, mod-eq_of_lt, mod-eq-sub-mod, div-add-mod',
}
use native.Mathlib.Decide.{dec_lt}
use native.Mathlib.Omega.{arith}

-- Numbers that differ by a multiple of `m` have one residue.
pub mod_eq_of_add_mul : (a b k m : ℕ) → a ≡ b + k * m → a % m ≡ b % m
mod_eq_of_add_mul a b k m h = ap (λ t. t % m) h ∙ add-mul-mod_self_right b k m

-- (a - b) mod m.
unfoldable pub residue : ℕ → ℕ → ℕ → ℕ
residue a b m = (a + b * (m - 1)) % m

pub residue-lt : (a b m : ℕ) → 0 < m → residue a b m < m
unfolding residue
residue-lt a b m h = mod-lt (a + b * (m - 1)) h

shift : (a b t m : ℕ) → 0 < m → a + t + (b + t) * (m - 1) ≡ a + b * (m - 1) + t * m
shift a b t zero h = absurd (omega arith)
shift a b t (suc n) h = let e : suc n - 1 ≡ n = omega arith in rw e (omega arith)

residue_shift : (a b t m : ℕ) → 0 < m → residue (a + t) (b + t) m ≡ residue a b m
unfolding residue
residue_shift a b t m h = mod_eq_of_add_mul _ _ t m (shift a b t m h)

-- Only the difference counts.
pub residue_eq : (a b c d m : ℕ) → 0 < m → a + d ≡ c + b → residue a b m ≡ residue c d m
residue_eq a b c d m h e = sym (residue_shift a b d m h) ∙ swap ∙ residue_shift c d b m h
  where
    swap : residue (a + d) (b + d) m ≡ residue (c + b) (d + b) m
    swap = ap (λ t. residue t (b + d) m) e ∙ ap (λ t. residue (c + b) t m) (omega arith)

pub residue-residue :
    (a b c d m : ℕ) → 0 < m → residue (residue a b m + c) d m ≡ residue (a + c) (b + d) m
unfolding residue
residue-residue a b c d m h =
    ap (λ t. t % m) (regroup ((a + b * (m - 1)) % m) c (d * (m - 1)))
    ∙ mod-add-mod (a + b * (m - 1)) m (c + d * (m - 1))
    ∙ ap (λ t. t % m) (omega arith)
  where
    regroup : (x y z : ℕ) → x + y + z ≡ x + (y + z)
    regroup x y z = omega arith

pub residue_zero : (a m : ℕ) → residue a 0 m ≡ a % m
unfolding residue
residue_zero a m = ap (λ t. t % m) (omega arith)

residue_add_mul : (a b k m : ℕ) → residue (a + k * m) b m ≡ residue a b m
unfolding residue
residue_add_mul a b k m = mod_eq_of_add_mul _ _ k m (omega arith)

pub residue_neg : (n m : ℕ) → 0 < m → residue 0 n m ≡ (m - n % m) % m
residue_neg n m h =
    sym (residue_add_mul 0 n (n / m + 1) m)
    ∙ residue_eq _ n (m - n % m) 0 m h balance
    ∙ residue_zero (m - n % m) m
  where
    balance : 0 + (n / m + 1) * m + 0 ≡ m - n % m + n
    balance = omega (arith, mod-lt n h, div-add-mod' n m)

step_back : (s c m : ℕ) → s < m → c < m → (s + c) % m ≡ s → c ≡ 0
step_back s c m hs hc e = elim (dec_lt (s + c) m) [
  | yes p ↦ omega (arith, mod-eq_of_lt p)
  | no p ↦ omega (
    arith,
    mod-eq-sub-mod {n = s + c} {m = m} (omega arith),
    mod-eq_of_lt {n = s + c - m} {m = m} (omega arith),
  )
]

-- Where a + c and a have one residue, and c lies below the modulus, c is 0.
pub residue_cancel : (a b c m : ℕ) → c < m → residue (a + c) b m ≡ residue a b m → c ≡ 0
residue_cancel a b c m h e = step_back (residue a b m) c m (residue-lt a b m (omega arith)) h (
    sym (residue_zero (residue a b m + c) m)
    ∙ residue-residue a b c 0 m (omega arith)
    ∙ ap (λ t. residue (a + c) t m) (omega arith)
    ∙ e)
