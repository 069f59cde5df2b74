-- ===== src/Notify/Token/Decimal.antt =====
-- A decimal print is read back.
use madhatter.Base.{
  ℕ, zero, suc, ◌+◌, ◌/◌, ◌%◌, ◌≤◌, ◌<◌, ◌≡◌, refl, sym, ap, ◌∙◌, false, ◌==◌, Bool-cases, some, [],
  ◌∷◌, Text, All, is_empty, inl, inr, arith,
}
use madhatter.Base.Int.{pos}
use madhatter.Notify.Token.{digits, format_int, scan, parse_unsigned, parse_int, int64_limit}

scan-digit : (n : ℕ) (out : Text) → scan ((48 + n % 10) ∷ out) (n / 10) ≡ scan out n
unfolding scan
scan-digit n out = ground arith

scan-digits : (fuel n : ℕ) (out : Text) → n < fuel → scan (digits fuel n out) 0 ≡ scan out n
unfolding digits
scan-digits zero n out h = absurd (omega arith)
scan-digits (suc fuel) n out h = elim (Bool-cases (n / 10 == 0)) [
  | inl last ↦
      let e : n / 10 ≡ 0 = ground (arith, last) in
      rw last (ap (λ k. scan ((48 + n % 10) ∷ out) k) (sym e) ∙ scan-digit n out)
  | inr more ↦
      rw more
        (scan-digits fuel (n / 10) ((48 + n % 10) ∷ out) (ground (arith, more)) ∙ scan-digit n out)
]

abbrev pub IsDigit : ℕ → Type 0
IsDigit c = (48 ≤ c) × (c ≤ 57)

digits-IsDigit : (fuel n : ℕ) (out : Text) → All IsDigit out → All IsDigit (digits fuel n out)
unfolding digits
digits-IsDigit zero n out h = h
digits-IsDigit (suc fuel) n out h = elim (Bool-cases (n / 10 == 0)) [
  | inl last ↦ rw last ((omega arith), h)
  | inr more ↦ rw more (digits-IsDigit fuel (n / 10) ((48 + n % 10) ∷ out) ((omega arith), h))
]

digits-not_empty :
    (fuel n : ℕ) (out : Text) → is_empty out ≡ false → is_empty (digits fuel n out) ≡ false
unfolding digits
digits-not_empty zero n out h = h
digits-not_empty (suc fuel) n out h = elim (Bool-cases (n / 10 == 0)) [
  | inl last ↦ rw last refl
  | inr more ↦ rw more (digits-not_empty fuel (n / 10) ((48 + n % 10) ∷ out) refl)
]

digits-suc-not_empty : (n : ℕ) → is_empty (digits (suc n) n []) ≡ false
unfolding digits
digits-suc-not_empty n = elim (Bool-cases (n / 10 == 0)) [
  | inl last ↦ rw last refl
  | inr more ↦ rw more (digits-not_empty n (n / 10) ((48 + n % 10) ∷ []) refl)
]

parse_int-unsigned :
    (s : Text) → All IsDigit s → is_empty s ≡ false → parse_int s ≡ parse_unsigned false s
unfolding parse_int
parse_int-unsigned [] h e = cc
parse_int-unsigned (c ∷ s) h e = ground (arith, h.0)

-- An int64 is read back from its decimal print.
pub parse_int-format_int : (n : ℕ) → n < int64_limit → parse_int (format_int (pos n)) ≡ some (pos n)
unfolding format_int parse_unsigned scan
parse_int-format_int n h =
    parse_int-unsigned (digits (suc n) n []) (digits-IsDigit (suc n) n [] tt)
      (digits-suc-not_empty n)
    ∙ rw (digits-suc-not_empty n, parse_unsigned, scan-digits (suc n) n [] (omega arith))
        (ground (arith, h))

pub format_int-IsDigit : (n : ℕ) → All IsDigit (format_int (pos n))
unfolding format_int
format_int-IsDigit n = digits-IsDigit (suc n) n [] tt

pub format_int-not_empty : (n : ℕ) → is_empty (format_int (pos n)) ≡ false
unfolding format_int
format_int-not_empty n = digits-suc-not_empty n
