-- ===== src/Base/Words.antt =====
-- Text as its code points, for the places where the program looks inside a text. A text that is
-- only compared (an id) is a number in the model.
use Prim.Native.Nat.{ℕ, ◌+◌}
use Prim.Native.Char.{code}
use Prim.Native.String.{String}
use mathlib.Core.Bool.{Bool, true, false, ◌&&◌, ◌||◌}
use mathlib.Core.Path.{◌≡◌, refl, sym, ap, ◌∙◌}
use mathlib.Core.List.{
  List, [], ◌∷◌, ◌++◌, map, reverse, reverse_aux, reverse-cons, reverse-append, reverse-reverse,
}
use madhatter.Base.Lists.{is_empty, All}
use native.Mathlib.Omega.{arith}
use madhatter.Base.Tests.{==_refl, ltb, leb, ◌==◌, if◌then◌else◌}

abbrev pub Text : Type 0
Text = List ℕ

abbrev pub codes : String → Text
codes String.[] = []
codes (String.◌∷◌ c s) = code c ∷ codes s

unfoldable pub text_eq : Text → Text → Bool
text_eq [] [] = true
text_eq (a ∷ s) (b ∷ t) = (a == b) && text_eq s t
text_eq _ _ = false

-- `a <= b`, byte by byte.
unfoldable pub text_leb : Text → Text → Bool
text_leb [] t = true
text_leb (a ∷ s) [] = false
text_leb (a ∷ s) (b ∷ t) = ltb a b || ((a == b) && text_leb s t)

-- `unicode.IsSpace`: the spaces of Latin 1, and those beyond it.
abbrev is_wide_space : ℕ → Bool
is_wide_space c =
    (leb 8_192 c && leb c 8_202)
    || (c == 5_760 || (c == 8_232 || (c == 8_233 || (c == 8_239 || (c == 8_287 || c == 12_288)))))

unfoldable pub is_space : ℕ → Bool
is_space c = (leb 9 c && leb c 13) || (c == 32 || (c == 133 || (c == 160 || is_wide_space c)))

trim_left : Text → Text
unfolding is_space
trim_left [] = []
trim_left (c ∷ s) = if is_space c then trim_left s else c ∷ s

-- `strings.TrimSpace`.
unfoldable pub trim_space : Text → Text
unfolding trim_left
trim_space s = reverse (trim_left (reverse (trim_left s)))

-- `strings.ToLower` on ASCII text.
unfoldable pub to_lower : Text → Text
to_lower = map λ c. if leb 65 c && leb c 90 then c + 32 else c

abbrev pub IsSolid : ℕ → Type 0
IsSolid c = is_space c ≡ false

trim_left_solid :
    (zs ws : Text) → All IsSolid zs → is_empty zs ≡ false → trim_left (zs ++ ws) ≡ zs ++ ws
unfolding trim_left
trim_left_solid [] ws h e = cc
trim_left_solid (c ∷ zs) ws h e = rw h.0 refl

All-reverse_aux :
    (xs acc : Text) → All IsSolid xs → All IsSolid acc → All IsSolid (reverse_aux xs acc)
unfolding reverse_aux
All-reverse_aux [] acc h k = k
All-reverse_aux (x ∷ xs) acc h k = All-reverse_aux xs (x ∷ acc) h.1 (h.0, k)

last-not_empty : (xs : Text) (x : ℕ) → is_empty (xs ++ x ∷ []) ≡ false
last-not_empty [] x = refl
last-not_empty (y ∷ xs) x = refl

reverse-not_empty : (xs : Text) → is_empty xs ≡ false → is_empty (reverse xs) ≡ false
reverse-not_empty [] h = h
reverse-not_empty (x ∷ xs) h = rw (reverse-cons x xs) (last-not_empty (reverse xs) x)

-- A text that starts with no space, and ends in some that are none, is trimmed.
pub trim_space_solid :
    (c : ℕ) (x y : Text)
    → IsSolid c
    → All IsSolid y
    → is_empty y ≡ false
    → trim_space ((c ∷ x) ++ y) ≡ (c ∷ x) ++ y
unfolding trim_space trim_left
trim_space_solid c x y h hs e =
    let all : Text = (c ∷ x) ++ y in
    let turned : reverse all ≡ reverse y ++ reverse (c ∷ x) = reverse-append (c ∷ x) y in
    rw h (
      ap (λ t. reverse (trim_left t)) turned
      ∙ ap reverse (
          trim_left_solid (reverse y) (reverse (c ∷ x)) (All-reverse_aux y [] hs tt)
            (reverse-not_empty y e))
      ∙ ap reverse (sym turned)
      ∙ reverse-reverse all)

pub text_eq_iff : (s t : Text) → text_eq s t ≡ true → s ≡ t
unfolding text_eq
text_eq_iff [] [] h = refl
text_eq_iff [] (b ∷ t) h = cc
text_eq_iff (a ∷ s) [] h = cc
text_eq_iff (a ∷ s) (b ∷ t) h = ground (arith, text_eq_iff s t)

pub text_eq_self : (s : Text) → text_eq s s ≡ true
unfolding text_eq
text_eq_self [] = refl
text_eq_self (a ∷ s) = rw (==_refl a) (text_eq_self s)
