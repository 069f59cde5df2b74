-- ===== src/Base/Split.antt =====
-- `strings.Split` at a separator of one byte: the parts of a text, and the text of its parts.
use Prim.Native.Nat.{ℕ}
use mathlib.Core.Path.{◌≡◌, refl, sym, ap, ◌∙◌}
use mathlib.Core.Bool.{false}
use mathlib.Core.Logic.{inl, inr}
use mathlib.Core.List.{List, [], ◌∷◌, ◌++◌}
use native.Mathlib.Omega.{arith}
use madhatter.Base.Tests.{||-false, ◌==◌, ==_refl, if◌then◌else◌, Bool-cases}
use madhatter.Base.Lists.{All, any}
use madhatter.Base.Words.{Text}

cons_first : ℕ → List Text → List Text
cons_first c [] = (c ∷ []) ∷ []
cons_first c (p ∷ ps) = (c ∷ p) ∷ ps

unfoldable pub split : ℕ → Text → List Text
unfolding cons_first
split sep [] = [] ∷ []
split sep (c ∷ s) = let parts = split sep s in if c == sep then [] ∷ parts else cons_first c parts

abbrev pub Lacks : ℕ → Text → Type 0
Lacks sep = All (λ c. (c == sep) ≡ false)

pub split-Lacks : (sep : ℕ) (p : Text) → Lacks sep p → split sep p ≡ p ∷ []
unfolding split
split-Lacks sep [] h = refl
split-Lacks sep (c ∷ p) h = rw (h.0, split-Lacks sep p h.1) refl

pub split-append :
    (sep : ℕ) (p rest : Text) → Lacks sep p → split sep (p ++ (sep ∷ rest)) ≡ p ∷ split sep rest
unfolding split
split-append sep [] rest h = rw (==_refl sep) refl
split-append sep (c ∷ p) rest h = rw (h.0, split-append sep p rest h.1) refl

-- The parts with the separator between them.
abbrev pub join : ℕ → List Text → Text
join sep [] = []
join sep (p ∷ []) = p
join sep (p ∷ q ∷ ps) = p ++ (sep ∷ join sep (q ∷ ps))

join-cons_first : (sep c : ℕ) (ps : List Text) → join sep (cons_first c ps) ≡ c ∷ join sep ps
unfolding cons_first
join-cons_first sep c [] = refl
join-cons_first sep c (p ∷ []) = refl
join-cons_first sep c (p ∷ q ∷ ps) = refl

join_empty-cons_first :
    (sep c : ℕ) (ps : List Text)
    → join sep ([] ∷ cons_first c ps) ≡ sep ∷ join sep (cons_first c ps)
unfolding cons_first
join_empty-cons_first sep c [] = refl
join_empty-cons_first sep c (p ∷ ps) = refl

join_empty_first : (sep : ℕ) (s : Text) → join sep ([] ∷ split sep s) ≡ sep ∷ join sep (split sep s)
unfolding split
join_empty_first sep [] = refl
join_empty_first sep (c ∷ s) = elim (Bool-cases (c == sep)) [
  | inl cut ↦ rw cut refl
  | inr part ↦ rw part (join_empty-cons_first sep c (split sep s))
]

pub join-split : (sep : ℕ) (s : Text) → join sep (split sep s) ≡ s
unfolding split
join-split sep [] = refl
join-split sep (c ∷ s) = elim (Bool-cases (c == sep)) [
  | inl cut ↦
      let e : c ≡ sep = ground (arith, cut) in
      rw cut
        (join_empty_first sep s ∙ ap (λ t. sep ∷ t) (join-split sep s) ∙ ap (λ k. k ∷ s) (sym e))
  | inr part ↦ rw part (join-cons_first sep c (split sep s) ∙ ap (λ t. c ∷ t) (join-split sep s))
]

pub split-join :
    (sep : ℕ) (p : Text) (ps : List Text)
    → All (Lacks sep) (p ∷ ps)
    → split sep (join sep (p ∷ ps)) ≡ p ∷ ps
split-join sep p [] h = split-Lacks sep p h.0
split-join sep p (q ∷ ps) h =
    split-append sep p (join sep (q ∷ ps)) h.0 ∙ ap (λ t. p ∷ t) (split-join sep q ps h.1)

-- By evaluation, for a text that is given.
pub Lacks-any : (sep : ℕ) (s : Text) → any (λ c. c == sep) s ≡ false → Lacks sep s
Lacks-any sep [] h = tt
Lacks-any sep (c ∷ s) h =
    let (first, rest) = ||-false (c == sep) (any (λ d. d == sep) s) h in
    (first, Lacks-any sep s rest)
