-- ===== src/Swap/Exclusive.antt =====
-- The pending swaps of hat_swaps: what the triggers of migrations/000006 and the functions of
-- internal/database/hat_swaps.go keep true together.
pub mod Calls
use madhatter.Base.{
  ℕ, ◌≡◌, refl, sym, ap, subst, ◌∙◌, arith, Bool, true, false, not, ◌&&◌, ◌||◌, ◌==◌, Bool-cases,
  Option-cases, inl, inr, if◌then◌else◌, List, [], ◌∷◌, ◌++◌, Option, none, some, any, keep, update,
  find, ||-false, &&-false_mono, All, All-append, All-keep_of,
}
use madhatter.Calendar.{Day}
use madhatter.Store.{HatSwap, SwapStatus, Db}
use madhatter.Store.Exec.{Outcome, ok, err, after}
use madhatter.Swap.{is_pending, is_open, conflicts, touches}

-- Both are pending, and they have an assignment in common.
abbrev clash : HatSwap → HatSwap → Bool
clash s t = is_pending s.status && conflicts s t

-- No two pending swaps have an assignment in common.
unfoldable pub Exclusive : List HatSwap → Type 0
Exclusive [] = Unit
Exclusive (s ∷ ss) = All (λ t. clash s t ≡ false) ss × Exclusive ss

clash_sym : (s t : HatSwap) → is_pending t.status ≡ true → conflicts t s ≡ false → clash s t ≡ false
clash_sym s t h c = ground arith

pub Exclusive-snoc :
    (new : HatSwap) (ss : List HatSwap)
    → is_pending new.status ≡ true
    → any (conflicts new) ss ≡ false
    → Exclusive ss
    → Exclusive (ss ++ new ∷ [])
unfolding Exclusive
Exclusive-snoc new [] h c e = (tt, tt)
Exclusive-snoc new (s ∷ ss) h c (first, rest) =
    let (here, there) = ||-false (conflicts new s) (any (conflicts new) ss) c in
    (
      All-append (λ t. clash s t ≡ false) ss (new ∷ []) first (clash_sym s new h here, tt),
      Exclusive-snoc new ss h there rest,
    )

pub Exclusive-keep : (p : HatSwap → Bool) (ss : List HatSwap) → Exclusive ss → Exclusive (keep p ss)
unfolding Exclusive
Exclusive-keep p [] e = tt
Exclusive-keep p (s ∷ ss) (first, rest) =
    elim (p s) as (λ b. Exclusive (if b then s ∷ keep p ss else keep p ss)) [
      | true ↦ (All-keep_of (λ t. clash s t ≡ false) p ss first, Exclusive-keep p ss rest)
      | false ↦ Exclusive-keep p ss rest
    ]

module _ (p : HatSwap → Bool) (status : SwapStatus)
    (open_ : (s : HatSwap) → p s ≡ true → is_pending s.status ≡ true) where
  abbrev set_status : HatSwap → HatSwap
  set_status s = record s { status = status }

  abbrev changed : HatSwap → HatSwap
  changed s = if p s then set_status s else s

  not_reopened : (s : HatSwap) → is_pending s.status ≡ false → is_pending (changed s).status ≡ false
  not_reopened s h = elim (Bool-cases (p s)) [
    | inl x ↦ let y : is_pending s.status ≡ true = open_ s x in absurd (ground arith)
    | inr x ↦ rw x h
  ]

  same_touch : (id : ℕ) (s : HatSwap) → touches id (changed s) ≡ touches id s
  same_touch id s = elim (Bool-cases (p s)) [ inl x ↦ rw x refl | inr x ↦ rw x refl ]

  same_ids :
      (s : HatSwap)
      → ((changed s).requester_assignment_id ≡ s.requester_assignment_id)
        × ((changed s).target_assignment_id ≡ s.target_assignment_id)
  same_ids s = elim (Bool-cases (p s)) [ inl x ↦ rw x (refl, refl) | inr x ↦ rw x (refl, refl) ]

  clash-changed : (s t : HatSwap) → clash s t ≡ false → clash (changed s) (changed t) ≡ false
  clash-changed s t c =
      let (r, q) = same_ids s in
      rw (r, q, same_touch s.requester_assignment_id t, same_touch s.target_assignment_id t)
        (&&-false_mono (is_pending s.status) (is_pending t.status)
          (touches s.requester_assignment_id t || touches s.target_assignment_id t)
          (is_pending (changed s).status) (is_pending (changed t).status) (not_reopened s)
          (not_reopened t) c)

  All-changed :
      (s : HatSwap) (ss : List HatSwap)
      → All (λ t. clash s t ≡ false) ss
      → All (λ t. clash (changed s) t ≡ false) (update p set_status ss)
  All-changed s [] h = tt
  All-changed s (t ∷ ss) (h, hs) = (clash-changed s t h, All-changed s ss hs)

  pub Exclusive-update : (ss : List HatSwap) → Exclusive ss → Exclusive (update p set_status ss)
  unfolding Exclusive
  Exclusive-update [] e = tt
  Exclusive-update (s ∷ ss) (first, rest) = (All-changed s ss first, Exclusive-update ss rest)
