-- ===== src/Rota/Cover/Laws.antt =====
-- `findCover` of internal/rota/engine.go, over the circle of members.

use mathlib.Core.Option.{some-injective}
use native.Mathlib.Nat.{mod-lt, mod-eq_of_lt, add-mod_right, mod-add-mod}
use native.Mathlib.Decide.{dec_lt}
use madhatter.Base.{
  ℕ, zero, suc, ◌+◌, ◌-◌, ◌%◌, ◌≤◌, ◌<◌, ◌≡◌, ◌≢◌, sym, subst, ap, ◌∙◌, inl, inr, true, false,
  arith, Bool-cases, List, Option, none, some, length, get_elem?, get_elem?-lt, ◌==◌, ==_iff,
}
use madhatter.Store.{TeamMember, LeaveRecord}
use madhatter.Rota.Cover.{original_is_on_leave, find_cover, find_cover_from}

module _ (members : List TeamMember) (leaves : List LeaveRecord) (start_index : ℕ) where
  -- The candidate at an offset is on leave, or there is none.
  abbrev pub Unavailable : ℕ → Type 0
  Unavailable j =
      (c : TeamMember)
      → get_elem? members ((start_index + j) % length members) ≡ some c
      → original_is_on_leave c leaves ≡ true

  -- What the search from offset `i` over `n` candidates finds.
  abbrev pub Search : ℕ → ℕ → Option TeamMember → Type 0
  Search i n none = (j : ℕ) → i ≤ j → j < i + n → Unavailable j
  Search i n (some c) =
      (j : ℕ) × (i ≤ j)
      × (j < i + n)
      × (get_elem? members ((start_index + j) % length members) ≡ some c)
      × (original_is_on_leave c leaves ≡ false)
      × ((k : ℕ) → i ≤ k → k < j → Unavailable k)

  step_down :
      (i j : ℕ)
      → Unavailable i
      → ((k : ℕ) → suc i ≤ k → k < j → Unavailable k)
      → (k : ℕ) → i ≤ k
      → k < j
      → Unavailable k
  step_down i j here rest k low high = elim (Bool-cases (i == k)) [
    | inl same ↦ subst Unavailable ((==_iff i k).0 same) here
    | inr other ↦ rest k (ground arith) high
  ]

  extend :
      (i n : ℕ) (r : Option TeamMember) → Unavailable i → Search (suc i) n r → Search i (suc n) r
  extend i n none here rest = step_down i (i + suc n) here (λ k low high. rest k low (omega arith))
  extend i n (some c) here (j, low, high, at, free, before) =
      (j, omega arith, omega arith, at, free, step_down i j here before)

  module _ (i n : ℕ) (c : TeamMember)
      (at : get_elem? members ((start_index + i) % length members) ≡ some c) where
    find_cover_from_skip :
        original_is_on_leave c leaves ≡ true
        → find_cover_from members leaves start_index i (suc n)
          ≡ find_cover_from members leaves start_index (suc i) n
    unfolding find_cover_from
    find_cover_from_skip away = rw (at, find_cover_from) (rw away)

    find_cover_from_take :
        original_is_on_leave c leaves ≡ false
        → find_cover_from members leaves start_index i (suc n) ≡ some c
    unfolding find_cover_from
    find_cover_from_take free = rw (at, find_cover_from) (rw free)

    unavailable : original_is_on_leave c leaves ≡ true → Unavailable i
    unavailable away d e =
        subst (λ t. original_is_on_leave t leaves ≡ true) (some-injective c d (sym at ∙ e)) away

  find_cover_from-Search :
      (i n : ℕ) → 0 < length members → Search i n (find_cover_from members leaves start_index i n)
  unfolding find_cover_from
  find_cover_from-Search i zero team = λ j low high. absurd (omega arith)
  find_cover_from-Search i (suc n) team =
      let (c, at) =
        get_elem?-lt members ((start_index + i) % length members) (mod-lt (start_index + i) team) in
      elim (Bool-cases (original_is_on_leave c leaves)) [
        | inl away ↦
            subst (Search i (suc n)) (sym (find_cover_from_skip i n c at away))
              (extend i n _ (unavailable i n c at away) (find_cover_from-Search (suc i) n team))
        | inr free ↦
            subst (Search i (suc n)) (sym (find_cover_from_take i n c at free))
              (i, omega arith, omega arith, at, free, λ k low high. absurd (omega arith))
      ]

  -- The search over the whole team, with its first offset 0: the first member from the start index on,
  -- cyclically, who is not on leave; none if at each offset of the circle somebody is away.
  pub find_cover-Search :
      0 < length members → Search 0 (length members) (find_cover members leaves start_index)
  unfolding find_cover
  find_cover-Search team = find_cover_from-Search 0 (length members) team

  -- Each place of the circle is at some offset from the start.
  offset :
      (j : ℕ)
      → j < length members
      → (k : ℕ) × (k < length members) × ((start_index + k) % length members ≡ j)
  offset j h = elim (dec_lt j (start_index % length members)) [
    | yes p ↦ (j + length members - start_index % length members, omega arith, round p)
    | no p ↦ (j - start_index % length members, omega arith, straight p)
  ]
    where
      base : start_index % length members < length members
      base = mod-lt start_index (omega arith)

      round :
          j < start_index % length members
          → (start_index + (j + length members - start_index % length members)) % length members ≡ j
      round p =
          sym (mod-add-mod start_index (length members) _)
          ∙ ap (λ t. t % length members) (omega (arith, base))
          ∙ add-mod_right j (length members)
          ∙ mod-eq_of_lt h

      straight :
          ¬ (j < start_index % length members)
          → (start_index + (j - start_index % length members)) % length members ≡ j
      straight p =
          sym (mod-add-mod start_index (length members) _)
          ∙ ap (λ t. t % length members) (omega (arith, base))
          ∙ mod-eq_of_lt h

  -- If anybody of the team is not on leave, somebody is found, whatever the start index.
  find_cover-ne-none :
      (j : ℕ) (c : TeamMember)
      → j < length members
      → get_elem? members j ≡ some c
      → original_is_on_leave c leaves ≡ false
      → find_cover members leaves start_index ≢ none
  find_cover-ne-none j c h at free e =
      let (k, low, there) = offset j h in
      let all_away : Search 0 (length members) none =
        subst (Search 0 (length members)) e (find_cover-Search (omega arith)) in
      cc (all_away k (omega arith) (omega arith) c (rw there at), free)

  free_member :
      (r : Option TeamMember)
      → Search 0 (length members) r
      → (c : TeamMember) → r ≡ some c
      → (j : ℕ) × (j < length members)
        × (get_elem? members j ≡ some c)
        × (original_is_on_leave c leaves ≡ false)
  free_member none s c h = absurd (ground arith)
  free_member (some b) (j, low, high, at, free, before) c h =
      let same : b ≡ c = some-injective b c h in
      (
        (start_index + j) % length members,
        mod-lt (start_index + j) (omega arith),
        at ∙ h,
        subst (λ t. original_is_on_leave t leaves ≡ false) same free,
      )

  -- Whoever the search finds in a team that is not empty is a member of it who is not on leave.
  pub find_cover-free :
      (c : TeamMember)
      → find_cover members leaves start_index ≡ some c
      → 0 < length members
      → (j : ℕ) × (j < length members)
        × (get_elem? members j ≡ some c)
        × (original_is_on_leave c leaves ≡ false)
  find_cover-free c h team =
      free_member (find_cover members leaves start_index) (find_cover-Search team) c h
