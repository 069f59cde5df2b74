-- ===== src/Wfh/Picker/Run.antt =====
-- The two ways in which a run of the picker goes: nothing is done, or candidates are picked.
use madhatter.Base.{
  Bool, ap, ◌&&◌, not, ℕ, ◌-◌, ◌≤◌, ◌<◌, ◌≡◌, refl, true, false, Bool-cases, List, ◌⊎◌, inl, inr,
  length, take, map, All, All-keep, All-keep_of, All-both, IsIn, All-IsIn, keep, All-map, All-take,
  length-take-bound, Option-cases, is_empty, leb, ◌||◌, ||-false, leb-false, arith,
}
use madhatter.Base.Sort.{sort_by, All-sort_by}
use native.Mathlib.Nat.{le_trans}
use madhatter.Calendar.{Day}
use madhatter.Store.{TeamMember}
use madhatter.Store.Exec.{after}
use madhatter.Store.Members.{get_active_team_members, has_permanent_recurring_wfh}
use madhatter.Wfh.{approved, assigned, WfhRequest, Wfh, Service, today_utc, elem}
use madhatter.Wfh.Period.{Period, compute_period_bounds}
use madhatter.Wfh.Requests.Insert.{Extends, Extends-refl, Extends-imp}
use madhatter.Wfh.Picker.Picks.{PickOf, insert_picks-Extends}
use madhatter.Wfh.Presence.{leave_member_ids_for_date, approved_member_ids}
use madhatter.Wfh.Picker.{
  is_candidate, assign_candidates, picker_candidates, on_site_count, excess_of, run_picker,
  order_by_picker_priority, score_candidates, scored_first, PickerScored, insert_picks,
}

abbrev pub CanBePicked : Day → Wfh → TeamMember → Type 0
CanBePicked date w m =
    IsIn m w.db.members
    × (is_candidate (leave_member_ids_for_date date w) (approved_member_ids date w) m ≡ true)

-- The picks of a run: at most as many as the excess, and each a candidate.
abbrev pub Picked : Service → Day → Wfh → Type 0
Picked s date w =
    (ps : List TeamMember) × (length ps ≤ on_site_count date w - s.cfg.seat_cap)
    × (s.cfg.seat_cap < on_site_count date w)
    × All (CanBePicked date w) ps
    × (after (run_picker s date w) ≡ insert_picks s date ps w)

candidates-CanBePicked :
    (date : Day) (w : Wfh) → All (CanBePicked date w) (picker_candidates date w)
unfolding picker_candidates assign_candidates get_active_team_members
candidates-CanBePicked date w =
    let able = is_candidate (leave_member_ids_for_date date w) (approved_member_ids date w) in
    let team = get_active_team_members w.db in
    let here : TeamMember → Type 0 = λ m. IsIn m w.db.members in
    All-both here (λ m. able m ≡ true) (keep able team)
      (All-keep_of here able team
        (All-sort_by _ here _ (All-keep_of here _ w.db.members (All-IsIn w.db.members))))
      (All-keep able team)

-- `orderByPickerPriority` with the period at hand.
ordered : Service → List TeamMember → Day → Period → Wfh → List TeamMember
ordered s candidates date p w =
    map (λ (x : PickerScored). x.m) (sort_by scored_first (score_candidates s candidates date p w))

ordered-All :
    (P : TeamMember → Type 0) (s : Service) (cs : List TeamMember) (date : Day) (p : Period)
    (w : Wfh)
    → All P cs
    → All P (ordered s cs date p w)
unfolding ordered score_candidates
ordered-All P s cs date p w h =
    let P' : PickerScored → Type 0 = λ x. P x.m in
    All-map P' P (λ (x : PickerScored). x.m) (sort_by scored_first (score_candidates s cs date p w))
      (λ x k. k)
      (All-sort_by scored_first P' (score_candidates s cs date p w)
        (All-map P P' _ cs (λ x k. k) h))

excess_of-le : (e c : ℕ) → excess_of e c ≤ e
unfolding excess_of
excess_of-le e c = ground arith

pub run_picker-cases :
    (s : Service) (date : Day) (w : Wfh) → (after (run_picker s date w) ≡ w) ⊎ Picked s date w
unfolding run_picker order_by_picker_priority ordered
run_picker-cases s date w =
    elim (Bool-cases
      (is_empty (get_active_team_members w.db) || leb (on_site_count date w) s.cfg.seat_cap)) [
        | inl idle ↦ inl (rw idle refl)
        | inr over ↦ elim (Option-cases (compute_period_bounds s.cfg (today_utc s))) [
          | inl bounds ↦ inl (rw (over, order_by_picker_priority, bounds) refl)
          | inr (p, bounds) ↦
              let cs = picker_candidates date w in
              let n = excess_of (on_site_count date w - s.cfg.seat_cap) (length cs) in
              let order = ordered s cs date p w in
              let more : leb (on_site_count date w) s.cfg.seat_cap ≡ false =
                (||-false (is_empty (get_active_team_members w.db)) _ over).1 in
              inr (
                take n order,
                le_trans (length-take-bound n order) (excess_of-le _ (length cs)),
                leb-false _ _ more,
                All-take _ n order (ordered-All _ s cs date p w (candidates-CanBePicked date w)),
                rw (over, order_by_picker_priority, bounds) refl,
              )
        ]
      ]

-- Why a member of the team may be picked for a date.
abbrev pub IsFreeFor : Day → Wfh → TeamMember → Type 0
IsFreeFor date w m =
    IsIn m w.db.members
    × (m.is_active ≡ true)
    × (has_permanent_recurring_wfh m ≡ false)
    × (m.is_exempt_from_assignment ≡ false)
    × (elem m.id (leave_member_ids_for_date date w) ≡ false)
    × (elem m.id (approved_member_ids date w) ≡ false)

-- An approved row that the picker made for a free member.
abbrev pub PickedRow : Day → Wfh → WfhRequest → Type 0
PickedRow date w r =
    (m : TeamMember) × IsFreeFor date w m
    × (r.member_id ≡ m.id)
    × (r.date ≡ date)
    × (r.status ≡ approved)
    × (r.origin ≡ assigned)

all_five :
    (a b c d e : Bool)
    → (a && (not b && (not c && (not d && not e)))) ≡ true
    → (a ≡ true) × (b ≡ false) × (c ≡ false) × (d ≡ false) × (e ≡ false)
all_five true false false false false h = (refl, refl, refl, refl, refl)
all_five true false false false true h = absurd (cc h)
all_five true false false true e h = absurd (cc h)
all_five true false true d e h = absurd (cc h)
all_five true true c d e h = absurd (cc h)
all_five false b c d e h = absurd (cc h)

picked_row :
    (s : Service) (date : Day) (w : Wfh) (r : WfhRequest)
    → (m : TeamMember) × CanBePicked date w m × PickOf s date m r
    → PickedRow date w r
picked_row s date w r (m, (here, able), (id, of)) =
    let (active, contract, exempt, leave, away) =
      all_five m.is_active (has_permanent_recurring_wfh m) m.is_exempt_from_assignment
        (elem m.id (leave_member_ids_for_date date w)) (elem m.id (approved_member_ids date w))
        able in
    (
      m,
      (here, active, contract, exempt, leave, away),
      ap (λ x. x.member_id) of,
      ap (λ x. x.date) of,
      ap (λ x. x.status) of,
      ap (λ x. x.origin) of,
    )

-- A run of the picker leaves every request as it was and adds to them only approved, assigned rows of
-- the date for members of the team who are active, not always away, not exempt, not on leave and not approved
-- for the date.
pub run_picker-adds_candidates :
    (s : Service) (date : Day) (w : Wfh)
    → Extends (PickedRow date w) w (after (run_picker s date w))
run_picker-adds_candidates s date w = elim (run_picker-cases s date w) [
  | inl idle ↦ rw idle (Extends-refl _ w)
  | inr (ps, _, _, able, runs) ↦ rw runs (
      Extends-imp _ (PickedRow date w) w (insert_picks s date ps w) (picked_row s date w)
        (insert_picks-Extends (CanBePicked date w) s date ps w able))
]
