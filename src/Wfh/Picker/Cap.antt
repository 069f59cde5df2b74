-- ===== src/Wfh/Picker/Cap.antt =====
-- The seat cap: how many members the picker leaves in the office.
use madhatter.Base.{
  ℕ, suc, ◌<◌, ◌+◌, ◌-◌, ◌≤◌, ◌≡◌, refl, sym, ap, ◌∙◌, subst, Bool, List, [], ◌∷◌, ◌++◌, ◌⊎◌, inl,
  inr, length, arith, ◌||◌, ◌==◌, true, false, any, any-append, ||-assoc, ||-spread,
}
use madhatter.Calendar.{Day}
use madhatter.Store.{TeamMember}
use madhatter.Store.Exec.{after}
use madhatter.Store.Members.{get_active_team_members}
use madhatter.Wfh.{WfhRequest, Wfh, Service, elem}
use madhatter.Wfh.Presence.{
  count_unique_members, leave_member_ids_for_date, approved_member_ids, permanent_wfh_member_ids,
}
use madhatter.Wfh.Presence.Counting.{at_most_one_more}
use madhatter.Wfh.Requests.Create.{assigned_request}
use madhatter.Wfh.Requests.Insert.{SameTeam}
use madhatter.Wfh.Settlement.Steps.{elem-approved, approved_for}
use madhatter.Wfh.Picker.{insert_picks, away, on_site_count, run_picker}
use madhatter.Wfh.Picker.Run.{run_picker-cases}
use madhatter.Wfh.Picker.Picks.{PickOf, pick_one, pick_one-OnePick}

away_count : Day → Wfh → ℕ
away_count date w = count_unique_members (away date w)

fixed_away : Day → Wfh → List ℕ
fixed_away date w =
    leave_member_ids_for_date date w ++ permanent_wfh_member_ids (get_active_team_members w.db)

fixed_away_same : (date : Day) (w w' : Wfh) → SameTeam w w' → fixed_away date w' ≡ fixed_away date w
unfolding fixed_away leave_member_ids_for_date get_active_team_members
fixed_away_same date w w' same = rw (same.0, same.1) refl

elem-away :
    (z : ℕ) (date : Day) (w : Wfh)
    → elem z (away date w) ≡ (elem z (fixed_away date w) || any (approved_for date z) w.requests)
unfolding fixed_away
elem-away z date w =
    let on : ℕ → Bool = λ y. y == z in
    let leave = leave_member_ids_for_date date w in
    let perm = permanent_wfh_member_ids (get_active_team_members w.db) in
    let ids = approved_member_ids date w in
    any-append on leave (perm ++ ids)
    ∙ ap (λ b. any on leave || b) (any-append on perm ids)
    ∙ sym (||-assoc (any on leave) (any on perm) (any on ids))
    ∙ ap (λ b. b || any on ids) (sym (any-append on leave perm))
    ∙ ap (λ b. any on (leave ++ perm) || b) (elem-approved z date w)

picked_rows :
    (s : Service) (date : Day) (p : TeamMember) (w w' : Wfh) (z : ℕ)
    → (w'.requests ≡ w.requests)
      ⊎ ((r : WfhRequest) × PickOf s date p r × (w'.requests ≡ w.requests ++ r ∷ []))
    → any (approved_for date z) w'.requests ≡ true
    → ((p.id == z) || any (approved_for date z) w.requests) ≡ true
picked_rows s date p w w' z (inl rows) h =
    let t : any (approved_for date z) w.requests ≡ true =
      subst (λ rs. any (approved_for date z) rs ≡ true) rows h in
    ground (arith, t)
picked_rows s date p w w' z (inr (r, (id, of), rows)) h =
    let x : WfhRequest = assigned_request s id p.id date s.now in
    let q = approved_for date z in
    let t : any q (w.requests ++ x ∷ []) ≡ true =
      subst (λ rs. any q rs ≡ true) (rows ∙ ap (λ y. w.requests ++ y ∷ []) of) h in
    let u : (any q w.requests || (q x || false)) ≡ true =
      sym (any-append q w.requests (x ∷ [])) ∙ t in
    ground (arith, u)

-- A row more of a member adds at most that member.
pick_one-away :
    (s : Service) (date : Day) (p : TeamMember) (w : Wfh)
    → away_count date (pick_one s date p w) ≤ suc (away_count date w)
unfolding away_count
pick_one-away s date p w =
    let w' = pick_one s date p w in
    let (same, rows) = pick_one-OnePick s date p w in
    let fixed = fixed_away_same date w w' same in
    at_most_one_more p.id (away date w') (away date w) (λ z h.
      let F : Bool = elem z (fixed_away date w) in
      let after_pick =
        ap (λ l. elem z l || any (approved_for date z) w'.requests) (sym fixed)
        ∙ sym (elem-away z date w')
        ∙ h in
      ap (λ b. (p.id == z) || b) (elem-away z date w)
      ∙ ||-spread (p.id == z) F (any (approved_for date z) w'.requests) _
          (picked_rows s date p w w' z rows) after_pick)

insert_picks-away :
    (s : Service) (date : Day) (ps : List TeamMember) (w : Wfh)
    → (away_count date (insert_picks s date ps w) ≤ away_count date w + length ps)
      × SameTeam w (insert_picks s date ps w)
unfolding insert_picks
insert_picks-away s date [] w = (omega arith, (refl, refl))
insert_picks-away s date (p ∷ ps) w =
    let (rest, same) = insert_picks-away s date ps (pick_one s date p w) in
    let first = (pick_one-OnePick s date p w).0 in
    (omega (arith, rest, pick_one-away s date p w), (same.0 ∙ first.0, same.1 ∙ first.1))

active_same :
    (w w' : Wfh)
    → SameTeam w w'
    → length (get_active_team_members w'.db) ≡ length (get_active_team_members w.db)
unfolding get_active_team_members
active_same w w' same = rw same.0 refl

seats_left :
    (on_site on_site' total total' picks cap before after : ℕ)
    → on_site ≡ total - before
    → on_site' ≡ total' - after
    → total' ≡ total
    → after ≤ before + picks
    → picks ≤ on_site - cap
    → cap < on_site
    → cap ≤ on_site'
seats_left on_site on_site' total total' picks cap before after h h' t le few over = omega arith

on_site-away :
    (date : Day) (w : Wfh)
    → on_site_count date w ≡ length (get_active_team_members w.db) - away_count date w
unfolding on_site_count away_count
on_site-away date w = refl

-- Where the picker changes anything, it leaves at least as many members on site as there are seats:
-- it sends no more away than the excess. Otherwise the state is the one before.
pub run_picker-keeps_seats :
    (s : Service) (date : Day) (w : Wfh)
    → (after (run_picker s date w) ≡ w)
      ⊎ (s.cfg.seat_cap ≤ on_site_count date (after (run_picker s date w)))
run_picker-keeps_seats s date w = elim (run_picker-cases s date w) [
  | inl idle ↦ inl idle
  | inr (ps, few, over, _, runs) ↦
      let (le, same) = insert_picks-away s date ps w in
      let team = active_same w (insert_picks s date ps w) same in
      rw runs (
        inr (
          seats_left _ _ _ _ _ s.cfg.seat_cap _ _ (on_site-away date w)
            (on_site-away date (insert_picks s date ps w)) team le few over))
]
