-- ===== src/Wfh/Recurring/Team.antt =====
-- The materializer writes requests and nothing else.
use madhatter.Base.{
  ◌+◌, ◌-◌, ℕ, zero, suc, ◌≡◌, refl, ◌∙◌, Bool-cases, List, [], ◌∷◌, inl, inr, Option, none,
  Option-cases, not, ltb,
}
use madhatter.Calendar.{Day}
use madhatter.Store.{TeamMember}
use madhatter.Store.Exec.{Error, Outcome, ok, err, after}
use madhatter.Store.Members.{get_active_team_members, is_recurring_wfh_on, has_any_recurring_wfh}
use madhatter.Wfh.{Wfh, Service}
use madhatter.Wfh.Requests.{has_wfh_request_on_date}
use madhatter.Wfh.Requests.Create.{recurring_request, create_approved_recurring_wfh_request}
use madhatter.Wfh.Requests.Insert.{SameTeam, create_recurring-Adds, Adds-SameTeam}
use madhatter.Wfh.Recurring.{
  Filled, day_filled, materialize_day, materialize_days, materialize_for_member,
  materialize_members, effective_start, later_error, ensure_recurring_materialized,
}

pub day_filled-state : (o : Outcome Wfh Unit) → (day_filled o).2 ≡ after o
unfolding day_filled
day_filled-state (ok _ w) = refl
day_filled-state (err e w) = refl

materialize_day-SameTeam :
    (s : Service) (m : TeamMember) (d : Day) (w : Wfh) → SameTeam w (materialize_day s m d w).2
unfolding materialize_day
materialize_day-SameTeam s m d w = elim (Bool-cases (not (is_recurring_wfh_on m d))) [
  | inl off ↦ rw off (refl, refl)
  | inr on ↦ elim (Bool-cases (has_wfh_request_on_date m.id d w)) [
    | inl there ↦ rw (on, there) (refl, refl)
    | inr free ↦
        let o = create_approved_recurring_wfh_request s m.id d s.now w in
        rw (on, free, day_filled-state o)
          (Adds-SameTeam (recurring_request s (w.db.uuid w.db.drawn) m.id d s.now) w o
            (create_recurring-Adds s m.id d s.now w))
  ]
]

materialize_days-SameTeam :
    (s : Service) (m : TeamMember) (d : Day) (n i : ℕ) (w : Wfh)
    → SameTeam w (materialize_days s m d n i w).2
unfolding materialize_days
materialize_days-SameTeam s m d zero i w = (refl, refl)
materialize_days-SameTeam s m d (suc n) i w =
    let r : Filled = materialize_day s m d w in
    let first = materialize_day-SameTeam s m d w in
    elim (Option-cases r.1) [
      | inl fine ↦
          let rest = materialize_days-SameTeam s m (suc d) n (i + r.0) r.2 in
          rw (materialize_days, fine) (rest.0 ∙ first.0, rest.1 ∙ first.1)
      | inr (e, failed) ↦ rw (materialize_days, failed) first
    ]

materialize_members-SameTeam :
    (s : Service) (start last : Day) (ms : List TeamMember) (i : ℕ) (e : Option Error) (w : Wfh)
    → SameTeam w (materialize_members s start last ms i e w).2
unfolding materialize_members materialize_for_member
materialize_members-SameTeam s start last [] i e w = (refl, refl)
materialize_members-SameTeam s start last (m ∷ ms) i e w =
    let r : Filled = materialize_for_member s m start last w in
    elim (Bool-cases (not (has_any_recurring_wfh m))) [
      | inl off ↦ rw (materialize_members, off) (materialize_members-SameTeam s start last ms i e w)
      | inr on ↦
          let first : SameTeam w r.2 = materialize_days-SameTeam s m start (suc last - start) 0 w in
          let rest =
            materialize_members-SameTeam s start last ms (i + r.0) (later_error r.1 e) r.2 in
          rw (materialize_members, on) (rest.0 ∙ first.0, rest.1 ∙ first.1)
    ]

pub ensure_recurring-SameTeam :
    (s : Service) (start last : Day) (w : Wfh)
    → SameTeam w (ensure_recurring_materialized s start last w).2
unfolding ensure_recurring_materialized
ensure_recurring-SameTeam s start last w = elim (Bool-cases (ltb last start)) [
  | inl none_at_all ↦ rw none_at_all (refl, refl)
  | inr some_days ↦ elim (Bool-cases (ltb last (effective_start s start))) [
    | inl past ↦ rw (some_days, past) (refl, refl)
    | inr ahead ↦
        rw (some_days, ahead)
          (materialize_members-SameTeam s (effective_start s start) last
            (get_active_team_members w.db) 0 none w)
  ]
]
