-- ===== src/Wfh/Recurring/Preserves.antt =====
-- The materializer adds rows and changes none.
use madhatter.Base.{
  ◌+◌, ◌-◌, ℕ, zero, suc, ◌≡◌, refl, true, Bool-cases, List, [], ◌∷◌, inl, inr, Option, none,
  Option-cases, not, ltb, All, All-keep, All-keep_of, All-both, IsIn, All-IsIn, keep, Bool, All-imp,
}
use madhatter.Base.Sort.{All-sort_by}
use madhatter.Calendar.{Day}
use madhatter.Store.{TeamMember}
use madhatter.Store.Exec.{Error}
use madhatter.Store.Members.{get_active_team_members, is_recurring_wfh_on, has_any_recurring_wfh}
use madhatter.Wfh.{approved, Wfh, Service, WfhRequest}
use madhatter.Wfh.Requests.{has_wfh_request_on_date}
use madhatter.Wfh.Requests.Create.{recurring_request, create_approved_recurring_wfh_request}
use madhatter.Wfh.Requests.Insert.{
  Extends, Extends-refl, Extends-trans, Adds-Extends, create_recurring-Adds,
}
use madhatter.Wfh.Recurring.{
  Filled, materialize_day, materialize_days, materialize_for_member, materialize_members,
  effective_start, later_error, ensure_recurring_materialized,
}
use madhatter.Wfh.Recurring.Team.{day_filled-state}

-- An approved, recurring row of a contractual day of the member.
abbrev pub ContractRow : TeamMember → WfhRequest → Type 0
ContractRow m r =
    (is_recurring_wfh_on m r.date ≡ true)
    × (r.member_id ≡ m.id)
    × (r.status ≡ approved)
    × (r.is_recurring ≡ true)

materialize_day-Extends :
    (s : Service) (m : TeamMember) (d : Day) (w : Wfh)
    → Extends (ContractRow m) w (materialize_day s m d w).2
unfolding materialize_day
materialize_day-Extends s m d w = elim (Bool-cases (is_recurring_wfh_on m d)) [
  | inr off ↦ rw off (Extends-refl _ w)
  | inl on ↦ elim (Bool-cases (has_wfh_request_on_date m.id d w)) [
    | inl there ↦ rw (on, there) (Extends-refl _ w)
    | inr free ↦
        let o = create_approved_recurring_wfh_request s m.id d s.now w in
        let r : WfhRequest = recurring_request s (w.db.uuid w.db.drawn) m.id d s.now in
        rw (materialize_day, on, free, day_filled-state o)
          (Adds-Extends (ContractRow m) r w o (on, refl, refl, refl)
            (create_recurring-Adds s m.id d s.now w))
  ]
]

materialize_days-Extends :
    (s : Service) (m : TeamMember) (d : Day) (n i : ℕ) (w : Wfh)
    → Extends (ContractRow m) w (materialize_days s m d n i w).2
unfolding materialize_days
materialize_days-Extends s m d zero i w = Extends-refl _ w
materialize_days-Extends s m d (suc n) i w =
    let r : Filled = materialize_day s m d w in
    let first = materialize_day-Extends s m d w in
    elim (Option-cases r.1) [
      | inl fine ↦
          let rest = materialize_days-Extends s m (suc d) n (i + r.0) r.2 in
          rw (materialize_days, fine)
            (Extends-trans (ContractRow m) w r.2 (materialize_days s m (suc d) n (i + r.0) r.2).2
              first rest)
      | inr (e, failed) ↦ rw (materialize_days, failed) first
    ]

-- An active member who is in the table.
abbrev pub IsOnTeam : Wfh → TeamMember → Type 0
IsOnTeam w m = IsIn m w.db.members × (m.is_active ≡ true)

-- A row of some active member of the team, as the tables are in a state.
abbrev pub TeamRow : Wfh → WfhRequest → Type 0
TeamRow base r = (m : TeamMember) × IsOnTeam base m × ContractRow m r

of_team :
    (base : Wfh) (m : TeamMember) (w w' : Wfh)
    → IsOnTeam base m
    → Extends (ContractRow m) w w'
    → Extends (TeamRow base) w w'
of_team base m w w' active (ns, rows, all) =
    (ns, rows, All-imp (ContractRow m) (TeamRow base) ns (λ r c. (m, active, c)) all)

materialize_members-Extends :
    (base : Wfh) (s : Service) (start last : Day) (ms : List TeamMember) (i : ℕ) (e : Option Error)
    (w : Wfh)
    → All (IsOnTeam base) ms
    → Extends (TeamRow base) w (materialize_members s start last ms i e w).2
unfolding materialize_members materialize_for_member
materialize_members-Extends base s start last [] i e w active = Extends-refl _ w
materialize_members-Extends base s start last (m ∷ ms) i e w active =
    let r : Filled = materialize_for_member s m start last w in
    elim (Bool-cases (not (has_any_recurring_wfh m))) [
      | inl off ↦
          rw (materialize_members, off)
            (materialize_members-Extends base s start last ms i e w active.1)
      | inr on ↦
          let first : Extends (TeamRow base) w r.2 =
            of_team base m w r.2 active.0
              (materialize_days-Extends s m start (suc last - start) 0 w) in
          let rest =
            materialize_members-Extends base s start last ms (i + r.0) (later_error r.1 e) r.2
              active.1 in
          rw (materialize_members, on)
            (Extends-trans (TeamRow base) w r.2
              (materialize_members s start last ms (i + r.0) (later_error r.1 e) r.2).2 first rest)
    ]

on_team : (w : Wfh) → All (IsOnTeam w) (keep (λ (m : TeamMember). m.is_active) w.db.members)
on_team w =
    let here : TeamMember → Type 0 = λ m. IsIn m w.db.members in
    let active : TeamMember → Bool = λ m. m.is_active in
    All-both here (λ m. active m ≡ true) (keep active w.db.members)
      (All-keep_of here active w.db.members (All-IsIn w.db.members)) (All-keep active w.db.members)

-- The materializer leaves every request as it was, in whatever state the member put it, and adds to
-- them only approved, recurring rows of active members of the team on weekdays of their contracts.
pub ensure_recurring_materialized-preserves :
    (s : Service) (start last : Day) (w : Wfh)
    → Extends (TeamRow w) w (ensure_recurring_materialized s start last w).2
unfolding ensure_recurring_materialized get_active_team_members
ensure_recurring_materialized-preserves s start last w = elim (Bool-cases (ltb last start)) [
  | inl none_at_all ↦ rw none_at_all (Extends-refl _ w)
  | inr some_days ↦ elim (Bool-cases (ltb last (effective_start s start))) [
    | inl past ↦ rw (some_days, past) (Extends-refl _ w)
    | inr ahead ↦
        rw (some_days, ahead)
          (materialize_members-Extends w s (effective_start s start) last
            (get_active_team_members w.db) 0 none w (All-sort_by _ (IsOnTeam w) _ (on_team w)))
  ]
]
