-- ===== src/Wfh/Settlement/Run.antt =====
-- The two ways in which the settlement of a date goes: nothing is done, or the loop runs over the
-- requests in their order.
use madhatter.Base.{
  ℕ, ◌-◌, ◌≡◌, refl, false, ◌==◌, List, length, Option-cases, Bool-cases, inl, inr, ◌⊎◌, some,
}
use madhatter.Calendar.{Day}
use madhatter.Store.Exec.{after}
use madhatter.Store.Members.{get_active_team_members}
use madhatter.Wfh.{WfhRequest, DenialReason, Wfh, Service}
use madhatter.Wfh.Period.{Period, compute_period_bounds}
use madhatter.Wfh.Presence.{count_unique_members, min_onsite_count}
use madhatter.Wfh.Settlement.{
  prioritise_in, prioritise_pending, settle_from, unavailable, settle_date,
}

-- `availableSlots`.
abbrev pub slots_available : Service → Day → Wfh → ℕ
slots_available s date w =
    length (get_active_team_members w.db)
    - count_unique_members (unavailable date w)
    - min_onsite_count s.cfg (length (get_active_team_members w.db))

abbrev pub Runs : Service → Day → List WfhRequest → Wfh → Type 0
Runs s date requests w =
    (p : Period) × (x : DenialReason) × (after (settle_date s date requests w)
      ≡ settle_from s x (slots_available s date w) 0 (prioritise_in p requests w) w)

-- With an active member and an anchor that is a date, the loop runs.
pub settle_date-Runs :
    (s : Service) (date : Day) (requests : List WfhRequest) (w : Wfh) (p : Period)
    → (length (get_active_team_members w.db) == 0) ≡ false
    → compute_period_bounds s.cfg date ≡ some p
    → Runs s date requests w
unfolding settle_date prioritise_pending
settle_date-Runs s date requests w p team bounds =
    let total = length (get_active_team_members w.db) in
    let x : DenialReason = record {
      min_onsite = min_onsite_count s.cfg total;
      slots_used = count_unique_members (unavailable date w);
    } in
    (p, x, rw (team, prioritise_pending, bounds) refl)

pub settle_date-cases :
    (s : Service) (date : Day) (requests : List WfhRequest) (w : Wfh)
    → (after (settle_date s date requests w) ≡ w) ⊎ Runs s date requests w
unfolding settle_date prioritise_pending
settle_date-cases s date requests w =
    elim (Bool-cases (length (get_active_team_members w.db) == 0)) [
      | inl team ↦ inl (rw team refl)
      | inr team ↦ elim (Option-cases (compute_period_bounds s.cfg date)) [
        | inl bounds ↦ inl (rw (team, prioritise_pending, bounds) refl)
        | inr (p, bounds) ↦ inr (settle_date-Runs s date requests w p team bounds)
      ]
    ]
