-- ===== src/Wfh/Tick/Settles.antt =====
-- A tick of the scheduler decides every request that is due.
use madhatter.Base.{
  ℕ, zero, suc, ◌≡◌, refl, sym, ap, subst, true, false, ◌==◌, List, [], ◌∷◌, keep, All, inl, inr,
  Bool-cases, if◌then◌else◌, some, length, not_true, All-imp,
}
use madhatter.Base.Sort.{sort_by}
use madhatter.Calendar.{Day, is_weekend}
use madhatter.Store.Exec.{after}
use madhatter.Store.Members.{get_active_team_members}
use madhatter.Wfh.{WfhRequest, Wfh, Service, today_utc}
use madhatter.Wfh.Period.Tiling.{compute_period_bounds-some}
use madhatter.Wfh.Requests.{is_settleable, get_pending_for_settlement}
use madhatter.Wfh.Settlement.{settle_date}
use madhatter.Wfh.Swaps.{cancel_expired_wfh_swaps}
use madhatter.Wfh.CoPresence.{backfill_co_presence}
use madhatter.Wfh.CoPresence.Rows.{backfill_co_presence-OnlyPairs}
use madhatter.Wfh.Picker.{picker_disabled, assign_wfh_for_date}
use madhatter.Wfh.Picker.Quiet.{Settled, assign_wfh_for_date-Settled}
use madhatter.Wfh.Recurring.{ensure_recurring_materialized}
use madhatter.Wfh.Recurring.Team.{ensure_recurring-SameTeam}
use madhatter.Wfh.Tick.{
  settle_dates, of_date, dates_of, distinct, settlement_cutoff, settle_assignment_pass,
  assign_dates, auto_cancel_expired_swaps, settle_requests, settle_pending_requests,
}
use madhatter.Wfh.Tick.Left.{Left, settle_date-Left}
use madhatter.Wfh.Tick.Dated.{ids_on, starts_Left}

settle_dates-Left :
    (s : Service) (cutoff anchor : Day) (rs : List WfhRequest) (ds : List Day) (w : Wfh)
    → (length (get_active_team_members w.db) == 0) ≡ false
    → s.cfg.period_anchor ≡ some anchor
    → Left cutoff (ids_on rs ds) w.requests
    → Left cutoff [] (settle_dates s rs ds w).requests
unfolding settle_dates
settle_dates-Left s cutoff anchor rs [] w team there h = h
settle_dates-Left s cutoff anchor rs (d ∷ ds) w team there h =
    let (p, bounds) = compute_period_bounds-some s.cfg anchor d there in
    let (left, db) = settle_date-Left s d (of_date d rs) cutoff (ids_on rs ds) w p team bounds h in
    settle_dates-Left s cutoff anchor rs ds (after (settle_date s d (of_date d rs) w)) (rw db team)
      there left

Left-Settled : (cutoff : Day) (w : Wfh) → Left cutoff [] w.requests → Settled cutoff w
Left-Settled cutoff w =
    All-imp _ _ w.requests (λ q f. not_true (is_settleable cutoff q) (λ e. cc (f e)))

assign_dates-Settled :
    (s : Service) (n cutoff : ℕ) (d : Day) (w : Wfh)
    → Settled cutoff w
    → Settled cutoff (assign_dates s n d w)
unfolding assign_dates
assign_dates-Settled s zero cutoff d w h = h
assign_dates-Settled s (suc n) cutoff d w h =
    let w' = after (assign_wfh_for_date s d w) in
    elim (is_weekend d) as (λ b. Settled cutoff (assign_dates s n (suc d) (if b then w else w'))) [
      | true ↦ assign_dates-Settled s n cutoff (suc d) w h
      | false ↦
          assign_dates-Settled s n cutoff (suc d) w' (assign_wfh_for_date-Settled s d cutoff w h)
    ]

pass-Settled :
    (s : Service) (cutoff : Day) (w : Wfh)
    → Settled cutoff w
    → Settled cutoff (settle_assignment_pass s w)
unfolding settle_assignment_pass
pass-Settled s cutoff w h = elim (Bool-cases (picker_disabled s.cfg)) [
  | inl off ↦ rw off h
  | inr on ↦ rw on (assign_dates-Settled s (suc s.cfg.settlement_days) cutoff (today_utc s) w h)
]

keep_none :
    (cutoff : Day) (rs : List WfhRequest)
    → All (λ (q : WfhRequest). is_settleable cutoff q ≡ false) rs
    → keep (is_settleable cutoff) rs ≡ []
keep_none cutoff [] h = refl
keep_none cutoff (r ∷ rs) h = rw (h.0, keep_none cutoff rs h.1) refl

Settled-none_pending :
    (cutoff : Day) (w : Wfh) → Settled cutoff w → get_pending_for_settlement cutoff w ≡ []
unfolding get_pending_for_settlement sort_by
Settled-none_pending cutoff w h = rw (keep_none cutoff w.requests h) refl

active_left :
    (w w' : Wfh)
    → w'.db.members ≡ w.db.members
    → (length (get_active_team_members w.db) == 0) ≡ false
    → (length (get_active_team_members w'.db) == 0) ≡ false
unfolding get_active_team_members
active_left w w' same h = rw same h

-- The part of the tick after the materializer.
settles_from :
    (s : Service) (anchor : Day) (w : Wfh)
    → (length (get_active_team_members w.db) == 0) ≡ false
    → s.cfg.period_anchor ≡ some anchor
    → let cutoff = settlement_cutoff s in
      let rs = get_pending_for_settlement cutoff w in
      Settled cutoff (settle_dates s rs (dates_of rs) w)
settles_from s anchor w team there =
    let cutoff = settlement_cutoff s in
    let rs = get_pending_for_settlement cutoff w in
    Left-Settled cutoff (settle_dates s rs (dates_of rs) w)
      (settle_dates-Left s cutoff anchor rs (dates_of rs) w team there (starts_Left cutoff w))

-- The last steps of a tick change no request.
last_steps :
    (s : Service) (w : Wfh)
    → (backfill_co_presence s (auto_cancel_expired_swaps s w)).requests ≡ w.requests
unfolding auto_cancel_expired_swaps cancel_expired_wfh_swaps
last_steps s w =
    sym (ap (λ x. x.requests) (backfill_co_presence-OnlyPairs s (auto_cancel_expired_swaps s w)))

settle_requests-Settled :
    (s : Service) (cutoff : Day) (rs : List WfhRequest) (w : Wfh)
    → Settled cutoff (settle_dates s rs (dates_of rs) w)
    → Settled cutoff (settle_requests s rs w)
unfolding settle_requests settle_dates distinct sort_by
settle_requests-Settled s cutoff [] w h = pass-Settled s cutoff w h
settle_requests-Settled s cutoff (r ∷ rs) w h =
    subst (All (λ (q : WfhRequest). is_settleable cutoff q ≡ false)) (sym (last_steps s _))
      (pass-Settled s cutoff (settle_dates s (r ∷ rs) (dates_of (r ∷ rs)) w) h)

-- With an active member and an anchor that is a date, no ad-hoc request dated up to the cutoff is
-- pending after a tick: the query for the requests to settle finds none.
pub settle_pending_requests-decides_all :
    (s : Service) (anchor : Day) (w : Wfh)
    → (length (get_active_team_members w.db) == 0) ≡ false
    → s.cfg.period_anchor ≡ some anchor
    → get_pending_for_settlement (settlement_cutoff s) (settle_pending_requests s w) ≡ []
unfolding settle_pending_requests
settle_pending_requests-decides_all s anchor w team there =
    let cutoff = settlement_cutoff s in
    let w₁ = (ensure_recurring_materialized s (today_utc s) cutoff w).2 in
    let same = ensure_recurring-SameTeam s (today_utc s) cutoff w in
    let rs = get_pending_for_settlement cutoff w₁ in
    Settled-none_pending cutoff (settle_requests s rs w₁) (
      settle_requests-Settled s cutoff rs w₁
        (settles_from s anchor w₁ (active_left w w₁ same.0 team) there))
