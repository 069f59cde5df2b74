-- ===== src/Wfh/Settlement/Floor.antt =====
-- The floor of the settlement: how many members may be away on a date after it.
use madhatter.Base.{
  ||-false_right, ||-spread, ℕ, suc, ◌+◌, ◌-◌, ◌≤◌, ◌≡◌, refl, sym, ap, ◌∙◌, subst, Bool, true,
  false, ◌||◌, ◌==◌, leb, List, [], ◌∷◌, ◌++◌, map, any, All, any-append, inl, inr, Bool-cases,
  arith, length, ◌⊎◌, All-map, ◌<◌, if◌then◌else◌,
}
use madhatter.Base.Sort.{sort_by, All-sort_by}
use madhatter.Calendar.{Day}
use madhatter.Store.{Db}
use madhatter.Store.Exec.{after}
use madhatter.Store.Members.{get_active_team_members}
use madhatter.Wfh.{approved, WfhRequest, DenialReason, Wfh, Service, elem}
use madhatter.Wfh.Requests.{with_status, with_denial}
use madhatter.Wfh.Presence.{
  count_unique_members, leave_member_ids_for_date, approved_member_ids, min_onsite_count,
}
use madhatter.Wfh.Presence.Counting.{Within, count-Within, at_most_one_more}
use madhatter.Wfh.Period.{Period}
use madhatter.Wfh.Settlement.{
  approve_one, deny_one, settle_from, unavailable, settle_date, prioritise_in, PendingWithUsage,
  comes_first, with_usage,
}
use madhatter.Wfh.Settlement.Run.{slots_available, settle_date-cases}
use native.Mathlib.Nat.{le_refl}
use madhatter.Wfh.Settlement.Steps.{
  change_row, approve_one-rows, deny_one-rows, elem-approved, OwnRows, approved-change_row,
  denied-change_row, approved_for,
}

away_count : Day → Wfh → ℕ
away_count date w = count_unique_members (unavailable date w)

elem-unavailable :
    (z : ℕ) (date : Day) (w : Wfh)
    → elem z (unavailable date w)
      ≡ (elem z (leave_member_ids_for_date date w) || any (approved_for date z) w.requests)
elem-unavailable z date w =
    any-append (λ y. y == z) (leave_member_ids_for_date date w) (approved_member_ids date w)
    ∙ ap (λ b. elem z (leave_member_ids_for_date date w) || b) (elem-approved z date w)

leaves_same :
    (date : Day) (w w' : Wfh)
    → w'.db ≡ w.db
    → leave_member_ids_for_date date w' ≡ leave_member_ids_for_date date w
unfolding leave_member_ids_for_date
leaves_same date w w' same =
    ap (λ (t : Db). leave_member_ids_for_date date (record w { db = t })) same

-- Where the leaves are those of before, the members away are within a set that holds those leaves
-- and the members approved now.
unavailable-Within :
    (date : Day) (w w' : Wfh) (extra : List ℕ)
    → w'.db ≡ w.db
    → ((z : ℕ)
        → any (approved_for date z) w'.requests ≡ true
        → (elem z extra || any (approved_for date z) w.requests) ≡ true)
    → Within (unavailable date w') (extra ++ unavailable date w)
unavailable-Within date w w' extra same more z h =
    let leaves = leaves_same date w w' same in
    let L : Bool = elem z (leave_member_ids_for_date date w) in
    let before = sym (elem-unavailable z date w') ∙ h in
    let split = ap (λ l. elem z l || any (approved_for date z) w'.requests) leaves in
    any-append (λ y. y == z) extra (unavailable date w)
    ∙ ap (λ b. elem z extra || b) (elem-unavailable z date w)
    ∙ ||-spread (elem z extra) L (any (approved_for date z) w'.requests)
        (any (approved_for date z) w.requests) (more z) (sym split ∙ before)

deny_one-away :
    (s : Service) (x : DenialReason) (r : WfhRequest) (date : Day) (w : Wfh)
    → away_count date (deny_one s x r w) ≤ away_count date w
unfolding away_count
deny_one-away s x r date w =
    let (rows, same) = deny_one-rows s x r w in
    count-Within _ _ (
      unavailable-Within date w (deny_one s x r w) [] same (λ z h.
        denied-change_row s x r.id date z w.requests
          (subst (λ rs. any (approved_for date z) rs ≡ true) rows h)))

approve_one-away :
    (s : Service) (r : WfhRequest) (date : Day) (w : Wfh)
    → OwnRows r w.requests
    → away_count date (approve_one s r w) ≤ suc (away_count date w)
unfolding away_count
approve_one-away s r date w own =
    let (rows, same) = approve_one-rows s r w in
    at_most_one_more r.member_id (unavailable date (approve_one s r w)) (unavailable date w) (
      unavailable-Within date w (approve_one s r w) (r.member_id ∷ []) same (λ z h.
        ap (λ b. b || any (approved_for date z) w.requests) (||-false_right (r.member_id == z))
        ∙ approved-change_row s r date z w.requests own
            (subst (λ rs. any (approved_for date z) rs ≡ true) rows h)))

own-change_row :
    (r : WfhRequest) (id : ℕ) (f : WfhRequest → WfhRequest) (rs : List WfhRequest)
    → ((q : WfhRequest) → ((f q).id ≡ q.id) × ((f q).member_id ≡ q.member_id))
    → OwnRows r rs
    → OwnRows r (change_row id f rs)
own-change_row r id f [] keeps own = tt
own-change_row r id f (q ∷ rs) keeps own = (
  elim (q.id == id)
      as (λ b. (if b then f q else q).id ≡ r.id → (if b then f q else q).member_id ≡ r.member_id) [
        | true ↦ λ e. (keeps q).1 ∙ own.0 (sym (keeps q).0 ∙ e)
        | false ↦ own.0
      ],
  own-change_row r id f rs keeps own.1,
)

All-own-change_row :
    (id : ℕ) (f : WfhRequest → WfhRequest) (qs rs : List WfhRequest)
    → ((q : WfhRequest) → ((f q).id ≡ q.id) × ((f q).member_id ≡ q.member_id))
    → All (λ r. OwnRows r rs) qs
    → All (λ r. OwnRows r (change_row id f rs)) qs
All-own-change_row id f [] rs keeps h = tt
All-own-change_row id f (q ∷ qs) rs keeps h =
    (own-change_row q id f rs keeps h.0, All-own-change_row id f qs rs keeps h.1)

-- Each of the requests has the member of its row.
abbrev pub OfRows : List WfhRequest → Wfh → Type 0
OfRows qs w = All (λ r. OwnRows r w.requests) qs

settle_from-away :
    (s : Service) (x : DenialReason) (available i : ℕ) (rs : List WfhRequest) (date : Day) (w : Wfh)
    → OfRows rs w
    → away_count date (settle_from s x available i rs w) ≤ away_count date w + (available - i)
unfolding settle_from
settle_from-away s x available i [] date w own = omega arith
settle_from-away s x available i (r ∷ rs) date w own = elim (Bool-cases (leb available i)) [
  | inl full ↦
      let (rows, _) = deny_one-rows s x r w in
      let own' : OfRows rs (deny_one s x r w) =
        subst (λ qs. All (λ q. OwnRows q qs) rs) (sym rows)
          (All-own-change_row r.id (with_denial s x) rs w.requests (λ q. (refl, refl)) own.1) in
      rw full (
        omega (
          arith,
          settle_from-away s x available (suc i) rs date (deny_one s x r w) own',
          deny_one-away s x r date w,
        ))
  | inr free ↦
      let (rows, _) = approve_one-rows s r w in
      let own' : OfRows rs (approve_one s r w) =
        subst (λ qs. All (λ q. OwnRows q qs) rs) (sym rows)
          (All-own-change_row r.id (with_status s approved) rs w.requests (λ q. (refl, refl))
            own.1) in
      let slot : i < available = ground arith in
      rw free (
        omega (
          arith,
          settle_from-away s x available (suc i) rs date (approve_one s r w) own',
          approve_one-away s r date w own.0,
        ))
]

own-prioritise_in :
    (p : Period) (qs : List WfhRequest) (w : Wfh) → OfRows qs w → OfRows (prioritise_in p qs w) w
unfolding prioritise_in
own-prioritise_in p qs w own =
    let P : WfhRequest → Type 0 = λ r. OwnRows r w.requests in
    let P' : PendingWithUsage → Type 0 = λ x. OwnRows x.req w.requests in
    let items = map (with_usage p w) qs in
    All-map P' P (λ (x : PendingWithUsage). x.req) (sort_by comes_first items) (λ x h. h)
      (All-sort_by comes_first P' items (All-map P P' (with_usage p w) qs (λ x h. h) own))

within_floor :
    (after before total least : ℕ)
    → after ≤ before + (total - before - least - 0)
    → (after ≤ before) ⊎ (after + least ≤ total)
within_floor after before total least h = ground arith

-- Where each request given has the member of its row, the settlement of a date leaves no more members
-- away than were away before it, or else leaves, with those that are away, at most the active team
-- less the minimum on site.
pub settle_date-floor :
    (s : Service) (date : Day) (requests : List WfhRequest) (w : Wfh)
    → OfRows requests w
    → let w' = after (settle_date s date requests w) in
      let total = length (get_active_team_members w.db) in
      (count_unique_members (unavailable date w') ≤ count_unique_members (unavailable date w))
      ⊎ (count_unique_members (unavailable date w') + min_onsite_count s.cfg total ≤ total)
unfolding away_count
settle_date-floor s date requests w own = elim (settle_date-cases s date requests w) [
  | inl same ↦ rw same (inl (le_refl _))
  | inr (p, x, runs) ↦
      let slots = slots_available s date w in
      let le : away_count date (settle_from s x slots 0 (prioritise_in p requests w) w)
          ≤ away_count date w + (slots - 0) =
        settle_from-away s x slots 0 (prioritise_in p requests w) date w
          (own-prioritise_in p requests w own) in
      rw runs (within_floor _ _ _ _ le)
]
