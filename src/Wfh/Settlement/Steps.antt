-- ===== src/Wfh/Settlement/Steps.antt =====
-- What one decision of the settlement changes: the rows of one id, and nothing of the other tables.
use madhatter.Base.{
  ℕ, ◌≡◌, refl, sym, ap, ◌∙◌, Bool, true, ◌&&◌, ◌||◌, ◌==◌, List, [], ◌∷◌, keep, any, update, All,
  inl, inr, Bool-cases, arith, some, none, codes, Option, Text,
}
use madhatter.Base.Sort.{sort_by, any-sort_by}
use madhatter.Calendar.{Day}
use madhatter.Wfh.{
  WfhStatus, pending, approved, denied, WfhRequest, DenialReason, EventId, Wfh, Service, elem,
  row_id,
}
use madhatter.Wfh.Requests.{
  has_status_on, with_status, with_denial, set_request, update_wfh_request_status, deny_wfh_request,
  get_wfh_requests_by_date_and_status, by_created_at,
}
use madhatter.Wfh.Presence.{
  approved_member_ids, member_ids_from_wfh_requests, fire_wfh_state_changed,
}
use madhatter.Wfh.Settlement.{approve_one, deny_one}

-- Two states with the same team, leaves and users.

pub fire-requests :
    (s : Service) (e : EventId) (m : ℕ) (d : Day) (o : Option WfhStatus) (n : WfhStatus) (a : Text)
    (r : Option DenialReason) (w : Wfh)
    → ((fire_wfh_state_changed s e m d o n a r w).requests ≡ w.requests)
      × ((fire_wfh_state_changed s e m d o n a r w).db ≡ w.db)
unfolding fire_wfh_state_changed
fire-requests s e m d o n a r w = elim (Bool-cases s.notifying) [
  | inl p ↦ (rw p refl, rw p refl)
  | inr p ↦ (rw p refl, rw p refl)
]

abbrev pub change_row : ℕ → (WfhRequest → WfhRequest) → List WfhRequest → List WfhRequest
change_row id = update (λ (r : WfhRequest). r.id == id)

pub approve_one-rows :
    (s : Service) (r : WfhRequest) (w : Wfh)
    → ((approve_one s r w).requests ≡ change_row r.id (with_status s approved) w.requests)
      × ((approve_one s r w).db ≡ w.db)
unfolding approve_one update_wfh_request_status set_request
approve_one-rows s r w =
    fire-requests s (row_id r.id) r.member_id r.date (some pending) approved (codes "system") none
      (update_wfh_request_status s r.id approved w)

pub deny_one-rows :
    (s : Service) (x : DenialReason) (r : WfhRequest) (w : Wfh)
    → ((deny_one s x r w).requests ≡ change_row r.id (with_denial s x) w.requests)
      × ((deny_one s x r w).db ≡ w.db)
unfolding deny_one deny_wfh_request set_request
deny_one-rows s x r w =
    fire-requests s (row_id r.id) r.member_id r.date (some pending) denied (codes "system") (some x)
      (deny_wfh_request s r.id x w)

-- The members with an approved row on the date.
abbrev pub approved_for : Day → ℕ → WfhRequest → Bool
approved_for date z r = has_status_on date approved r && (r.member_id == z)

elem-rows :
    (z : ℕ) (q : WfhRequest → Bool) (rs : List WfhRequest)
    → elem z (member_ids_from_wfh_requests (keep q rs))
      ≡ any (λ (r : WfhRequest). q r && (r.member_id == z)) rs
elem-rows z q [] = refl
elem-rows z q (r ∷ rs) = ground (arith, elem-rows z q rs)

elem-map :
    (z : ℕ) (rs : List WfhRequest)
    → elem z (member_ids_from_wfh_requests rs) ≡ any (λ (r : WfhRequest). r.member_id == z) rs
elem-map z [] = refl
elem-map z (r ∷ rs) = ap (λ b. (r.member_id == z) || b) (elem-map z rs)

pub elem-approved :
    (z : ℕ) (date : Day) (w : Wfh)
    → elem z (approved_member_ids date w) ≡ any (approved_for date z) w.requests
unfolding approved_member_ids get_wfh_requests_by_date_and_status
elem-approved z date w =
    let rs = keep (has_status_on date approved) w.requests in
    elem-map z (sort_by by_created_at rs)
    ∙ any-sort_by by_created_at (λ (r : WfhRequest). r.member_id == z) rs
    ∙ sym (elem-map z rs)
    ∙ elem-rows z (has_status_on date approved) w.requests

-- Every row of the id of `r` belongs to the member of `r`.
abbrev pub OwnRows : WfhRequest → List WfhRequest → Type 0
OwnRows r = All (λ (q : WfhRequest). q.id ≡ r.id → q.member_id ≡ r.member_id)

-- An approval adds no member but the one of the request.
pub approved-change_row :
    (s : Service) (r : WfhRequest) (date : Day) (z : ℕ) (rs : List WfhRequest)
    → OwnRows r rs
    → any (approved_for date z) (change_row r.id (with_status s approved) rs) ≡ true
    → ((r.member_id == z) || any (approved_for date z) rs) ≡ true
approved-change_row s r date z [] own h = absurd (cc h)
approved-change_row s r date z (q ∷ rs) own h =
    ground (arith, approved-change_row s r date z rs own.1, own.0)

-- A denial adds none.
pub denied-change_row :
    (s : Service) (x : DenialReason) (id : ℕ) (date : Day) (z : ℕ) (rs : List WfhRequest)
    → any (approved_for date z) (change_row id (with_denial s x) rs) ≡ true
    → any (approved_for date z) rs ≡ true
denied-change_row s x id date z [] h = h
denied-change_row s x id date z (q ∷ rs) h = ground (arith, denied-change_row s x id date z rs)
