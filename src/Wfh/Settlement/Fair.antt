-- ===== src/Wfh/Settlement/Fair.antt =====
-- The order in which the requests of a date are decided.
use madhatter.Base.{
  ℕ, suc, ◌<◌, ◌≤◌, ◌≡◌, refl, ap, ◌∙◌, subst, Bool, true, false, not, ◌&&◌, ◌==◌, ltb, Bool-cases,
  if◌then◌else◌, List, [], ◌∷◌, map, All, keep, length, ◌⊎◌, inl, inr, arith,
}
use madhatter.Base.Sort.{
  sort_by, sort_by-perm, sort_by-IsSorted, All-sort_by, length-sort_by, IsSorted,
}
use mathlib.Core.List.{Perm}
use mathlib.Core.List.Perm
use madhatter.Wfh.{
  WfhStatus, pending, approved, denied, cancelled, withdrawn, is_assigned, WfhRequest, Wfh,
}
use madhatter.Wfh.Requests.{is_voluntary_in, get_wfh_requests_voluntary_in_period}
use madhatter.Wfh.Period.{Period, in_period}
use madhatter.Wfh.Settlement.{PendingWithUsage, comes_first, with_usage, prioritise_in}

-- The statuses of a day that is asked for or given.
abbrev pub is_wanted : WfhStatus → Bool
is_wanted pending = true
is_wanted approved = true
is_wanted denied = false
is_wanted cancelled = false
is_wanted withdrawn = false

-- The days of a period that a member took or asks for, less those that the program assigned.
abbrev pub days_used : Period → ℕ → List WfhRequest → ℕ
days_used p m [] = 0
days_used p m (r ∷ rs) =
    let rest = days_used p m rs in
    if (r.member_id == m)
      && (in_period p r.date && (is_wanted r.status && not (is_assigned r.origin)))
    then suc rest
    else rest

-- One request may stand before another: its member has used fewer days, or as many and it is not the
-- younger one.
abbrev pub NoLater : Period → Wfh → WfhRequest → WfhRequest → Type 0
NoLater p w a b =
    (days_used p a.member_id w.requests < days_used p b.member_id w.requests)
    ⊎ ((days_used p a.member_id w.requests ≡ days_used p b.member_id w.requests)
        × (a.created_at ≤ b.created_at))

-- Each request may stand before all that come after it.
abbrev pub InOrder : (WfhRequest → WfhRequest → Type 0) → List WfhRequest → Type 0
InOrder R [] = Unit
InOrder R (r ∷ rs) = All (R r) rs × InOrder R rs

length-days_used :
    (p : Period) (m : ℕ) (rs : List WfhRequest)
    → length (keep (is_voluntary_in m p) rs) ≡ days_used p m rs
length-days_used p m [] = refl
length-days_used p m (r ∷ rs) = ground (arith, length-days_used p m rs)

comes_first_total : (a b : PendingWithUsage) → comes_first a b ≡ false → comes_first b a ≡ true
comes_first_total a b h = ground arith

map-req :
    (p : Period) (w : Wfh) (rs : List WfhRequest)
    → map (λ (x : PendingWithUsage). x.req) (map (with_usage p w) rs) ≡ rs
map-req p w [] = refl
map-req p w (r ∷ rs) = ap (λ t. r ∷ t) (map-req p w rs)

IsOwn : Period → Wfh → PendingWithUsage → Type 0
IsOwn p w x = x ≡ with_usage p w x.req

All-IsOwn :
    (p : Period) (w : Wfh) (rs : List WfhRequest) → All (IsOwn p w) (map (with_usage p w) rs)
unfolding IsOwn
All-IsOwn p w [] = tt
All-IsOwn p w (r ∷ rs) = (refl, All-IsOwn p w rs)

used-days_used :
    (p : Period) (w : Wfh) (x : PendingWithUsage)
    → IsOwn p w x
    → x.used_days ≡ days_used p x.req.member_id w.requests
unfolding IsOwn get_wfh_requests_voluntary_in_period
used-days_used p w x own =
    ap (λ (y : PendingWithUsage). y.used_days) own
    ∙ length-sort_by _ (keep (is_voluntary_in x.req.member_id p) w.requests)
    ∙ length-days_used p x.req.member_id w.requests

comes_first-NoLater :
    (p : Period) (w : Wfh) (x y : PendingWithUsage)
    → IsOwn p w x
    → IsOwn p w y
    → comes_first x y ≡ true
    → NoLater p w x.req y.req
comes_first-NoLater p w x y hx hy h =
    let ux = used-days_used p w x hx in
    let uy = used-days_used p w y hy in
    elim (Bool-cases (ltb x.used_days y.used_days)) [
      | inl less ↦ inl (ground (arith, ux, uy))
      | inr more ↦ inr (ground (arith, ux, uy), ground (arith, ux, uy))
    ]

comes_first_trans :
    (a b c : PendingWithUsage)
    → comes_first a b ≡ true
    → comes_first b c ≡ true
    → comes_first a c ≡ true
comes_first_trans a b c h k = ground arith

-- What comes first comes before all the others.
comes_first-All :
    (p : Period) (w : Wfh) (x : PendingWithUsage) (ys : List PendingWithUsage)
    → IsOwn p w x
    → All (IsOwn p w) ys
    → IsSorted comes_first (x ∷ ys)
    → All (NoLater p w x.req) (map (λ (y : PendingWithUsage). y.req) ys)
comes_first-All p w x [] own all h = tt
comes_first-All p w x (y ∷ []) own all h = (comes_first-NoLater p w x y own all.0 h.0, tt)
comes_first-All p w x (y ∷ z ∷ ys) own all h = (
  comes_first-NoLater p w x y own all.0 h.0,
  comes_first-All p w x (z ∷ ys) own all.1 (comes_first_trans x y z h.0 h.1.0, h.1.1),
)

InOrder-requests :
    (p : Period) (w : Wfh) (xs : List PendingWithUsage)
    → All (IsOwn p w) xs
    → IsSorted comes_first xs
    → InOrder (NoLater p w) (map (λ (x : PendingWithUsage). x.req) xs)
InOrder-requests p w [] own h = tt
InOrder-requests p w (x ∷ xs) own h =
    (comes_first-All p w x xs own.0 own.1 h, InOrder-requests p w xs own.1 h.1)

-- The order of a settlement has exactly the requests given, and each of them stands before another
-- only if its member has used fewer days of the period, or as many and it is not the younger one; the
-- days used are those pending or approved in the period, less those that the program assigned.
pub prioritise_in-fair :
    (p : Period) (rs : List WfhRequest) (w : Wfh)
    → Perm (prioritise_in p rs w) rs × InOrder (NoLater p w) (prioritise_in p rs w)
unfolding prioritise_in IsOwn
prioritise_in-fair p rs w =
    let items = map (with_usage p w) rs in
    let req : PendingWithUsage → WfhRequest = λ x. x.req in
    (
      subst (Perm (map req (sort_by comes_first items))) (map-req p w rs)
          (Perm.map req (sort_by-perm comes_first items)),
      InOrder-requests p w (sort_by comes_first items)
          (All-sort_by comes_first (IsOwn p w) items (All-IsOwn p w rs))
          (sort_by-IsSorted comes_first comes_first_total items),
    )
