-- ===== src/Wfh/Tick/Left.antt =====
-- The rows that the settlement still has to decide.
use madhatter.Base.{
  ℕ, suc, ◌≡◌, refl, sym, ap, ◌∙◌, subst, true, false, ◌||◌, ◌==◌, leb, List, [], ◌∷◌, ◌++◌, map,
  any, any-append, All, inl, inr, Bool-cases, arith, length, some,
}
use madhatter.Base.Sort.{sort_by, any-sort_by}
use madhatter.Calendar.{Day}
use madhatter.Store.Exec.{after}
use madhatter.Store.Members.{get_active_team_members}
use madhatter.Wfh.{WfhRequest, DenialReason, Wfh, Service, elem, approved}
use madhatter.Wfh.Period.{Period, compute_period_bounds}
use madhatter.Wfh.Requests.{is_settleable, with_status, with_denial}
use madhatter.Wfh.Settlement.{
  prioritise_in, settle_from, settle_date, approve_one, deny_one, PendingWithUsage, comes_first,
  with_usage,
}
use madhatter.Wfh.Settlement.Run.{settle_date-Runs, slots_available}
use madhatter.Wfh.Settlement.Steps.{change_row, approve_one-rows, deny_one-rows}

abbrev pub ids_of : List WfhRequest → List ℕ
ids_of = map (λ (r : WfhRequest). r.id)

-- The rows that can be settled have their ids in the list.
abbrev pub Left : Day → List ℕ → List WfhRequest → Type 0
Left cutoff ids = All (λ (q : WfhRequest). is_settleable cutoff q ≡ true → elem q.id ids ≡ true)

elsewhere :
    (q id : ℕ) (ids : List ℕ) → (q == id) ≡ false → elem q (id ∷ ids) ≡ true → elem q ids ≡ true
elsewhere q id ids h m = ground arith

-- A row that is decided drops out.
Left-change_row :
    (cutoff : Day) (id : ℕ) (ids : List ℕ) (f : WfhRequest → WfhRequest) (rs : List WfhRequest)
    → ((q : WfhRequest) → is_settleable cutoff (f q) ≡ false)
    → Left cutoff (id ∷ ids) rs
    → Left cutoff ids (change_row id f rs)
Left-change_row cutoff id ids f [] decided h = tt
Left-change_row cutoff id ids f (q ∷ rs) decided h = (
  elim (Bool-cases (q.id == id)) [
    | inl here ↦ rw here (λ e. absurd (cc (decided q, e)))
    | inr other ↦ rw other (λ e. elsewhere q.id id ids other (h.0 e))
  ],
  Left-change_row cutoff id ids f rs decided h.1,
)

settle_from-Left :
    (s : Service) (x : DenialReason) (available i : ℕ) (rs : List WfhRequest) (cutoff : Day)
    (ids : List ℕ) (w : Wfh)
    → Left cutoff (ids_of rs ++ ids) w.requests
    → Left cutoff ids (settle_from s x available i rs w).requests
      × ((settle_from s x available i rs w).db ≡ w.db)
unfolding settle_from
settle_from-Left s x available i [] cutoff ids w h = (h, refl)
settle_from-Left s x available i (r ∷ rs) cutoff ids w h = elim (Bool-cases (leb available i)) [
  | inl full ↦
      let (rows, same) = deny_one-rows s x r w in
      let next : Left cutoff (ids_of rs ++ ids) (deny_one s x r w).requests =
        subst (Left cutoff (ids_of rs ++ ids)) (sym rows)
          (Left-change_row cutoff r.id _ (with_denial s x) w.requests (λ q. refl) h) in
      let (left, db) =
        settle_from-Left s x available (suc i) rs cutoff ids (deny_one s x r w) next in
      rw (settle_from, full) (left, db ∙ same)
  | inr free ↦
      let (rows, same) = approve_one-rows s r w in
      let next : Left cutoff (ids_of rs ++ ids) (approve_one s r w).requests =
        subst (Left cutoff (ids_of rs ++ ids)) (sym rows)
          (Left-change_row cutoff r.id _ (with_status s approved) w.requests (λ q. refl) h) in
      let (left, db) =
        settle_from-Left s x available (suc i) rs cutoff ids (approve_one s r w) next in
      rw (settle_from, free) (left, db ∙ same)
]

-- The order of the settlement has the ids of the requests.
pub elem-ids_of :
    (z : ℕ) (rs : List WfhRequest) → elem z (ids_of rs) ≡ any (λ (r : WfhRequest). r.id == z) rs
elem-ids_of z [] = refl
elem-ids_of z (r ∷ rs) = ap (λ b. (r.id == z) || b) (elem-ids_of z rs)

any-reqs :
    (z : ℕ) (xs : List PendingWithUsage)
    → any (λ (r : WfhRequest). r.id == z) (map (λ (x : PendingWithUsage). x.req) xs)
      ≡ any (λ (x : PendingWithUsage). x.req.id == z) xs
any-reqs z [] = refl
any-reqs z (x ∷ xs) = ap (λ b. (x.req.id == z) || b) (any-reqs z xs)

any-with_usage :
    (z : ℕ) (p : Period) (w : Wfh) (rs : List WfhRequest)
    → any (λ (x : PendingWithUsage). x.req.id == z) (map (with_usage p w) rs)
      ≡ any (λ (r : WfhRequest). r.id == z) rs
any-with_usage z p w [] = refl
any-with_usage z p w (r ∷ rs) = ap (λ b. (r.id == z) || b) (any-with_usage z p w rs)

elem-prioritise_in :
    (z : ℕ) (p : Period) (rs : List WfhRequest) (w : Wfh)
    → elem z (ids_of (prioritise_in p rs w)) ≡ elem z (ids_of rs)
unfolding prioritise_in
elem-prioritise_in z p rs w =
    elem-ids_of z (prioritise_in p rs w)
    ∙ any-reqs z (sort_by comes_first (map (with_usage p w) rs))
    ∙ any-sort_by comes_first (λ (x : PendingWithUsage). x.req.id == z) (map (with_usage p w) rs)
    ∙ any-with_usage z p w rs
    ∙ sym (elem-ids_of z rs)

swap_first :
    (z : ℕ) (a b c : List ℕ) → elem z b ≡ elem z a → elem z (a ++ c) ≡ true → elem z (b ++ c) ≡ true
swap_first z a b c e h =
    any-append (λ y. y == z) b c
    ∙ ap (λ t. t || elem z c) e
    ∙ sym (any-append (λ y. y == z) a c)
    ∙ h

Left-mono :
    (cutoff : Day) (a b : List ℕ) (rs : List WfhRequest)
    → ((z : ℕ) → elem z a ≡ true → elem z b ≡ true)
    → Left cutoff a rs
    → Left cutoff b rs
Left-mono cutoff a b [] f h = tt
Left-mono cutoff a b (r ∷ rs) f h = ((λ e. f r.id (h.0 e)), Left-mono cutoff a b rs f h.1)

-- With an active member and an anchor that is a date, the settlement of a date decides its requests.
pub settle_date-Left :
    (s : Service) (date : Day) (rs : List WfhRequest) (cutoff : Day) (ids : List ℕ) (w : Wfh)
    (p : Period)
    → (length (get_active_team_members w.db) == 0) ≡ false
    → compute_period_bounds s.cfg date ≡ some p
    → Left cutoff (ids_of rs ++ ids) w.requests
    → Left cutoff ids (after (settle_date s date rs w)).requests
      × ((after (settle_date s date rs w)).db ≡ w.db)
settle_date-Left s date rs cutoff ids w p team bounds h =
    let (q, x, runs) = settle_date-Runs s date rs w p team bounds in
    let order = prioritise_in q rs w in
    rw runs (
      settle_from-Left s x (slots_available s date w) 0 order cutoff ids w (
        Left-mono cutoff (ids_of rs ++ ids) (ids_of order ++ ids) w.requests
          (λ z m. swap_first z (ids_of rs) (ids_of order) ids (elem-prioritise_in z q rs w) m) h))
