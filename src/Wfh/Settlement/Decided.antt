-- ===== src/Wfh/Settlement/Decided.antt =====
-- Which requests the loop of the settlement approves, and which it denies.
use madhatter.Base.{
  ℕ, suc, ◌≡◌, refl, sym, ◌∙◌, subst, false, ◌==◌, ==_iff, leb, List, [], ◌∷◌, map, All, Bool-cases,
  inl, inr, if◌then◌else◌, ||-false,
}
use madhatter.Wfh.{WfhStatus, approved, denied, WfhRequest, DenialReason, Wfh, Service, elem}
use madhatter.Wfh.Requests.{with_status, with_denial}
use madhatter.Wfh.Settlement.{settle_from, approve_one, deny_one}
use madhatter.Wfh.Settlement.Steps.{change_row, approve_one-rows, deny_one-rows}

-- Every row of the id has the status.
abbrev pub HasStatus : ℕ → WfhStatus → List WfhRequest → Type 0
HasStatus id status = All (λ (q : WfhRequest). q.id ≡ id → q.status ≡ status)

-- The ids of the requests differ.
abbrev pub AllDiffer : List WfhRequest → Type 0
AllDiffer [] = Unit
AllDiffer (r ∷ rs) = (elem r.id (map (λ (q : WfhRequest). q.id) rs) ≡ false) × AllDiffer rs

-- From position `i` on, the requests before the number of slots are approved and the others denied.
abbrev pub Decided : ℕ → ℕ → List WfhRequest → List WfhRequest → Type 0
Decided available i [] rows = Unit
Decided available i (r ∷ rs) rows =
    HasStatus r.id (if leb available i then denied else approved) rows
    × Decided available (suc i) rs rows

HasStatus-change_self :
    (id : ℕ) (status : WfhStatus) (f : WfhRequest → WfhRequest) (rs : List WfhRequest)
    → ((q : WfhRequest) → (f q).status ≡ status)
    → HasStatus id status (change_row id f rs)
HasStatus-change_self id status f [] set = tt
HasStatus-change_self id status f (q ∷ rs) set = (
  elim (Bool-cases (q.id == id)) [
    | inl here ↦ rw here (λ _. set q)
    | inr other ↦ rw other (λ e. absurd (cc ((==_iff q.id id).1 e, other)))
  ],
  HasStatus-change_self id status f rs set,
)

HasStatus-change_other :
    (id id' : ℕ) (status : WfhStatus) (f : WfhRequest → WfhRequest) (rs : List WfhRequest)
    → (id' == id) ≡ false
    → ((q : WfhRequest) → (f q).id ≡ q.id)
    → HasStatus id status rs
    → HasStatus id status (change_row id' f rs)
HasStatus-change_other id id' status f [] ne same h = tt
HasStatus-change_other id id' status f (q ∷ rs) ne same h = (
  elim (Bool-cases (q.id == id')) [
    | inl here ↦ rw here (λ e.
        absurd (cc ((==_iff id' id).1 (sym ((==_iff q.id id').0 here) ∙ sym (same q) ∙ e), ne)))
    | inr other ↦ rw other h.0
  ],
  HasStatus-change_other id id' status f rs ne same h.1,
)

-- The loop leaves the rows of other ids.
settle_from-HasStatus :
    (s : Service) (x : DenialReason) (available i : ℕ) (rs : List WfhRequest) (id : ℕ)
    (status : WfhStatus) (w : Wfh)
    → elem id (map (λ (q : WfhRequest). q.id) rs) ≡ false
    → HasStatus id status w.requests
    → HasStatus id status (settle_from s x available i rs w).requests
unfolding settle_from
settle_from-HasStatus s x available i [] id status w ne h = h
settle_from-HasStatus s x available i (r ∷ rs) id status w ne h =
    let (differs, rest) = ||-false (r.id == id) _ ne in
    elim (Bool-cases (leb available i)) [
      | inl full ↦
          rw (settle_from, full)
            (settle_from-HasStatus s x available (suc i) rs id status (deny_one s x r w) rest (
              subst (HasStatus id status) (sym (deny_one-rows s x r w).0) (
                HasStatus-change_other id r.id status (with_denial s x) w.requests differs
                  (λ q. refl) h)))
      | inr free ↦
          rw (settle_from, free)
            (settle_from-HasStatus s x available (suc i) rs id status (approve_one s r w) rest (
              subst (HasStatus id status) (sym (approve_one-rows s r w).0) (
                HasStatus-change_other id r.id status (with_status s approved) w.requests differs
                  (λ q. refl) h)))
    ]

-- Where the ids of the requests differ, the loop leaves the rows of each request approved, if its
-- position is below the number of slots, and denied otherwise.
pub settle_from-Decided :
    (s : Service) (x : DenialReason) (available i : ℕ) (rs : List WfhRequest) (w : Wfh)
    → AllDiffer rs
    → Decided available i rs (settle_from s x available i rs w).requests
unfolding settle_from
settle_from-Decided s x available i [] w differ = tt
settle_from-Decided s x available i (r ∷ rs) w differ = elim (Bool-cases (leb available i)) [
  | inl full ↦
      rw (settle_from, full)
        (
          settle_from-HasStatus s x available (suc i) rs r.id denied (deny_one s x r w) differ.0 (
              subst (HasStatus r.id denied) (sym (deny_one-rows s x r w).0)
                (HasStatus-change_self r.id denied (with_denial s x) w.requests (λ q. refl))),
          settle_from-Decided s x available (suc i) rs (deny_one s x r w) differ.1,
        )
  | inr free ↦
      rw (settle_from, free)
        (
          settle_from-HasStatus s x available (suc i) rs r.id approved (approve_one s r w) differ.0
              (subst (HasStatus r.id approved) (sym (approve_one-rows s r w).0) (
                HasStatus-change_self r.id approved (with_status s approved) w.requests
                  (λ q. refl))),
          settle_from-Decided s x available (suc i) rs (approve_one s r w) differ.1,
        )
]
