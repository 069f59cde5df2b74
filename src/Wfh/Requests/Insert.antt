-- ===== src/Wfh/Requests/Insert.antt =====
-- What an INSERT of an assigned day leaves: the same team and leaves, and at most that one row more.
use madhatter.Base.{
  ℕ, suc, All, All-imp, All-append, sym, ◌≡◌, refl, ap, ◌∙◌, Bool-cases, List, [], ◌∷◌, ◌++◌, inl,
  inr, ltb, any, ◌||◌, ◌&&◌, ◌==◌, not,
}
use mathlib.Core.List.{append_assoc, append-nil}
use madhatter.Calendar.{Day}
use madhatter.Store.{has_member}
use madhatter.Store.Exec.{Outcome, ok, err, after, ◌>>=◌}
use madhatter.Wfh.{WfhRequest, Wfh, Service, today_utc, is_on, draw}
use madhatter.Wfh.Requests.{insert_request, is_user, or_duplicate}
use madhatter.Wfh.Requests.Create.{
  assigned_request, recurring_request, create_approved_assigned_wfh_request,
  create_approved_recurring_wfh_request,
}

abbrev pub SameTeam : Wfh → Wfh → Type 0
SameTeam w w' = (w'.db.members ≡ w.db.members) × (w'.db.leaves ≡ w.db.leaves)

-- A call that fails leaves the rows as they were, and one that succeeds adds the row.
abbrev pub Adds : WfhRequest → Wfh → Outcome Wfh Unit → Type 0
Adds r w (ok _ w') = SameTeam w w' × (w'.requests ≡ w.requests ++ r ∷ [])
Adds r w (err _ w') = SameTeam w w' × (w'.requests ≡ w.requests)

insert_request-Adds : (r : WfhRequest) (w : Wfh) → Adds r w (insert_request r w)
unfolding insert_request
insert_request-Adds r w =
    elim (Bool-cases (
      any (λ (q : WfhRequest). q.id == r.id) w.requests
      || any (is_on r.member_id r.date) w.requests)) [
        | inl taken ↦ rw taken ((refl, refl), refl)
        | inr free ↦
            elim (Bool-cases (not (has_member r.member_id w.db.members && is_user r.marked_by w))) [
              | inl lost ↦ rw (free, lost) ((refl, refl), refl)
              | inr held ↦ rw (free, held) ((refl, refl), refl)
            ]
      ]

or_duplicate-Adds :
    (r : WfhRequest) (w : Wfh) (o : Outcome Wfh Unit) → Adds r w o → Adds r w (or_duplicate o)
unfolding or_duplicate
or_duplicate-Adds r w (ok _ w') h = h
or_duplicate-Adds r w (err e w') h = h

-- Only an id was drawn in between.
later-Adds :
    (r : WfhRequest) (w w' : Wfh) (o : Outcome Wfh Unit)
    → SameTeam w w'
    → w'.requests ≡ w.requests
    → Adds r w' o
    → Adds r w o
later-Adds r w w' (ok _ w'') same rows h =
    ((h.0.0 ∙ same.0, h.0.1 ∙ same.1), h.1 ∙ ap (λ rs. rs ++ r ∷ []) rows)
later-Adds r w w' (err _ w'') same rows h = ((h.0.0 ∙ same.0, h.0.1 ∙ same.1), h.1 ∙ rows)

-- The id is the next that is drawn.
drawn-Adds :
    (f : ℕ → WfhRequest) (w : Wfh)
    → Adds
        (f (w.db.uuid w.db.drawn))
        w
        ((draw >>= λ id w'. or_duplicate (insert_request (f id) w')) w)
drawn-Adds f w =
    let r : WfhRequest = f (w.db.uuid w.db.drawn) in
    let w' : Wfh = record w { db = record w.db { drawn = suc w.db.drawn } } in
    or_duplicate-Adds r w (insert_request r w')
      (later-Adds r w w' (insert_request r w') (refl, refl) refl (insert_request-Adds r w'))

pub create_assigned-Adds :
    (s : Service) (member_id : ℕ) (date : Day) (t : ℕ) (w : Wfh)
    → Adds
        (assigned_request s (w.db.uuid w.db.drawn) member_id date t)
        w
        (create_approved_assigned_wfh_request s member_id date t w)
unfolding create_approved_assigned_wfh_request
create_assigned-Adds s member_id date t w = elim (Bool-cases (ltb date (today_utc s))) [
  | inl past ↦ rw past ((refl, refl), refl)
  | inr here ↦ rw here (drawn-Adds (λ id. assigned_request s id member_id date t) w)
]

pub create_recurring-Adds :
    (s : Service) (member_id : ℕ) (date : Day) (t : ℕ) (w : Wfh)
    → Adds
        (recurring_request s (w.db.uuid w.db.drawn) member_id date t)
        w
        (create_approved_recurring_wfh_request s member_id date t w)
unfolding create_approved_recurring_wfh_request
create_recurring-Adds s member_id date t w = elim (Bool-cases (ltb date (today_utc s))) [
  | inl past ↦ rw past ((refl, refl), refl)
  | inr here ↦ rw here (drawn-Adds (λ id. recurring_request s id member_id date t) w)
]

-- The team of the state that a call leaves.
pub Adds-SameTeam :
    (r : WfhRequest) (w : Wfh) (o : Outcome Wfh Unit) → Adds r w o → SameTeam w (after o)
Adds-SameTeam r w (ok _ w') h = h.0
Adds-SameTeam r w (err _ w') h = h.0

-- The rows of before, and rows of one kind after them.
abbrev pub Extends : (WfhRequest → Type 0) → Wfh → Wfh → Type 0
Extends P w w' = (ns : List WfhRequest) × (w'.requests ≡ w.requests ++ ns) × All P ns

pub Extends-refl : (P : WfhRequest → Type 0) (w : Wfh) → Extends P w w
Extends-refl P w = ([], sym (append-nil w.requests), tt)

pub Extends-trans :
    (P : WfhRequest → Type 0) (a b c : Wfh) → Extends P a b → Extends P b c → Extends P a c
Extends-trans P a b c (xs, ab, hx) (ys, bc, hy) =
    (xs ++ ys, bc ∙ ap (λ t. t ++ ys) ab ∙ append_assoc a.requests xs ys, All-append P xs ys hx hy)

-- A call that adds at most a row of the kind.
pub Adds-Extends :
    (P : WfhRequest → Type 0) (r : WfhRequest) (w : Wfh) (o : Outcome Wfh Unit)
    → P r
    → Adds r w o
    → Extends P w (after o)
Adds-Extends P r w (ok _ w') p h = (r ∷ [], h.1, (p, tt))
Adds-Extends P r w (err _ w') p h = ([], h.1 ∙ sym (append-nil w.requests), tt)

pub Extends-imp :
    (P Q : WfhRequest → Type 0) (w w' : Wfh)
    → ((r : WfhRequest) → P r → Q r)
    → Extends P w w'
    → Extends Q w w'
Extends-imp P Q w w' f (ns, rows, all) = (ns, rows, All-imp P Q ns f all)
