-- ===== src/Wfh/Picker/Picks.antt =====
-- The rows that the picker adds.
use madhatter.Base.{
  ℕ, ◌≡◌, refl, sym, ap, ◌∙◌, List, [], ◌∷◌, ◌++◌, ◌⊎◌, inl, inr, All, none, codes,
}
use mathlib.Core.List.{append-nil}
use madhatter.Calendar.{Day}
use madhatter.Store.{TeamMember}
use madhatter.Store.Exec.{Outcome, ok, err}
use madhatter.Wfh.{WfhRequest, Wfh, Service, approved, assigned_id}
use madhatter.Wfh.Requests.Create.{assigned_request, create_approved_assigned_wfh_request}
use madhatter.Wfh.Requests.Insert.{
  SameTeam, Adds, Extends, Extends-refl, Extends-trans, create_assigned-Adds,
}
use madhatter.Wfh.Settlement.Steps.{fire-requests}
use madhatter.Wfh.Picker.{picked, insert_picks}

-- A row of the picker, for a member of the list.
abbrev pub PickOf : Service → Day → TeamMember → WfhRequest → Type 0
PickOf s date p r = (id : ℕ) × (r ≡ assigned_request s id p.id date s.now)

-- After one pick: nothing new, or the row of the pick.
abbrev pub OnePick : Service → Day → TeamMember → Wfh → Wfh → Type 0
OnePick s date p w w' =
    SameTeam w w'
    × ((w'.requests ≡ w.requests)
        ⊎ ((r : WfhRequest) × PickOf s date p r × (w'.requests ≡ w.requests ++ r ∷ [])))

picked-OnePick :
    (s : Service) (date : Day) (p : TeamMember) (r : WfhRequest) (w : Wfh) (o : Outcome Wfh Unit)
    → PickOf s date p r
    → Adds r w o
    → OnePick s date p w (picked s date p o)
unfolding picked
picked-OnePick s date p r w (ok _ w') of h =
    let fired =
      fire-requests s (assigned_id date p.id) p.id date none approved (codes "system") none w' in
    (
      (ap (λ db. db.members) fired.1 ∙ h.0.0, ap (λ db. db.leaves) fired.1 ∙ h.0.1),
      inr (r, of, fired.0 ∙ h.1),
    )
picked-OnePick s date p r w (err _ w') of h = (h.0, inl h.1)

abbrev pub pick_one : Service → Day → TeamMember → Wfh → Wfh
pick_one s date p w = picked s date p (create_approved_assigned_wfh_request s p.id date s.now w)

pub pick_one-OnePick :
    (s : Service) (date : Day) (p : TeamMember) (w : Wfh) → OnePick s date p w (pick_one s date p w)
pick_one-OnePick s date p w =
    picked-OnePick s date p (assigned_request s (w.db.uuid w.db.drawn) p.id date s.now) w
      (create_approved_assigned_wfh_request s p.id date s.now w) (w.db.uuid w.db.drawn, refl)
      (create_assigned-Adds s p.id date s.now w)

-- What each pick keeps, all of them keep.
pub insert_picks_keeps :
    (P : TeamMember → Type 0) (I : Wfh → Type 0) (s : Service) (date : Day)
    → ((p : TeamMember) (w : Wfh) → P p → I w → I (pick_one s date p w))
    → (ps : List TeamMember) (w : Wfh) → All P ps
    → I w
    → I (insert_picks s date ps w)
unfolding insert_picks
insert_picks_keeps P I s date step [] w ok_all h = h
insert_picks_keeps P I s date step (p ∷ ps) w all h =
    insert_picks_keeps P I s date step ps (pick_one s date p w) all.1 (step p w all.0 h)

-- Each pick adds at most its row.
pub insert_picks-Extends :
    (P : TeamMember → Type 0) (s : Service) (date : Day) (ps : List TeamMember) (w : Wfh)
    → All P ps
    → Extends (λ r. (m : TeamMember) × P m × PickOf s date m r) w (insert_picks s date ps w)
unfolding insert_picks
insert_picks-Extends P s date [] w h = Extends-refl _ w
insert_picks-Extends P s date (p ∷ ps) w h =
    Extends-trans (λ r. (m : TeamMember) × P m × PickOf s date m r) w (pick_one s date p w)
      (insert_picks s date ps (pick_one s date p w))
      (one (pick_one s date p w) (pick_one-OnePick s date p w).1)
      (insert_picks-Extends P s date ps (pick_one s date p w) h.1)
  where
    one :
        (w' : Wfh)
        → (w'.requests ≡ w.requests)
          ⊎ ((r : WfhRequest) × PickOf s date p r × (w'.requests ≡ w.requests ++ r ∷ []))
        → Extends (λ r. (m : TeamMember) × P m × PickOf s date m r) w w'
    one w' (inl same) = ([], same ∙ sym (append-nil w.requests), tt)
    one w' (inr (r, of, more)) = (r ∷ [], more, ((p, h.0, of), tt))
