-- ===== src/Wfh/Picker/Quiet.antt =====
-- What the assignment pass leaves as it is.
use madhatter.Base.{
  ◌≡◌, refl, subst, sym, false, Bool-cases, [], ◌∷◌, ◌++◌, ◌⊎◌, inl, inr, All, All-append, ◌||◌,
  not,
}
use madhatter.Calendar.{Day}
use madhatter.Store.{TeamMember}
use madhatter.Store.Exec.{after}
use madhatter.Wfh.{WfhRequest, Wfh, Service}
use madhatter.Wfh.Requests.{is_settleable}
use madhatter.Wfh.Picker.{
  run_picker, assign_wfh_for_date, picker_disabled, past_date_guard, is_picker_active_on_date,
}
use madhatter.Wfh.Picker.Picks.{PickOf, pick_one, pick_one-OnePick, insert_picks_keeps}
use madhatter.Wfh.Picker.Run.{CanBePicked, run_picker-cases}

-- No row waits for a settlement up to the cutoff.
abbrev pub Settled : Day → Wfh → Type 0
Settled cutoff w = All (λ (q : WfhRequest). is_settleable cutoff q ≡ false) w.requests

pick_rows :
    (s : Service) (date cutoff : Day) (p : TeamMember) (w w' : Wfh)
    → (w'.requests ≡ w.requests)
      ⊎ ((r : WfhRequest) × PickOf s date p r × (w'.requests ≡ w.requests ++ r ∷ []))
    → Settled cutoff w
    → Settled cutoff w'
pick_rows s date cutoff p w w' (inl rows) h =
    subst (All (λ (q : WfhRequest). is_settleable cutoff q ≡ false)) (sym rows) h
pick_rows s date cutoff p w w' (inr (r, (id, of), rows)) h =
    let P : WfhRequest → Type 0 = λ q. is_settleable cutoff q ≡ false in
    subst (All P) (sym rows) (All-append P w.requests (r ∷ []) h (subst P (sym of) refl, tt))

run_picker-Settled :
    (s : Service) (date cutoff : Day) (w : Wfh)
    → Settled cutoff w
    → Settled cutoff (after (run_picker s date w))
run_picker-Settled s date cutoff w h = elim (run_picker-cases s date w) [
  | inl idle ↦ rw idle h
  | inr (ps, _, _, able, runs) ↦ rw runs (
      insert_picks_keeps (CanBePicked date w) (Settled cutoff) s date
        (λ p t _ k.
          pick_rows s date cutoff p t (pick_one s date p t) (pick_one-OnePick s date p t).1 k)
        ps w able h)
]

pub assign_wfh_for_date-Settled :
    (s : Service) (date cutoff : Day) (w : Wfh)
    → Settled cutoff w
    → Settled cutoff (after (assign_wfh_for_date s date w))
unfolding assign_wfh_for_date
assign_wfh_for_date-Settled s date cutoff w h =
    elim (Bool-cases (
      picker_disabled s.cfg || (past_date_guard s date || not (is_picker_active_on_date s date)))) [
        | inl off ↦ rw off h
        | inr on ↦ rw on (run_picker-Settled s date cutoff w h)
      ]
