-- ===== src/Rota/Reassign/Run.antt =====
-- `ReassignCovers` of internal/rota/reassign.go: the whole run.
use madhatter.Base.{
  ℕ, suc, ◌+◌, ◌≤◌, ◌≡◌, refl, subst, ◌∙◌, arith, Bool, Bool-cases, inl, inr, List, [], ◌∷◌, length,
  length-append, Option,
}
use madhatter.Base.Int.{ℤ}
use madhatter.Base.Sort.{length-sort_by}
use madhatter.Calendar.{Day}
use madhatter.Store.{LeaveRecord, RotaAssignment, Db}
use madhatter.Store.Exec.{Outcome, ok, err, after}
use madhatter.Store.Exec.Frames.{after-bind}
use madhatter.Store.Leaves.{get_leave_records}
use madhatter.Store.Rotation.{get_cover_rotation_state}
use madhatter.Store.Assignments.{get_assignments_by_date_range, delete_rota_assignment}
use madhatter.Rota.Engine.{Engine, on_db, reassign}
use madhatter.Rota.LeaveCovers.{assign_covers_for_leave}
use madhatter.Rota.LeaveCovers.Untouched.{reassign_keeps_ad_hoc}
use madhatter.Rota.Maintenance.{remove_stale, reconcile_covers_for_date_range, is_stale_cover}
use madhatter.Rota.Reassign.{
  ReassignResult, reassign_handle_leave_change, reassign_leave, reassign_leaves, reassign_covers,
  reset_reassign, recorded, oldest_first, nothing_done,
}

-- Each leave of the run is counted once.
abbrev Accounted : ℕ → ReassignResult → Type 0
Accounted n r =
    (r.leaves_processed + length r.failures ≡ n) × (r.covers_changed ≤ r.leaves_processed)

recorded-Accounted :
    (l : LeaveRecord) (n : ℕ) (r : ReassignResult) (before : Db) (o : Outcome Engine Unit)
    → Accounted n r
    → Accounted (suc n) (recorded l r before o).0
unfolding recorded
recorded-Accounted l n r before (err x e') h =
    (omega (arith, h.0, length-append r.failures (l.id ∷ [])), h.1)
recorded-Accounted l n r before (ok u e') h = (omega (arith, h.0), ground (arith, h.1))

reassign_leaves-Accounted :
    (ls : List LeaveRecord) (n : ℕ) (r : ReassignResult) (e : Engine)
    → Accounted n r
    → Accounted (n + length ls) (reassign_leaves ls r e).0
unfolding reassign_leaves reassign_leave
reassign_leaves-Accounted [] n r e h = let e1 : n + 0 ≡ n = omega arith in rw e1 h
reassign_leaves-Accounted (l ∷ ls) n r e h =
    let e1 : n + suc (length ls) ≡ suc n + length ls = omega arith in
    rw e1 (
      reassign_leaves-Accounted ls (suc n) (reassign_leave l r e).0 (reassign_leave l r e).1
        (recorded-Accounted l n r e.db (reassign_handle_leave_change l e) h))

-- Each leave record is counted once, as processed or as a failure, and no more covers are counted as
-- changed than leaves as processed.
reassign_covers-accounts :
    (e : Engine)
    → ((reassign_covers e).0.leaves_processed + length (reassign_covers e).0.failures
        ≡ length e.db.leaves)
      × ((reassign_covers e).0.covers_changed ≤ (reassign_covers e).0.leaves_processed)
unfolding reassign_covers get_leave_records
reassign_covers-accounts e =
    let e0 : length (oldest_first e.db) ≡ length e.db.leaves =
      length-sort_by _ (get_leave_records e.db) ∙ length-sort_by _ e.db.leaves in
    let e1 : 0 + length (oldest_first e.db) ≡ length e.db.leaves = omega (arith, e0) in
    subst (λ n. Accounted n (reassign_covers e).0) e1
      (reassign_leaves-Accounted (oldest_first e.db) 0 nothing_done (reset_reassign e)
        (omega arith, omega arith))

abbrev ad_hoc_state : Engine → Option (Day × ℤ)
ad_hoc_state e = get_cover_rotation_state e.db

remove_stale-ad_hoc :
    (stale : RotaAssignment → Bool) (rows : List RotaAssignment) (e : Engine)
    → ad_hoc_state (after (remove_stale stale rows e)) ≡ ad_hoc_state e
unfolding remove_stale on_db delete_rota_assignment get_cover_rotation_state
remove_stale-ad_hoc stale [] e = refl
remove_stale-ad_hoc stale (a ∷ rows) e = elim (Bool-cases (stale a)) [
  | inl x ↦
      rw (x, remove_stale)
        (remove_stale-ad_hoc stale rows (after (on_db (delete_rota_assignment a.id) e)))
  | inr x ↦ rw (x, remove_stale) (remove_stale-ad_hoc stale rows e)
]

reconcile-ad_hoc :
    (start end : Day) (e : Engine)
    → ad_hoc_state (after (reconcile_covers_for_date_range start end e)) ≡ ad_hoc_state e
unfolding reconcile_covers_for_date_range
reconcile-ad_hoc start end e =
    let rows : List RotaAssignment = get_assignments_by_date_range start end e.db in
    remove_stale-ad_hoc (is_stale_cover start end e.db rows) rows e

handle-ad_hoc :
    (l : LeaveRecord) (e : Engine)
    → ad_hoc_state (after (reassign_handle_leave_change l e)) ≡ ad_hoc_state e
unfolding reassign_handle_leave_change
handle-ad_hoc l e =
    after-bind (λ s t. ad_hoc_state t ≡ ad_hoc_state s) (λ a b c h k. k ∙ h) e
      (reconcile_covers_for_date_range l.start_date l.end_date e)
      (λ u f. assign_covers_for_leave l.id reassign f) (reconcile-ad_hoc l.start_date l.end_date e)
      (λ u f. reassign_keeps_ad_hoc l.id f)

recorded-ad_hoc :
    (l : LeaveRecord) (r : ReassignResult) (before : Db) (o : Outcome Engine Unit)
    → ad_hoc_state (recorded l r before o).1 ≡ ad_hoc_state (after o)
unfolding recorded
recorded-ad_hoc l r before (err x e') = refl
recorded-ad_hoc l r before (ok u e') = refl

leave-ad_hoc :
    (l : LeaveRecord) (r : ReassignResult) (e : Engine)
    → ad_hoc_state (reassign_leave l r e).1 ≡ ad_hoc_state e
unfolding reassign_leave
leave-ad_hoc l r e = recorded-ad_hoc l r e.db (reassign_handle_leave_change l e) ∙ handle-ad_hoc l e

leaves-ad_hoc :
    (ls : List LeaveRecord) (r : ReassignResult) (e : Engine)
    → ad_hoc_state (reassign_leaves ls r e).1 ≡ ad_hoc_state e
unfolding reassign_leaves
leaves-ad_hoc [] r e = refl
leaves-ad_hoc (l ∷ ls) r e =
    leaves-ad_hoc ls (reassign_leave l r e).0 (reassign_leave l r e).1 ∙ leave-ad_hoc l r e

-- A whole run, with whatever failures, leaves the state of the ad-hoc rotation as it was.
pub reassign_covers_keeps_ad_hoc :
    (e : Engine) → get_cover_rotation_state (reassign_covers e).1.db ≡ get_cover_rotation_state e.db
unfolding reassign_covers
reassign_covers_keeps_ad_hoc e = leaves-ad_hoc (oldest_first e.db) nothing_done (reset_reassign e)
