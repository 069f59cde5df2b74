-- ===== src/Wfh/Actions/Reassigned.antt =====
-- What a reassignment by an administrator leaves.
use madhatter.Base.{
  ℕ, ◌≡◌, refl, sym, ap, ◌∙◌, subst, Bool, true, false, not, ◌&&◌, ◌==◌, ltb, Bool-cases, List, [],
  ◌∷◌, ◌++◌, any, find, inl, inr, none, some, Option-cases, Text, if◌then◌else◌,
}
use madhatter.Calendar.{Day}
use madhatter.Store.Exec.{
  wfh_assigned, wfh_not_approved, not_eligible, Error, Outcome, ok, err, after, bind,
}
use madhatter.Store.Exec.Frames.{OnOk, OnOk-bind}
use madhatter.Wfh.{
  approved, withdrawn, is_assigned, status_eq, WfhRequest, Wfh, Service, today_utc, row_id, is_on,
}
use madhatter.Wfh.Requests.{
  get_wfh_request_by_id, get_wfh_request_by_member_and_date, set_request, is_user,
}
use madhatter.Wfh.Requests.Create.{assigned_request, create_approved_assigned_wfh_request}
use madhatter.Wfh.Requests.Insert.{Adds, create_assigned-Adds}
use madhatter.Wfh.Requests.Withdraw.{
  with_withdrawal, update_wfh_request_withdrawn, withdraw_assigned_wfh_request,
}
use madhatter.Wfh.Presence.{fire_wfh_state_changed}
use madhatter.Wfh.Settlement.Steps.{change_row, fire-requests}
use madhatter.Wfh.Actions.{
  admin_reassign_target_ok, notify_replacement, admin_reassign_notify, admin_reassign_result_id,
  reassign_row, admin_reassign_wfh,
}

-- The rows with that of the id withdrawn by the actor, and a new assigned one after them.
abbrev pub MovedRows : Service → ℕ → ℕ → ℕ → Day → List WfhRequest → List WfhRequest → Type 0
MovedRows s id actor replacement date before after =
    (new : ℕ) × (after
      ≡ change_row id (with_withdrawal s (some actor)) before
        ++ assigned_request s new replacement date s.now ∷ [])

withdrawn-OnOk :
    (s : Service) (id actor : ℕ) (w : Wfh)
    → OnOk
        (λ _ w'. w' ≡ set_request id (with_withdrawal s (some actor)) w)
        (withdraw_assigned_wfh_request s id actor w)
unfolding withdraw_assigned_wfh_request get_wfh_request_by_id update_wfh_request_withdrawn
withdrawn-OnOk s id actor w =
    elim (Option-cases (find (λ (r : WfhRequest). r.id == id) w.requests)) [
      | inl absent ↦ rw (OnOk, absent) tt
      | inr (r, there) ↦ elim (Bool-cases (not (status_eq r.status approved))) [
        | inl other ↦ rw (OnOk, there, other) tt
        | inr is_approved ↦ elim (Bool-cases (ltb r.date (today_utc s))) [
          | inl past ↦ rw (OnOk, there, is_approved, past) tt
          | inr ahead ↦
              elim (Bool-cases
                (any (λ (q : WfhRequest). q.id == id) w.requests && not (is_user (some actor) w))) [
                  | inl lost ↦
                      rw (OnOk, there, is_approved, ahead, update_wfh_request_withdrawn, lost) tt
                  | inr held ↦
                      rw (OnOk, there, is_approved, ahead, update_wfh_request_withdrawn, held) refl
                ]
        ]
      ]
    ]

get_on-after : (m : ℕ) (d : Day) (w : Wfh) → after (get_wfh_request_by_member_and_date m d w) ≡ w
unfolding get_wfh_request_by_member_and_date
get_on-after m d w = elim (Option-cases (find (is_on m d) w.requests)) [
  | inl absent ↦ rw (after, absent) refl
  | inr (r, there) ↦ rw (after, there) refl
]

notify_replacement-requests :
    (s : Service) (m : ℕ) (d : Day) (a : Text) (o : Outcome Wfh WfhRequest)
    → (notify_replacement s m d a o).requests ≡ (after o).requests
unfolding notify_replacement
notify_replacement-requests s m d a (ok r w) =
    (fire-requests s (row_id r.id) m d none approved a none w).0
notify_replacement-requests s m d a (err _ w) = refl

notify-requests :
    (s : Service) (id : ℕ) (r : WfhRequest) (m : ℕ) (a : Text) (w : Wfh)
    → (admin_reassign_notify s id r m a w).requests ≡ w.requests
unfolding admin_reassign_notify
notify-requests s id r m a w =
    let w' =
      fire_wfh_state_changed s (row_id id) r.member_id r.date (some approved) withdrawn a none w in
    let told = notify_replacement s m r.date a (get_wfh_request_by_member_and_date m r.date w') in
    elim s.notifying as (λ b. (if b then told else w).requests ≡ w.requests) [
      | true ↦
          notify_replacement-requests s m r.date a (get_wfh_request_by_member_and_date m r.date w')
          ∙ ap (λ x. x.requests) (get_on-after m r.date w')
          ∙ (fire-requests s (row_id id) r.member_id r.date (some approved) withdrawn a none w).0
      | false ↦ refl
    ]

result_id-OnOk :
    (m : ℕ) (d : Day) (w : Wfh) → OnOk (λ _ w'. w' ≡ w) (admin_reassign_result_id m d w)
unfolding admin_reassign_result_id get_wfh_request_by_member_and_date
result_id-OnOk m d w = elim (Option-cases (find (is_on m d) w.requests)) [
  | inl absent ↦ rw (OnOk, get_wfh_request_by_member_and_date, absent) refl
  | inr (r, there) ↦ rw (OnOk, get_wfh_request_by_member_and_date, there) refl
]

created-OnOk :
    (r : WfhRequest) (w : Wfh) (o : Outcome Wfh Unit)
    → Adds r w o
    → OnOk (λ _ w'. w'.requests ≡ w.requests ++ r ∷ []) o
created-OnOk r w (ok _ w') h = h.1
created-OnOk r w (err _ w') h = tt

OnOk-imp :
    {A : Type 0} (P Q : A → Wfh → Type 0)
    → ((a : A) (w : Wfh) → P a w → Q a w)
    → (o : Outcome Wfh A) → OnOk P o
    → OnOk Q o
OnOk-imp P Q f (ok a w) h = f a w h
OnOk-imp P Q f (err _ w) h = tt

reassign_row-OnOk :
    (s : Service) (r : WfhRequest) (id m actor : ℕ) (a : Text) (w : Wfh)
    → OnOk
        (λ _ w'. MovedRows s id actor m r.date w.requests w'.requests)
        (reassign_row s r id m actor a w)
unfolding reassign_row set_request
reassign_row-OnOk s r id m actor a w =
    let f = with_withdrawal s (some actor) in
    let P : ℕ → Wfh → Type 0 = λ _ t. MovedRows s id actor m r.date w.requests t.requests in
    let last : Unit → Wfh → Outcome Wfh ℕ =
      λ _ t. admin_reassign_result_id m r.date (admin_reassign_notify s id r m a t) in
    OnOk-bind (λ _ t. t ≡ set_request id f w) P (withdraw_assigned_wfh_request s id actor w)
      (λ _ t. bind (create_approved_assigned_wfh_request s m r.date s.now t) last)
      (withdrawn-OnOk s id actor w)
      (λ _ t e.
        let x : WfhRequest = assigned_request s (t.db.uuid t.db.drawn) m r.date s.now in
        OnOk-bind (λ _ u. u.requests ≡ t.requests ++ x ∷ []) P
          (create_approved_assigned_wfh_request s m r.date s.now t) last
          (created-OnOk x t (create_approved_assigned_wfh_request s m r.date s.now t)
            (create_assigned-Adds s m r.date s.now t))
          (λ _ u added.
            OnOk-imp (λ _ v. v ≡ admin_reassign_notify s id r m a u) P
              (λ _ v same. (
                t.db.uuid t.db.drawn,
                ap (λ y. y.requests) same
                    ∙ notify-requests s id r m a u
                    ∙ added
                    ∙ ap (λ (y : Wfh). y.requests ++ x ∷ []) e,
              ))
              (admin_reassign_result_id m r.date (admin_reassign_notify s id r m a u))
              (result_id-OnOk m r.date (admin_reassign_notify s id r m a u))))

OnOk-guard :
    {A : Type 0} (P : A → Wfh → Type 0) (b : Bool) (e : Error) (w : Wfh) (o : Outcome Wfh A)
    → (b ≡ true → OnOk P o)
    → OnOk P (if not b then err e w else o)
OnOk-guard P true e w o f = f refl
OnOk-guard P false e w o f = tt

-- What a reassignment asked for and did.
abbrev pub Reassigned : Service → ℕ → ℕ → ℕ → Wfh → Wfh → Type 0
Reassigned s id m actor w w' =
    (r : WfhRequest) × (find (λ (q : WfhRequest). q.id == id) w.requests ≡ some r)
    × (is_assigned r.origin ≡ true)
    × (status_eq r.status approved ≡ true)
    × (admin_reassign_target_ok r.date r.member_id m w ≡ true)
    × MovedRows s id actor m r.date w.requests w'.requests

-- The guards, once the row is found.
abbrev guards : Service → WfhRequest → ℕ → ℕ → ℕ → Text → Wfh → Outcome Wfh ℕ
guards s r id m actor a w =
    if not (is_assigned r.origin)
    then err wfh_assigned w
    else if not (status_eq r.status approved)
    then err wfh_not_approved w
    else if not (admin_reassign_target_ok r.date r.member_id m w)
    then err not_eligible w
    else reassign_row s r id m actor a w

found_row :
    (s : Service) (id m actor : ℕ) (a : Text) (w : Wfh) (r : WfhRequest)
    → not s.cfg.enabled ≡ false
    → find (λ (q : WfhRequest). q.id == id) w.requests ≡ some r
    → admin_reassign_wfh s id m actor a w ≡ guards s r id m actor a w
unfolding admin_reassign_wfh get_wfh_request_by_id
found_row s id m actor a w r on there =
    let got : get_wfh_request_by_id id w ≡ ok r w = rw (get_wfh_request_by_id, there) refl in
    rw on (ap (λ o. bind o (λ q t. guards s q id m actor a t)) got)

-- A reassignment that succeeds found an approved, assigned row of the id and a member who is eligible
-- for its date in the place of its member; it withdraws the rows of the id in the name of the actor,
-- adds one approved, assigned row of the new member for the same date, and changes no other request.
pub admin_reassign_wfh-Reassigned :
    (s : Service) (id m actor : ℕ) (a : Text) (w : Wfh)
    → OnOk (λ _ w'. Reassigned s id m actor w w') (admin_reassign_wfh s id m actor a w)
unfolding admin_reassign_wfh get_wfh_request_by_id
admin_reassign_wfh-Reassigned s id m actor a w = elim (Bool-cases (not s.cfg.enabled)) [
  | inl off ↦ rw (OnOk, off) tt
  | inr on ↦ elim (Option-cases (find (λ (q : WfhRequest). q.id == id) w.requests)) [
    | inl absent ↦ rw (OnOk, on, absent) tt
    | inr (r, there) ↦
        let P : ℕ → Wfh → Type 0 = λ _ w'. Reassigned s id m actor w w' in
        subst (OnOk P) (sym (found_row s id m actor a w r on there)) (
          OnOk-guard P (is_assigned r.origin) wfh_assigned w _ (λ made.
            OnOk-guard P (status_eq r.status approved) wfh_not_approved w _ (λ is_approved.
              OnOk-guard P (admin_reassign_target_ok r.date r.member_id m w) not_eligible w _
                (λ fit.
                  OnOk-imp (λ _ w'. MovedRows s id actor m r.date w.requests w'.requests) P
                    (λ _ w' moved. (r, there, made, is_approved, fit, moved))
                    (reassign_row s r id m actor a w) (reassign_row-OnOk s r id m actor a w)))))
  ]
]
