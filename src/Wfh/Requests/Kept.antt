-- ===== src/Wfh/Requests/Kept.antt =====
-- Each call that writes `wfh_requests` keeps UNIQUE(member_id, date).
use madhatter.Base.{
  ℕ, suc, ◌≡◌, refl, sym, subst, not, ◌&&◌, ◌==◌, Bool-cases, any, find, inl, inr, Option, none,
  some, Option-cases, ltb, if◌then◌else◌,
}
use madhatter.Calendar.{Day, is_holiday}
use madhatter.Store.{has_member}
use madhatter.Store.Exec.{Outcome, ok, err, after, bind, wfh_duplicate_request, ◌>>=◌}
use madhatter.Store.Exec.Frames.{after-bind}
use madhatter.Wfh.{
  WfhRequest, Wfh, Service, is_on, today_utc, status_eq, approved, pending, is_system_made, draw,
  cancelled, no_origin,
}
use madhatter.Wfh.Requests.{
  insert_request, is_user, or_duplicate, is_unique_constraint_error, update_wfh_request_status,
  validate_request_date, with_status,
}
use madhatter.Wfh.Requests.Create.{
  new_request, resurrect, resurrect_or_duplicate, inserted, create_wfh_request,
  create_approved_recurring_wfh_request, create_approved_assigned_wfh_request, recurring_request,
  assigned_request,
}
use madhatter.Wfh.Requests.Withdraw.{
  cancel_wfh_request, update_wfh_request_withdrawn, with_withdrawal, withdraw_wfh,
  withdraw_assigned_wfh_request,
}
use madhatter.Wfh.Requests.Unique.{
  Keeps, Keeps-trans, set_request-Keeps, insert_request-Keeps, insert_or_duplicate-Keeps,
  after_get-Keeps, resurrect-Keeps,
}

validate-after : (s : Service) (d : Day) (w : Wfh) → after (validate_request_date s d w) ≡ w
unfolding validate_request_date
validate-after s d w = elim (Bool-cases (is_holiday s.holiday_checker d)) [
  | inl off ↦ rw off refl
  | inr on ↦ elim (Bool-cases (ltb d (today_utc s))) [
    | inl past ↦ rw (on, past) refl
    | inr ahead ↦ rw (on, ahead) refl
  ]
]

after_validate-Keeps :
    {A : Type 0} (s : Service) (d : Day) (k : Unit → Wfh → Outcome Wfh A) (w : Wfh)
    → ((t : Wfh) → Keeps t (after (k tt t)))
    → Keeps w (after (bind (validate_request_date s d w) k))
after_validate-Keeps s d k w rest =
    after-bind Keeps Keeps-trans w (validate_request_date s d w) k
      (subst (Keeps w) (sym (validate-after s d w)) (λ u. u)) (λ _ t. rest t)

resurrect_or_duplicate-Keeps :
    (s : Service) (m : ℕ) (d : Day) (w : Wfh) → Keeps w (after (resurrect_or_duplicate s m d w))
unfolding resurrect_or_duplicate
resurrect_or_duplicate-Keeps s m d w = after_validate-Keeps s d _ w (λ t. brought_back t)
  where
    brought_back :
        (t : Wfh)
        → Keeps t (
            after (elim (find (is_on m d) t.requests) [
              | none ↦ err wfh_duplicate_request t
              | some existing ↦ resurrect existing t
            ]))
    brought_back t = elim (Option-cases (find (is_on m d) t.requests)) [
      | inl absent ↦ rw absent (λ u. u)
      | inr (r, there) ↦ rw there (resurrect-Keeps r t)
    ]

inserted-Keeps :
    (s : Service) (id m : ℕ) (d : Day) (w : Wfh) (o : Outcome Wfh Unit)
    → Keeps w (after o)
    → Keeps w (after (inserted s id m d o))
unfolding inserted
inserted-Keeps s id m d w (ok _ w') h =
    let got =
      after_get-Keeps id (λ row t. ok (record row { origin = no_origin }) t) w' (λ r t u. u) in
    λ u. got (h u)
inserted-Keeps s id m d w (err e w') h = elim (Bool-cases (is_unique_constraint_error e)) [
  | inl taken ↦ rw taken (λ u. resurrect_or_duplicate-Keeps s m d w' (h u))
  | inr other ↦ rw other h
]

pub create_wfh_request-Keeps :
    (s : Service) (m : ℕ) (d : Day) (w : Wfh) → Keeps w (after (create_wfh_request s m d w))
unfolding create_wfh_request
create_wfh_request-Keeps s m d w = elim (Bool-cases (m == 0)) [
  | inl empty ↦ rw empty (λ u. u)
  | inr given ↦ elim (Bool-cases (not (has_member m w.db.members))) [
    | inl unknown ↦ rw (given, unknown) (λ u. u)
    | inr known ↦
        rw (given, known)
          (after_validate-Keeps s d _ w (λ t.
            let id = t.db.uuid t.db.drawn in
            let t' : Wfh = record t { db = record t.db { drawn = suc t.db.drawn } } in
            inserted-Keeps s id m d t' (insert_request (new_request s id m d) t')
              (insert_request-Keeps (new_request s id m d) t')))
  ]
]

update_withdrawn-Keeps :
    (s : Service) (id : ℕ) (by : Option ℕ) (w : Wfh)
    → Keeps w (after (update_wfh_request_withdrawn s id by w))
unfolding update_wfh_request_withdrawn
update_withdrawn-Keeps s id by w =
    elim (Bool-cases (any (λ (r : WfhRequest). r.id == id) w.requests && not (is_user by w))) [
      | inl lost ↦ rw lost (λ u. u)
      | inr held ↦ rw held (set_request-Keeps id (with_withdrawal s by) w (λ r. (refl, refl)))
    ]

pub withdraw_wfh-Keeps :
    (s : Service) (id m actor : ℕ) (w : Wfh) → Keeps w (after (withdraw_wfh s id m actor w))
unfolding withdraw_wfh
withdraw_wfh-Keeps s id m actor w = after_get-Keeps id _ w (λ r t.
    elim (Bool-cases (not (status_eq r.status approved))) [
      | inl other ↦ rw other (λ u. u)
      | inr is_approved ↦ elim (Bool-cases (is_system_made r.origin)) [
        | inl made ↦ rw (is_approved, made) (λ u. u)
        | inr asked ↦ elim (Bool-cases (not (m == 0) && not (r.member_id == m))) [
          | inl foreign ↦ rw (is_approved, asked, foreign) (λ u. u)
          | inr own ↦ elim (Bool-cases (ltb r.date (today_utc s))) [
            | inl past ↦ rw (is_approved, asked, own, past) (λ u. u)
            | inr ahead ↦
                rw (is_approved, asked, own, ahead)
                  (update_withdrawn-Keeps s id (if actor == 0 then none else some actor) t)
          ]
        ]
      ]
    ])

pub withdraw_assigned-Keeps :
    (s : Service) (id actor : ℕ) (w : Wfh)
    → Keeps w (after (withdraw_assigned_wfh_request s id actor w))
unfolding withdraw_assigned_wfh_request
withdraw_assigned-Keeps s id actor w = after_get-Keeps id _ w (λ r t.
    elim (Bool-cases (not (status_eq r.status approved))) [
      | inl other ↦ rw other (λ u. u)
      | inr is_approved ↦ elim (Bool-cases (ltb r.date (today_utc s))) [
        | inl past ↦ rw (is_approved, past) (λ u. u)
        | inr ahead ↦ rw (is_approved, ahead) (update_withdrawn-Keeps s id (some actor) t)
      ]
    ])

pub cancel-Keeps :
    (s : Service) (id m : ℕ) (w : Wfh) → Keeps w (after (cancel_wfh_request s id m w))
unfolding cancel_wfh_request update_wfh_request_status
cancel-Keeps s id m w = after_get-Keeps id _ w (λ r t. elim (Bool-cases (not (r.member_id == m))) [
  | inl foreign ↦ rw foreign (λ u. u)
  | inr own ↦ elim (Bool-cases (not (status_eq r.status pending))) [
    | inl settled ↦ rw (own, settled) (λ u. u)
    | inr open_still ↦
        rw (own, open_still) (set_request-Keeps id (with_status s cancelled) t (λ q. (refl, refl)))
  ]
])

drawn_insert-Keeps :
    (f : ℕ → WfhRequest) (w : Wfh)
    → Keeps w (after ((draw >>= λ id t. or_duplicate (insert_request (f id) t)) w))
drawn_insert-Keeps f w =
    insert_or_duplicate-Keeps (f (w.db.uuid w.db.drawn))
      (record w { db = record w.db { drawn = suc w.db.drawn } })

pub create_recurring-Keeps :
    (s : Service) (m : ℕ) (d : Day) (t : ℕ) (w : Wfh)
    → Keeps w (after (create_approved_recurring_wfh_request s m d t w))
unfolding create_approved_recurring_wfh_request
create_recurring-Keeps s m d t w = elim (Bool-cases (ltb d (today_utc s))) [
  | inl past ↦ rw past (λ u. u)
  | inr ahead ↦ rw ahead (drawn_insert-Keeps (λ id. recurring_request s id m d t) w)
]

pub create_assigned-Keeps :
    (s : Service) (m : ℕ) (d : Day) (t : ℕ) (w : Wfh)
    → Keeps w (after (create_approved_assigned_wfh_request s m d t w))
unfolding create_approved_assigned_wfh_request
create_assigned-Keeps s m d t w = elim (Bool-cases (ltb d (today_utc s))) [
  | inl past ↦ rw past (λ u. u)
  | inr ahead ↦ rw ahead (drawn_insert-Keeps (λ id. assigned_request s id m d t) w)
]
