-- ===== src/Wfh/Requests/Unique.antt =====
-- UNIQUE(member_id, date): what every call that writes `wfh_requests` keeps.
use madhatter.Base.{
  ℕ, ◌≡◌, refl, sym, ap, ◌∙◌, subst, Bool, true, false, not, ◌&&◌, ◌||◌, ◌==◌, Bool-cases, ||-false,
  List, [], ◌∷◌, ◌++◌, any, keep, update, find, absent-keep, any-append, inl, inr, Option-cases,
  arith, if◌then◌else◌,
}
use madhatter.Store.{has_member}
use madhatter.Store.Exec.{Outcome, ok, err, after, bind}
use madhatter.Store.Exec.Frames.{after-bind}
use madhatter.Wfh.{WfhRequest, Wfh, is_on}
use madhatter.Wfh.Requests.{
  insert_request, is_user, or_duplicate, set_request, get_wfh_request_by_id,
}
use madhatter.Wfh.Requests.Create.{resurrected, is_resurrectable, resurrect}

-- No two rows have one member and one date.
abbrev pub IsUnique : List WfhRequest → Type 0
IsUnique [] = Unit
IsUnique (r ∷ rs) = (any (is_on r.member_id r.date) rs ≡ false) × IsUnique rs

-- A call keeps the constraint.
abbrev pub Keeps : Wfh → Wfh → Type 0
Keeps w w' = IsUnique w.requests → IsUnique w'.requests

pub Keeps-trans : (a b c : Wfh) → Keeps a b → Keeps b c → Keeps a c
Keeps-trans a b c h k u = k (h u)

any-update_same :
    (q p : WfhRequest → Bool) (f : WfhRequest → WfhRequest) (rs : List WfhRequest)
    → ((r : WfhRequest) → q (f r) ≡ q r)
    → any q (update p f rs) ≡ any q rs
any-update_same q p f [] same = refl
any-update_same q p f (r ∷ rs) same = ground (arith, any-update_same q p f rs same, same r)

-- A change of rows that leaves their members and dates.
update-IsUnique :
    (p : WfhRequest → Bool) (f : WfhRequest → WfhRequest) (rs : List WfhRequest)
    → ((r : WfhRequest) → ((f r).member_id ≡ r.member_id) × ((f r).date ≡ r.date))
    → IsUnique rs
    → IsUnique (update p f rs)
update-IsUnique p f [] same u = tt
update-IsUnique p f (r ∷ rs) same u =
    let rest : IsUnique (update p f rs) = update-IsUnique p f rs same u.1 in
    let free : any (is_on r.member_id r.date) (update p f rs) ≡ false =
      any-update_same (is_on r.member_id r.date) p f rs (λ q.
        ap (λ m. (m == r.member_id) && ((f q).date == r.date)) (same q).0
        ∙ ap (λ d. (q.member_id == r.member_id) && (d == r.date)) (same q).1)
      ∙ u.0 in
    elim (p r) as (λ b. IsUnique ((if b then f r else r) ∷ update p f rs)) [
      | true ↦ (
        ap (λ m. any (is_on m (f r).date) (update p f rs)) (same r).0
            ∙ ap (λ d. any (is_on r.member_id d) (update p f rs)) (same r).1
            ∙ free,
        rest,
      )
      | false ↦ (free, rest)
    ]

pub keep-IsUnique :
    (p : WfhRequest → Bool) (rs : List WfhRequest) → IsUnique rs → IsUnique (keep p rs)
keep-IsUnique p [] u = tt
keep-IsUnique p (r ∷ rs) u =
    elim (p r) as (λ b. IsUnique (if b then r ∷ keep p rs else keep p rs)) [
      | true ↦ (absent-keep (is_on r.member_id r.date) p rs u.0, keep-IsUnique p rs u.1)
      | false ↦ keep-IsUnique p rs u.1
    ]

is_on_flip :
    (r q : WfhRequest)
    → is_on r.member_id r.date q ≡ false
    → (is_on q.member_id q.date r || false) ≡ false
is_on_flip r q h = ground arith

append-IsUnique :
    (r : WfhRequest) (rs : List WfhRequest)
    → any (is_on r.member_id r.date) rs ≡ false
    → IsUnique rs
    → IsUnique (rs ++ r ∷ [])
append-IsUnique r [] free u = (refl, tt)
append-IsUnique r (q ∷ rs) free u =
    let (other, absent) = ||-false (is_on r.member_id r.date q) _ free in
    (
      any-append (is_on q.member_id q.date) rs (r ∷ [])
          ∙ ap (λ b. b || any (is_on q.member_id q.date) (r ∷ [])) u.0
          ∙ is_on_flip r q other,
      append-IsUnique r rs absent u.1,
    )

pub set_request-Keeps :
    (id : ℕ) (f : WfhRequest → WfhRequest) (w : Wfh)
    → ((r : WfhRequest) → ((f r).member_id ≡ r.member_id) × ((f r).date ≡ r.date))
    → Keeps w (set_request id f w)
unfolding set_request
set_request-Keeps id f w same = update-IsUnique (λ (r : WfhRequest). r.id == id) f w.requests same

pub insert_request-Keeps : (r : WfhRequest) (w : Wfh) → Keeps w (after (insert_request r w))
unfolding insert_request
insert_request-Keeps r w =
    elim (Bool-cases (
      any (λ (q : WfhRequest). q.id == r.id) w.requests
      || any (is_on r.member_id r.date) w.requests)) [
        | inl taken ↦ rw taken (λ u. u)
        | inr free ↦
            elim (Bool-cases (not (has_member r.member_id w.db.members && is_user r.marked_by w))) [
              | inl lost ↦ rw (free, lost) (λ u. u)
              | inr held ↦ rw (free, held) (append-IsUnique r w.requests (||-false _ _ free).1)
            ]
      ]

or_duplicate-after : (o : Outcome Wfh Unit) → after (or_duplicate o) ≡ after o
unfolding or_duplicate
or_duplicate-after (ok _ w) = refl
or_duplicate-after (err e w) = refl

pub insert_or_duplicate-Keeps :
    (r : WfhRequest) (w : Wfh) → Keeps w (after (or_duplicate (insert_request r w)))
insert_or_duplicate-Keeps r w =
    subst (Keeps w) (sym (or_duplicate-after (insert_request r w))) (insert_request-Keeps r w)

pub get_by_id-Keeps : (id : ℕ) (w : Wfh) → after (get_wfh_request_by_id id w) ≡ w
unfolding get_wfh_request_by_id
get_by_id-Keeps id w = elim (Option-cases (find (λ (r : WfhRequest). r.id == id) w.requests)) [
  | inl absent ↦ rw (after, absent) refl
  | inr (r, there) ↦ rw (after, there) refl
]

-- A call that starts with the row of an id.
pub after_get-Keeps :
    {A : Type 0} (id : ℕ) (k : WfhRequest → Wfh → Outcome Wfh A) (w : Wfh)
    → ((r : WfhRequest) (t : Wfh) → Keeps t (after (k r t)))
    → Keeps w (after (bind (get_wfh_request_by_id id w) k))
after_get-Keeps id k w rest =
    after-bind Keeps Keeps-trans w (get_wfh_request_by_id id w) k
      (subst (Keeps w) (sym (get_by_id-Keeps id w)) (λ u. u)) rest

resurrected-fields :
    (r : WfhRequest) → ((resurrected r).member_id ≡ r.member_id) × ((resurrected r).date ≡ r.date)
resurrected-fields r = elim (Bool-cases (is_resurrectable r)) [
  | inl e ↦ rw e (refl, refl)
  | inr e ↦ rw e (refl, refl)
]

pub resurrect-Keeps : (r : WfhRequest) (w : Wfh) → Keeps w (after (resurrect r w))
unfolding resurrect
resurrect-Keeps r w = elim (Bool-cases (not (is_resurrectable r))) [
  | inl no_way ↦ rw no_way (λ u. u)
  | inr able ↦
      elim (Bool-cases
        (not (any (λ (q : WfhRequest). (q.id == r.id) && is_resurrectable q) w.requests))) [
          | inl gone ↦ rw (able, gone) (λ u. u)
          | inr there ↦
              rw (able, there)
                (rw (get_by_id-Keeps r.id (set_request r.id resurrected w))
                  (set_request-Keeps r.id resurrected w resurrected-fields))
        ]
]
