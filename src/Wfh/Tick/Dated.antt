-- ===== src/Wfh/Tick/Dated.antt =====
-- The dates that a tick settles, and the requests of each.
use madhatter.Base.{
  ℕ, ◌≡◌, refl, sym, ap, ◌∙◌, subst, Bool, true, false, ◌&&◌, ◌||◌, ◌==◌, ==_iff, ==_refl, leb,
  List, [], ◌∷◌, ◌++◌, map, keep, any, any-append, inl, inr, Bool-cases, arith, &&-true, All-imp,
  any-keep_self, any_mono,
}
use madhatter.Base.Sort.{any-sort_by}
use madhatter.Calendar.{Day}
use madhatter.Wfh.{WfhRequest, Wfh, elem}
use madhatter.Wfh.Requests.{is_settleable, get_pending_for_settlement}
use madhatter.Wfh.Tick.{of_date, dates_of, distinct}
use madhatter.Wfh.Tick.Left.{ids_of, Left, elem-ids_of}

-- The ids of the requests of some dates.
abbrev pub ids_on : List WfhRequest → List Day → List ℕ
ids_on rs [] = []
ids_on rs (d ∷ ds) = ids_of (of_date d rs) ++ ids_on rs ds

any-of_date :
    (z : ℕ) (d : Day) (rs : List WfhRequest)
    → any (λ (r : WfhRequest). r.id == z) (of_date d rs)
      ≡ any (λ (r : WfhRequest). (r.date == d) && (r.id == z)) rs
any-of_date z d [] = refl
any-of_date z d (r ∷ rs) = ground (arith, any-of_date z d rs)

||-true : (b : Bool) → (b || true) ≡ true
||-true true = refl
||-true false = refl

elem-ids_on :
    (z : ℕ) (d : Day) (rs : List WfhRequest) (ds : List Day)
    → elem d ds ≡ true
    → any (λ (r : WfhRequest). (r.date == d) && (r.id == z)) rs ≡ true
    → elem z (ids_on rs ds) ≡ true
elem-ids_on z d rs [] there h = absurd (cc there)
elem-ids_on z d rs (e ∷ ds) there h =
    any-append (λ y. y == z) (ids_of (of_date e rs)) (ids_on rs ds) ∙ elim (Bool-cases (e == d)) [
      | inl same ↦
          let here : elem z (ids_of (of_date e rs)) ≡ true =
            elem-ids_of z (of_date e rs)
            ∙ any-of_date z e rs
            ∙ subst (λ v. any (λ (r : WfhRequest). (r.date == v) && (r.id == z)) rs ≡ true)
                (sym ((==_iff e d).0 same)) h in
          ap (λ b. b || elem z (ids_on rs ds)) here
      | inr other ↦
          let later : elem d ds ≡ true = ground arith in
          ap (λ b. elem z (ids_of (of_date e rs)) || b) (elem-ids_on z d rs ds later h)
          ∙ ||-true (elem z (ids_of (of_date e rs)))
    ]

absorbed : (x z : ℕ) (xs : List ℕ) → elem x xs ≡ true → ((x == z) || elem z xs) ≡ elem z xs
absorbed x z xs h = elim (Bool-cases (x == z)) [
  | inl same ↦ rw same (sym (subst (λ v. elem v xs ≡ true) ((==_iff x z).0 same) h))
  | inr other ↦ rw other refl
]

elem-distinct : (z : ℕ) (xs : List ℕ) → elem z (distinct xs) ≡ elem z xs
unfolding distinct
elem-distinct z [] = refl
elem-distinct z (x ∷ xs) = elim (Bool-cases (elem x xs)) [
  | inl again ↦ rw again (elem-distinct z xs ∙ sym (absorbed x z xs again))
  | inr new ↦ rw new (ap (λ b. (x == z) || b) (elem-distinct z xs))
]

-- Each date of a request is looked at.
elem-dates_of :
    (d : Day) (rs : List WfhRequest)
    → elem d (dates_of rs) ≡ any (λ (r : WfhRequest). r.date == d) rs
elem-dates_of d rs =
    any-sort_by leb (λ y. y == d) (distinct (map (λ (r : WfhRequest). r.date) rs))
    ∙ elem-distinct d (map (λ (r : WfhRequest). r.date) rs)
    ∙ any-dates rs
  where
    any-dates :
        (qs : List WfhRequest)
        → elem d (map (λ (r : WfhRequest). r.date) qs) ≡ any (λ (r : WfhRequest). r.date == d) qs
    any-dates [] = refl
    any-dates (q ∷ qs) = ap (λ b. (q.date == d) || b) (any-dates qs)

-- At the start each row that is due is among the requests of one of the dates.
pub starts_Left :
    (cutoff : Day) (w : Wfh)
    → let rs = get_pending_for_settlement cutoff w in
      Left cutoff (ids_on rs (dates_of rs)) w.requests
unfolding get_pending_for_settlement
starts_Left cutoff w =
    let rs = get_pending_for_settlement cutoff w in
    let p : WfhRequest → WfhRequest → Bool = λ q r. (r.date == q.date) && (r.id == q.id) in
    All-imp _ _ w.requests
      (λ q f h.
        let found : any (p q) rs ≡ true =
          any-sort_by _ (p q) (keep (is_settleable cutoff) w.requests) ∙ f h in
        let dated =
          any_mono (p q) (λ (r : WfhRequest). r.date == q.date) rs
            (λ r e. (&&-true (r.date == q.date) (r.id == q.id) e).0) found in
        elem-ids_on q.id q.date rs (dates_of rs) (elem-dates_of q.date rs ∙ dated) found)
      (any-keep_self (is_settleable cutoff) p w.requests
        (λ q. rw (==_refl q.date, ==_refl q.id) refl))
