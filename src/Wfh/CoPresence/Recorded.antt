-- ===== src/Wfh/CoPresence/Recorded.antt =====
-- What the writer of the meetings of a date leaves: each pair that was on site, once.
use madhatter.Base.{
  ℕ, ◌≡◌, refl, ◌∙◌, true, false, ◌==◌, ltb, Bool-cases, List, [], ◌∷◌, any, length, All, All-map,
  All-keep_of, All-imp, inl, inr, arith,
}
use madhatter.Base.Sort.{All-sort_by}
use madhatter.Calendar.{Day}
use madhatter.Store.{TeamMember, has_member}
use madhatter.Store.Exec.{ok}
use madhatter.Store.Members.{get_active_team_members}
use madhatter.Wfh.{Wfh, Service, today_utc, elem}
use madhatter.Wfh.Presence.{on_site_cohort_ids}
use madhatter.Wfh.CoPresence.{
  is_pair, record_pair, insert_wfh_co_presence_pair, write_pairs_with, write_pairs_from,
  write_co_presence_pairs, write_co_presence_for_past_date,
}
use madhatter.Wfh.CoPresence.Counts.{
  with_pairs, Counts, IsBetween, have_met, AllMet, IsKnown, write_pairs_from-Counts,
}

-- Two that have met give no row again.
insert_pair_again :
    (ids : List ℕ) (d : Day) (a b : ℕ) (w : Wfh)
    → IsKnown ids w a
    → IsKnown ids w b
    → have_met d a b w ≡ true
    → insert_wfh_co_presence_pair d a b w ≡ ok false w
unfolding insert_wfh_co_presence_pair record_pair
insert_pair_again ids d a b w ka kb met = elim (Bool-cases (a == b)) [
  | inl same ↦ rw (ka.0, kb.0, same) refl
  | inr other ↦ elim (Bool-cases (ltb b a)) [
    | inl swapped ↦
        let there : any (is_pair d b a) w.co_presence ≡ true =
          ground (arith, met, other, swapped) in
        rw (ka.0, kb.0, other, swapped, there) refl
    | inr ordered ↦
        let there : any (is_pair d a b) w.co_presence ≡ true =
          ground (arith, met, other, ordered) in
        rw (ka.0, kb.0, other, ordered, there) refl
  ]
]

write_pairs_with_again :
    (ids : List ℕ) (d : Day) (a : ℕ) (bs : List ℕ) (n : ℕ) (w : Wfh)
    → IsKnown ids w a
    → All (IsKnown ids w) bs
    → All (λ b. have_met d a b w ≡ true) bs
    → write_pairs_with d a bs n w ≡ ok n w
unfolding write_pairs_with
write_pairs_with_again ids d a [] n w ka kbs met = refl
write_pairs_with_again ids d a (b ∷ bs) n w ka kbs met =
    rw (insert_pair_again ids d a b w ka kbs.0 met.0)
      (write_pairs_with_again ids d a bs n w ka kbs.1 met.1)

write_pairs_from_again :
    (ids : List ℕ) (d : Day) (rest : List ℕ) (n : ℕ) (w : Wfh)
    → All (IsKnown ids w) rest
    → AllMet d rest w
    → write_pairs_from d rest n w ≡ ok n w
unfolding write_pairs_from
write_pairs_from_again ids d [] n w known met = refl
write_pairs_from_again ids d (a ∷ others) n w known met =
    rw (write_pairs_with_again ids d a others n w known.0 known.1 met.0)
      (write_pairs_from_again ids d others n w known.1 met.1)

-- The early return for fewer than two members does what the loops would.
write_co_presence_pairs_lem :
    (d : Day) (ids : List ℕ) (w : Wfh)
    → write_co_presence_pairs d ids w ≡ write_pairs_from d ids 0 w
unfolding write_co_presence_pairs write_pairs_from write_pairs_with
write_co_presence_pairs_lem d [] w = refl
write_co_presence_pairs_lem d (a ∷ []) w = refl
write_co_presence_pairs_lem d (a ∷ b ∷ ids) w =
    let long : ltb (length (a ∷ b ∷ ids)) 2 ≡ false = ground arith in rw long refl

any_self : {A : Type 0} (f : A → ℕ) (xs : List A) → All (λ x. any (λ y. f y == f x) xs ≡ true) xs
any_self f [] = tt
any_self f (x ∷ xs) = (ground arith, All-imp _ _ xs (λ y h. ground (arith, h)) (any_self f xs))

All-both :
    {A : Type 0} (P Q : A → Type 0) (xs : List A) → All P xs → All Q xs → All (λ x. P x × Q x) xs
All-both P Q [] h k = tt
All-both P Q (x ∷ xs) h k = ((h.0, k.0), All-both P Q xs h.1 k.1)

-- Each member on site is a row of the team.
cohort-IsKnown :
    (d : Day) (w : Wfh)
    → All (λ (m : TeamMember). (m.id == 0) ≡ false) w.db.members
    → All (IsKnown (on_site_cohort_ids d w) w) (on_site_cohort_ids d w)
unfolding on_site_cohort_ids get_active_team_members
cohort-IsKnown d w ids =
    let P : TeamMember → Type 0 =
      λ m. ((m.id == 0) ≡ false) × (has_member m.id w.db.members ≡ true) in
    let of_team : All P w.db.members =
      All-both (λ (m : TeamMember). (m.id == 0) ≡ false)
        (λ (m : TeamMember). has_member m.id w.db.members ≡ true) w.db.members ids
        (any_self (λ (m : TeamMember). m.id) w.db.members) in
    let of_cohort : All (λ a. ((a == 0) ≡ false) × (has_member a w.db.members ≡ true))
        (on_site_cohort_ids d w) =
      All-map P _ (λ (m : TeamMember). m.id) _ (λ m h. h)
        (All-keep_of P _ _ (All-sort_by _ P _ (All-keep_of P _ _ of_team))) in
    All-imp _ _ _ (λ a h. (h.0.0, h.0.1, h.1))
      (All-both _ (λ a. elem a (on_site_cohort_ids d w) ≡ true) (on_site_cohort_ids d w) of_cohort
        (any_self (λ a. a) (on_site_cohort_ids d w)))

-- The writer for a past date, where no member has the empty id: it succeeds, with the number of rows
-- that it adds, all of them for the date and for two members on site, the one with the smaller id first;
-- it changes nothing else; then each two members on site have a row; and a second run changes nothing
-- and counts no row.
pub write_co_presence_for_past_date-Counts :
    (s : Service) (d : Day) (w : Wfh)
    → ltb d (today_utc s) ≡ true
    → All (λ (m : TeamMember). (m.id == 0) ≡ false) w.db.members
    → Counts
        (IsBetween d (on_site_cohort_ids d w))
        (λ w'.
          AllMet d (on_site_cohort_ids d w) w' × (write_co_presence_for_past_date s d w' ≡ ok 0 w'))
        0
        w
        (write_co_presence_for_past_date s d w)
unfolding write_co_presence_for_past_date on_site_cohort_ids
write_co_presence_for_past_date-Counts s d w past ids =
    let cohort = on_site_cohort_ids d w in
    let known = cohort-IsKnown d w ids in
    let (ns, done, rows, met) = write_pairs_from-Counts cohort d cohort 0 w known in
    rw past (
      ns,
      write_co_presence_pairs_lem d cohort w ∙ done,
      rows,
      (
        met,
        write_co_presence_pairs_lem d cohort (with_pairs ns w)
            ∙ write_pairs_from_again cohort d cohort 0 (with_pairs ns w) known met,
      ),
    )
