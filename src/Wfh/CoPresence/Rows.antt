-- ===== src/Wfh/CoPresence/Rows.antt =====
-- The writers of `wfh_co_presence` change no other table.
use madhatter.Base.{
  ℕ, zero, suc, ◌-◌, ◌≡◌, refl, ap, ◌∙◌, true, false, not, Bool-cases, List, [], ◌∷◌, inl, inr, any,
  ◌&&◌, ◌||◌, ◌==◌, ltb, length, if◌then◌else◌,
}
use madhatter.Calendar.{Day, is_weekend}
use madhatter.Store.{has_member}
use madhatter.Store.Exec.{after}
use madhatter.Store.Exec.Frames.{after-bind}
use madhatter.Wfh.{Wfh, Service, today_utc}
use madhatter.Wfh.Presence.{on_site_cohort_ids}
use madhatter.Wfh.CoPresence.{
  is_pair, record_pair, insert_wfh_co_presence_pair, write_pairs_with, write_pairs_from,
  write_co_presence_pairs, write_co_presence_for_past_date, backfill_from, backfill_rounds,
  backfill_co_presence,
}

-- All tables but `wfh_co_presence`.
abbrev pub OnlyPairs : Wfh → Wfh → Type 0
OnlyPairs w w' = w ≡ record w' { co_presence = w.co_presence }

OnlyPairs-trans : (a b c : Wfh) → OnlyPairs a b → OnlyPairs b c → OnlyPairs a c
OnlyPairs-trans a b c h k = h ∙ ap (λ (x : Wfh). record x { co_presence = a.co_presence }) k

record_pair-OnlyPairs : (d : Day) (a b : ℕ) (w : Wfh) → OnlyPairs w (after (record_pair d a b w))
unfolding record_pair
record_pair-OnlyPairs d a b w = elim (Bool-cases (any (is_pair d a b) w.co_presence)) [
  | inl there ↦ rw there refl
  | inr new ↦ elim (Bool-cases (not (has_member a w.db.members && has_member b w.db.members))) [
    | inl lost ↦ rw (new, lost) refl
    | inr held ↦ rw (new, held) refl
  ]
]

pub insert_pair-OnlyPairs :
    (d : Day) (a b : ℕ) (w : Wfh) → OnlyPairs w (after (insert_wfh_co_presence_pair d a b w))
unfolding insert_wfh_co_presence_pair
insert_pair-OnlyPairs d a b w = elim (Bool-cases (a == 0 || b == 0)) [
  | inl empty ↦ rw empty refl
  | inr given ↦ elim (Bool-cases (a == b)) [
    | inl same ↦ rw (given, same) refl
    | inr other ↦ elim (Bool-cases (ltb b a)) [
      | inl swapped ↦ rw (given, other, swapped) (record_pair-OnlyPairs d b a w)
      | inr ordered ↦ rw (given, other, ordered) (record_pair-OnlyPairs d a b w)
    ]
  ]
]

write_pairs_with-OnlyPairs :
    (d : Day) (a : ℕ) (bs : List ℕ) (n : ℕ) (w : Wfh)
    → OnlyPairs w (after (write_pairs_with d a bs n w))
unfolding write_pairs_with
write_pairs_with-OnlyPairs d a [] n w = refl
write_pairs_with-OnlyPairs d a (b ∷ bs) n w =
    after-bind OnlyPairs OnlyPairs-trans w (insert_wfh_co_presence_pair d a b w)
      (λ inserted w'. write_pairs_with d a bs (if inserted then suc n else n) w')
      (insert_pair-OnlyPairs d a b w)
      (λ inserted w'. write_pairs_with-OnlyPairs d a bs (if inserted then suc n else n) w')

write_pairs_from-OnlyPairs :
    (d : Day) (ids : List ℕ) (n : ℕ) (w : Wfh) → OnlyPairs w (after (write_pairs_from d ids n w))
unfolding write_pairs_from
write_pairs_from-OnlyPairs d [] n w = refl
write_pairs_from-OnlyPairs d (a ∷ others) n w =
    after-bind OnlyPairs OnlyPairs-trans w (write_pairs_with d a others n w)
      (λ n' w'. write_pairs_from d others n' w') (write_pairs_with-OnlyPairs d a others n w)
      (λ n' w'. write_pairs_from-OnlyPairs d others n' w')

write_for_date-OnlyPairs :
    (s : Service) (d : Day) (w : Wfh) → OnlyPairs w (after (write_co_presence_for_past_date s d w))
unfolding write_co_presence_for_past_date write_co_presence_pairs
write_for_date-OnlyPairs s d w = elim (Bool-cases (not (ltb d (today_utc s)))) [
  | inl ahead ↦ rw ahead refl
  | inr past ↦ elim (Bool-cases (ltb (length (on_site_cohort_ids d w)) 2)) [
    | inl few ↦ rw (past, write_co_presence_pairs, few) refl
    | inr some_met ↦
        rw (past, write_co_presence_pairs, some_met)
          (write_pairs_from-OnlyPairs d (on_site_cohort_ids d w) 0 w)
  ]
]

backfill_from-OnlyPairs :
    (s : Service) (n : ℕ) (d : Day) (w : Wfh) → OnlyPairs w (backfill_from s n d w)
unfolding backfill_from
backfill_from-OnlyPairs s zero d w = refl
backfill_from-OnlyPairs s (suc n) d w =
    let w' = after (write_co_presence_for_past_date s d w) in
    elim (is_weekend d) as (λ b. OnlyPairs w (backfill_from s n (d - 1) (if b then w else w'))) [
      | true ↦ backfill_from-OnlyPairs s n (d - 1) w
      | false ↦
          OnlyPairs-trans w w' (backfill_from s n (d - 1) w') (write_for_date-OnlyPairs s d w)
            (backfill_from-OnlyPairs s n (d - 1) w')
    ]

-- The backfill of the meetings changes no table but theirs.
pub backfill_co_presence-OnlyPairs :
    (s : Service) (w : Wfh) → OnlyPairs w (backfill_co_presence s w)
unfolding backfill_co_presence
backfill_co_presence-OnlyPairs s w =
    let w' = backfill_from s (backfill_rounds s) (today_utc s - 1) w in
    elim s.cfg.co_presence_enabled as (λ b. OnlyPairs w (if b then w' else w)) [
      | true ↦ backfill_from-OnlyPairs s (backfill_rounds s) (today_utc s - 1) w
      | false ↦ refl
    ]
