-- ===== src/Holiday/Scheduler/Fetched.antt =====
-- What a fetch leaves in the store.
use madhatter.Base.{
  ◌≡◌, ◌⊎◌, refl, ap, subst, ◌∙◌, sym, Bool, true, false, ◌&&◌, ◌||◌, not, Bool-cases, Option-cases,
  none, some, List, [], ◌∷◌, Text, All, All-append, any, any-append, update, is_empty, text_eq,
  text_eq_iff, trim_space, if◌then◌else◌, inl, inr, arith,
}
use madhatter.Holiday.{Holiday, Store, is_date, put, put_all, update_holidays, is_holiday}
use madhatter.Holiday.Dates.{Instant}
use madhatter.Holiday.Fetch.{Fetcher, fetch_and_parse, fetch_each, combine, fetch_multiple}
use madhatter.Holiday.Good.{IsGood, fetch_each-IsGood}
use madhatter.Holiday.Scheduler.{Scheduler, store_fetched, run_fetch}

any-update_date :
    (date : Text) (h : Holiday) (s : Store)
    → any (is_date date) (update (is_date h.date) (λ _. h) s) ≡ any (is_date date) s
any-update_date date h [] = refl
any-update_date date h (x ∷ s) = elim (Bool-cases (is_date h.date x)) [
  | inl hit ↦
      let same : x.date ≡ h.date = text_eq_iff x.date h.date hit in
      rw (hit, same) (ap (λ b. text_eq h.date date || b) (any-update_date date h s))
  | inr other ↦ rw other (ap (λ b. text_eq x.date date || b) (any-update_date date h s))
]

present :
    (date : Text) (h : Holiday) (s : Store)
    → any (is_date h.date) s ≡ true
    → any (is_date date) s ≡ (text_eq h.date date || any (is_date date) s)
present date h [] there = cc
present date h (x ∷ s) there = elim (Bool-cases (is_date h.date x)) [
  | inl hit ↦ let same : x.date ≡ h.date = text_eq_iff x.date h.date hit in rw same (ground arith)
  | inr other ↦ ground (arith, other, present date h s)
]

put-is_holiday :
    (date : Text) (h : Holiday) (s : Store)
    → is_holiday date (put h s) ≡ (text_eq h.date date || is_holiday date s)
unfolding put is_holiday
put-is_holiday date h s = elim (Bool-cases (any (is_date h.date) s)) [
  | inl there ↦ rw there (any-update_date date h s ∙ present date h s there)
  | inr new ↦ rw new (ground (arith, any-append (is_date date) s (h ∷ [])))
]

put_all-is_holiday :
    (date : Text) (hs : List Holiday) (s : Store)
    → is_holiday date (put_all hs s) ≡ (any (is_date date) hs || is_holiday date s)
unfolding put_all
put_all-is_holiday date [] s = refl
put_all-is_holiday date (h ∷ hs) s =
    ground (arith, put_all-is_holiday date hs (put h s), put-is_holiday date h s)

pub update_holidays-is_holiday :
    (date : Text) (hs : List Holiday) → is_holiday date (update_holidays hs) ≡ any (is_date date) hs
unfolding update_holidays is_holiday
update_holidays-is_holiday date hs = put_all-is_holiday date hs [] ∙ ground (arith)

-- One of the feeds that can be read has a holiday on the date.
abbrev pub is_fed : Fetcher → Instant → Text → Text → Bool
is_fed f now date raw =
    not (is_empty (trim_space raw)) && (elim (fetch_and_parse f now (trim_space raw)) [
      | none ↦ false
      | some hs ↦ any (is_date date) hs
    ])

fetch_each-is_fed :
    (f : Fetcher) (now : Instant) (date : Text) (urls : List Text)
    → any (is_date date) (fetch_each f now urls).0 ≡ any (is_fed f now date) urls
unfolding fetch_each
fetch_each-is_fed f now date [] = refl
fetch_each-is_fed f now date (raw ∷ urls) =
    let rest = fetch_each-is_fed f now date urls in
    elim (Bool-cases (is_empty (trim_space raw))) [
      | inl blank ↦ rw blank rest
      | inr given ↦ elim (Option-cases (fetch_and_parse f now (trim_space raw))) [
        | inl bad ↦ rw (given, bad, fetch_each) rest
        | inr (hs, read) ↦
            rw (given, read, fetch_each)
              (any-append (is_date date) hs (fetch_each f now urls).0
                ∙ ap (λ b. any (is_date date) hs || b) rest)
      ]
    ]

-- The store holds these and no others; or it is as it was, where nothing was read and some feed failed.
abbrev pub Stored : List Holiday × List Text → Store → Store → Type 0
Stored fetched old new =
    (((date : Text) → is_holiday date new ≡ any (is_date date) fetched.0)
      × ((new ≡ update_holidays fetched.0)))
    ⊎ ((new ≡ old) × (fetched.0 ≡ []) × (is_empty fetched.1 ≡ false))

combine-Stored :
    (hs : List Holiday) (es : List Text) (old : Store)
    → Stored (hs, es) old (store_fetched (combine (hs, es)) old)
unfolding combine
combine-Stored hs [] old = inl ((λ date. update_holidays-is_holiday date hs), refl)
combine-Stored [] (e ∷ es) old = inr (refl, refl, refl)
combine-Stored (h ∷ hs) (e ∷ es) old =
    inl ((λ date. update_holidays-is_holiday date (h ∷ hs)), refl)

All-update_date :
    (now : Instant) (h : Holiday) (s : Store)
    → IsGood now h
    → All (IsGood now) s
    → All (IsGood now) (update (is_date h.date) (λ _. h) s)
All-update_date now h [] g gs = tt
All-update_date now h (x ∷ s) g gs =
    let rest = All-update_date now h s g gs.1 in
    elim (is_date h.date x)
      as (λ b. All (IsGood now) ((if b then h else x) ∷ update (is_date h.date) (λ _. h) s)) [
        | true ↦ (g, rest)
        | false ↦ (gs.0, rest)
      ]

put-IsGood :
    (now : Instant) (h : Holiday) (s : Store)
    → IsGood now h
    → All (IsGood now) s
    → All (IsGood now) (put h s)
unfolding put
put-IsGood now h s g gs = elim (Bool-cases (any (is_date h.date) s)) [
  | inl there ↦ rw there (All-update_date now h s g gs)
  | inr new ↦ rw new (All-append (IsGood now) s (h ∷ []) gs (g, tt))
]

put_all-IsGood :
    (now : Instant) (hs : List Holiday) (s : Store)
    → All (IsGood now) hs
    → All (IsGood now) s
    → All (IsGood now) (put_all hs s)
unfolding put_all
put_all-IsGood now [] s gs h = h
put_all-IsGood now (x ∷ hs) s gs h =
    put_all-IsGood now hs (put x s) gs.1 (put-IsGood now x s gs.0 h)

-- A fetch of a scheduler that runs leaves a store in which a date is a holiday exactly where one of
-- the feeds that were read has it, and whose holidays all have a date in range and a clean name; or
-- the store is as it was, and then no feed that was read had a holiday and some feed failed.
pub run_fetch-Fetched :
    (f : Fetcher) (now : Instant) (s : Scheduler)
    → s.running ≡ true
    → let new = (run_fetch f now s).store in
      (((date : Text) → is_holiday date new ≡ any (is_fed f now date) s.urls)
        × All (IsGood now) new)
      ⊎ ((new ≡ s.store)
          × ((date : Text) → any (is_fed f now date) s.urls ≡ false)
          × (is_empty (fetch_each f now s.urls).1 ≡ false))
unfolding run_fetch fetch_multiple update_holidays
run_fetch-Fetched f now s runs =
    let fetched = fetch_each f now s.urls in
    elim (combine-Stored fetched.0 fetched.1 s.store) [
      | inl (dates, set) ↦ rw runs (
          inl (
            (λ date. dates date ∙ fetch_each-is_fed f now date s.urls),
            subst (All (IsGood now)) (sym set)
                (put_all-IsGood now fetched.0 [] (fetch_each-IsGood f now s.urls) tt),
          ))
      | inr (kept, empty, failing) ↦ rw runs (
          inr (
            kept,
            (λ date.
                sym (fetch_each-is_fed f now date s.urls) ∙ ap (λ hs. any (is_date date) hs) empty),
            failing,
          ))
    ]
