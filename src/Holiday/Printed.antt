-- ===== src/Holiday/Printed.antt =====
-- A calendar that is printed plainly, and what the scanner makes of its lines.
use madhatter.Base.{
  ℕ, ◌≡◌, refl, ap, ◌∙◌, sym, Bool, true, false, &&-true, List, [], ◌∷◌, ◌++◌, Text, codes, All,
  is_space, IsSolid, text_eq, trim_space, arith,
}
use madhatter.Base.Split.{join}
use madhatter.Holiday.{Holiday}
use madhatter.Holiday.Dates.{Instant, dash, is_digit, are_digits, validate_holiday_date}
use madhatter.Holiday.Feed.{
  Properties, Scan, no_scan, newline, join_words, parse_event_line, cut_at, is_calendar_boundary,
  scan_line,
}
use madhatter.Holiday.Names.{
  IsWord, join_words_last, trim_space-IsWord, trim_space-join_words, trim_space_word,
}

-- A holiday to print: the first word of its name, the others, and the digits of its date.
pub record Entry : Type 0 where
  pub word : Text
  pub words : List Text
  pub y1 : ℕ
  pub y2 : ℕ
  pub y3 : ℕ
  pub y4 : ℕ
  pub m1 : ℕ
  pub m2 : ℕ
  pub d1 : ℕ
  pub d2 : ℕ

abbrev pub name_of : Entry → Text
name_of e = join_words (e.word ∷ e.words)

abbrev pub digits_of : Entry → Text
digits_of e = e.y1 ∷ e.y2 ∷ e.y3 ∷ e.y4 ∷ e.m1 ∷ e.m2 ∷ e.d1 ∷ e.d2 ∷ []

abbrev pub date_of : Entry → Text
date_of e = e.y1 ∷ e.y2 ∷ e.y3 ∷ e.y4 ∷ dash ∷ e.m1 ∷ e.m2 ∷ dash ∷ e.d1 ∷ e.d2 ∷ []

abbrev pub holiday_of : Entry → Holiday
holiday_of e = record { date = date_of e; name = name_of e }

abbrev pub lines_of : List Entry → List Text
lines_of [] = codes "END:VCALENDAR" ∷ []
lines_of (e ∷ es) =
    codes "BEGIN:VEVENT"
    ∷ (codes "SUMMARY:" ++ name_of e)
    ∷ (codes "DTSTART;VALUE=DATE:" ++ digits_of e)
    ∷ codes "END:VEVENT"
    ∷ lines_of es

abbrev pub print : List Entry → Text
print es = join newline (codes "BEGIN:VCALENDAR" ∷ lines_of es)

-- The name is of words, and the date has digits and is in range.
abbrev pub IsPrintable : Instant → Entry → Type 0
IsPrintable now e =
    All IsWord (e.word ∷ e.words)
    × (are_digits (digits_of e) ≡ true)
    × (validate_holiday_date now (date_of e) ≡ true)

abbrev pub inside : List Holiday → Properties → Scan
inside hs ps = record { holidays = hs; current_event = ps; in_event = true }

abbrev pub outside : List Holiday → Properties → Scan
outside hs ps = record { holidays = hs; current_event = ps; in_event = false }

abbrev pub named : Entry → Properties
named e = (codes "SUMMARY", name_of e) ∷ []

abbrev pub with_date : Entry → Properties
with_date e = (codes "DTSTART;VALUE=DATE", digits_of e) ∷ named e

pub scan_begin :
    (now : Instant) (hs : List Holiday) (ps : Properties) (b : Bool)
    → scan_line now
        (codes "BEGIN:VEVENT")
        (record { holidays = hs; current_event = ps; in_event = b })
      ≡ inside hs []
unfolding scan_line is_calendar_boundary text_eq trim_space is_space
scan_begin now hs ps b = refl

pub scan_end_calendar :
    (now : Instant) (hs : List Holiday) (ps : Properties)
    → scan_line now (codes "END:VCALENDAR") (outside hs ps) ≡ outside hs ps
unfolding scan_line is_calendar_boundary text_eq trim_space is_space
scan_end_calendar now hs ps = refl

pub scan_begin_calendar :
    (now : Instant) → scan_line now (codes "BEGIN:VCALENDAR") no_scan ≡ no_scan
unfolding scan_line is_calendar_boundary text_eq trim_space is_space
scan_begin_calendar now = refl

trim_summary :
    (e : Entry)
    → All IsWord (e.word ∷ e.words)
    → trim_space (codes "SUMMARY:" ++ name_of e) ≡ codes "SUMMARY:" ++ name_of e
unfolding is_space
trim_summary e h =
    let (x, y, same, word) = join_words_last e.words e.word h in
    ap (λ t. trim_space (codes "SUMMARY:" ++ t)) same
    ∙ trim_space_word 83 (codes "UMMARY:") x y refl word
    ∙ ap (λ t. codes "SUMMARY:" ++ t) (sym same)

summary_line :
    (e : Entry)
    → All IsWord (e.word ∷ e.words)
    → parse_event_line (codes "SUMMARY:" ++ name_of e) [] ≡ named e
unfolding parse_event_line cut_at trim_space is_space
summary_line e h = ap (λ t. (codes "SUMMARY", t) ∷ []) (trim_space-join_words (e.word ∷ e.words) h)

pub scan_summary :
    (now : Instant) (hs : List Holiday) (e : Entry)
    → All IsWord (e.word ∷ e.words)
    → scan_line now (codes "SUMMARY:" ++ name_of e) (inside hs []) ≡ inside hs (named e)
unfolding scan_line is_calendar_boundary text_eq
scan_summary now hs e h = rw (trim_summary e h) (ap (inside hs) (summary_line e h))

digit-IsSolid : (c : ℕ) → is_digit c ≡ true → IsSolid c
unfolding is_space
digit-IsSolid c h = ground arith

digits-IsSolid : (cs : List ℕ) → are_digits cs ≡ true → All IsSolid cs
digits-IsSolid [] h = tt
digits-IsSolid (c ∷ cs) h =
    let (first, rest) = &&-true (is_digit c) (are_digits cs) h in
    (digit-IsSolid c first, digits-IsSolid cs rest)

pub digits-IsWord : (e : Entry) → are_digits (digits_of e) ≡ true → IsWord (digits_of e)
digits-IsWord e h = (digits-IsSolid (digits_of e) h, refl)

date_line :
    (e : Entry)
    → are_digits (digits_of e) ≡ true
    → parse_event_line (codes "DTSTART;VALUE=DATE:" ++ digits_of e) (named e) ≡ with_date e
unfolding parse_event_line cut_at is_space
date_line e h =
    ap (λ t. (trim_space (codes "DTSTART;VALUE=DATE"), t) ∷ named e)
      (trim_space-IsWord (digits_of e) (digits-IsWord e h))
    ∙ (unfold trim_space in refl)

pub scan_date :
    (now : Instant) (hs : List Holiday) (e : Entry)
    → are_digits (digits_of e) ≡ true
    → scan_line now (codes "DTSTART;VALUE=DATE:" ++ digits_of e) (inside hs (named e))
      ≡ inside hs (with_date e)
unfolding scan_line is_calendar_boundary text_eq is_space
scan_date now hs e h =
    let trimmed : trim_space (codes "DTSTART;VALUE=DATE:" ++ digits_of e)
        ≡ codes "DTSTART;VALUE=DATE:" ++ digits_of e =
      trim_space_word 68 (codes "TSTART;VALUE=DATE:") [] (digits_of e) refl (digits-IsWord e h) in
    rw trimmed (ap (inside hs) (date_line e h))
