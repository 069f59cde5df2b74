-- ===== src/Holiday/RoundTrip.antt =====
-- A calendar that is printed plainly is read back by the parser for malformed ones.
use madhatter.Base.{
  ℕ, ◌≡◌, refl, ap, ◌∙◌, sym, true, false, ◌==◌, none, some, List, [], ◌∷◌, ◌++◌, Text, codes, All,
  All-imp, All-append, map, is_empty, is_space, IsSolid, text_eq, trim_space, if◌then◌else◌, arith,
}
use mathlib.Core.List.{append_assoc, append-nil}
use madhatter.Base.Split.{Lacks, Lacks-any, split-join}
use madhatter.Holiday.{Holiday}
use madhatter.Holiday.Dates.{Instant, are_digits}
use madhatter.Holiday.Feed.{
  Properties, Scan, no_scan, newline, space, join_words, dated, parse_ical_date,
  parse_event_fallback, is_calendar_boundary, scan_line, scan_lines, some_holidays,
  parse_ical_content_fallback,
}
use madhatter.Holiday.Names.{IsWord, sanitize-join_words}
use madhatter.Holiday.Printed.{
  Entry, name_of, digits_of, date_of, holiday_of, lines_of, print, IsPrintable, inside, outside,
  with_date, scan_begin, scan_end_calendar, scan_begin_calendar, scan_summary, scan_date,
  digits-IsWord,
}

filled : (w : Text) (ws : List Text) → is_empty w ≡ false → is_empty (join_words (w ∷ ws)) ≡ false
filled w [] h = h
filled [] (v ∷ ws) h = cc
filled (c ∷ w) (v ∷ ws) h = refl

name-not_empty : (e : Entry) → All IsWord (e.word ∷ e.words) → is_empty (name_of e) ≡ false
name-not_empty e h = filled e.word e.words h.0.1

parse_digits :
    (e : Entry) → are_digits (digits_of e) ≡ true → parse_ical_date (digits_of e) ≡ some (date_of e)
unfolding parse_ical_date
parse_digits e h = ap (λ b. if b then some (date_of e) else none) h

dated_own :
    (now : Instant) (e : Entry)
    → IsPrintable now e
    → dated now (name_of e) (digits_of e) ≡ some (holiday_of e)
dated_own now e (words, digits, valid) =
    rw (parse_digits e digits, dated, valid)
      (ap (λ t. some (record { date = date_of e; name = t }))
        (sanitize-join_words (e.word ∷ e.words) words))

parse_own_event :
    (now : Instant) (e : Entry)
    → IsPrintable now e
    → parse_event_fallback now (with_date e) ≡ some (holiday_of e)
unfolding parse_event_fallback text_eq
parse_own_event now e h = rw (name-not_empty e h.0) (dated_own now e h)

scan_end :
    (now : Instant) (hs : List Holiday) (e : Entry)
    → IsPrintable now e
    → scan_line now (codes "END:VEVENT") (inside hs (with_date e))
      ≡ outside (hs ++ holiday_of e ∷ []) (with_date e)
unfolding scan_line is_calendar_boundary text_eq trim_space is_space
scan_end now hs e h = rw (parse_own_event now e h) refl

-- The four lines of an event, one after the other.
scan_event :
    (now : Instant) (hs : List Holiday) (ps : Properties) (e : Entry)
    → IsPrintable now e
    → scan_line now (codes "END:VEVENT") (
        scan_line now (codes "DTSTART;VALUE=DATE:" ++ digits_of e) (
          scan_line now
            (codes "SUMMARY:" ++ name_of e)
            (scan_line now (codes "BEGIN:VEVENT") (outside hs ps))))
      ≡ outside (hs ++ holiday_of e ∷ []) (with_date e)
scan_event now hs ps e h =
    let last = scan_line now (codes "END:VEVENT") in
    let date = scan_line now (codes "DTSTART;VALUE=DATE:" ++ digits_of e) in
    let summary = scan_line now (codes "SUMMARY:" ++ name_of e) in
    ap (λ s. last (date (summary s))) (scan_begin now hs ps false)
    ∙ ap (λ s. last (date s)) (scan_summary now hs e h.0)
    ∙ ap last (scan_date now hs e h.1)
    ∙ scan_end now hs e h

scan_entries :
    (now : Instant) (es : List Entry) (hs : List Holiday) (ps : Properties)
    → All (IsPrintable now) es
    → (scan_lines now (lines_of es) (outside hs ps)).holidays ≡ hs ++ map holiday_of es
unfolding scan_lines
scan_entries now [] hs ps h =
    ap (λ (s : Scan). s.holidays) (scan_end_calendar now hs ps) ∙ sym (append-nil hs)
scan_entries now (e ∷ es) hs ps h =
    ap (λ s. (scan_lines now (lines_of es) s).holidays) (scan_event now hs ps e h.0)
    ∙ scan_entries now es (hs ++ holiday_of e ∷ []) (with_date e) h.1
    ∙ append_assoc hs (holiday_of e ∷ []) (map holiday_of es)

solid-newline : (c : ℕ) → IsSolid c → (c == newline) ≡ false
unfolding is_space
solid-newline c h = ground arith

word-Lacks : (w : Text) → IsWord w → Lacks newline w
word-Lacks w h = All-imp _ _ w solid-newline h.0

join_words-Lacks :
    (w : Text) (ws : List Text) → All IsWord (w ∷ ws) → Lacks newline (join_words (w ∷ ws))
join_words-Lacks w [] h = word-Lacks w h.0
join_words-Lacks w (v ∷ ws) h =
    All-append (λ c. (c == newline) ≡ false) w (space ∷ join_words (v ∷ ws)) (word-Lacks w h.0)
      (refl, join_words-Lacks v ws h.1)

lines_of-Lacks :
    (now : Instant) (es : List Entry) → All (IsPrintable now) es → All (Lacks newline) (lines_of es)
lines_of-Lacks now [] h = (Lacks-any newline (codes "END:VCALENDAR") refl, tt)
lines_of-Lacks now (e ∷ es) h =
    let summary : Lacks newline (codes "SUMMARY:" ++ name_of e) =
      All-append (λ c. (c == newline) ≡ false) (codes "SUMMARY:") (name_of e)
        (Lacks-any newline (codes "SUMMARY:") refl) (join_words-Lacks e.word e.words h.0.0) in
    let date : Lacks newline (codes "DTSTART;VALUE=DATE:" ++ digits_of e) =
      All-append (λ c. (c == newline) ≡ false) (codes "DTSTART;VALUE=DATE:") (digits_of e)
        (Lacks-any newline (codes "DTSTART;VALUE=DATE:") refl)
        (word-Lacks (digits_of e) (digits-IsWord e h.0.1)) in
    (
      Lacks-any newline (codes "BEGIN:VEVENT") refl,
      (summary, (date, (Lacks-any newline (codes "END:VEVENT") refl, lines_of-Lacks now es h.1))),
    )

-- A calendar with one event for each holiday, whose names are of words and whose dates are in range,
-- is read back: the parser gives exactly these holidays, in order, and fails where there is none.
pub parse-print :
    (now : Instant) (es : List Entry)
    → All (IsPrintable now) es
    → parse_ical_content_fallback now (print es) ≡ some_holidays (map holiday_of es)
unfolding parse_ical_content_fallback scan_lines
parse-print now es h =
    ap (λ ls. some_holidays (scan_lines now ls no_scan).holidays)
      (split-join newline (codes "BEGIN:VCALENDAR") (lines_of es)
        (Lacks-any newline (codes "BEGIN:VCALENDAR") refl, lines_of-Lacks now es h))
    ∙ ap (λ s. some_holidays (scan_lines now (lines_of es) s).holidays) (scan_begin_calendar now)
    ∙ ap some_holidays (scan_entries now es [] [] h)
