-- ===== src/Holiday/Feed.antt =====
-- internal/holiday/ical.go: the holidays that a text in iCalendar format holds. `now` is the clock.
use madhatter.Base.{
  ℕ, Bool, true, false, ◌&&◌, ◌||◌, ◌==◌, Option, none, some, List, [], ◌∷◌, ◌++◌, Text, codes,
  text_eq, trim_space, is_space, is_empty, if◌then◌else◌,
}
use madhatter.Base.Split.{split}
use madhatter.Holiday.{Holiday}
use madhatter.Holiday.Dates.{Instant, dash, are_digits, validate_holiday_date}

abbrev pub colon : ℕ
colon = 58

abbrev pub newline : ℕ
newline = 10

-- `strings.HasPrefix`.
abbrev pub has_prefix : Text → Text → Bool
has_prefix [] s = true
has_prefix (p ∷ ps) [] = false
has_prefix (p ∷ ps) (c ∷ s) = (p == c) && has_prefix ps s

unfoldable pub is_calendar_boundary : Text → Bool
is_calendar_boundary line =
    has_prefix (codes "BEGIN:VCALENDAR") line
    || (has_prefix (codes "VERSION:") line || has_prefix (codes "PRODID:") line)

-- `strings.Fields`: the runs of bytes that are no spaces. `word` is the run so far, or is empty.
abbrev pub end_word : Text → List Text → List Text
end_word [] ws = ws
end_word (c ∷ w) ws = (c ∷ w) ∷ ws

unfoldable pub fields_from : Text → Text → List Text
unfolding is_space
fields_from word [] = end_word word []
fields_from word (c ∷ s) = elim (is_space c) [
  | true ↦ end_word word (fields_from [] s)
  | false ↦ fields_from (word ++ c ∷ []) s
]

abbrev pub space : ℕ
space = 32

abbrev pub join_words : List Text → Text
join_words [] = []
join_words (w ∷ []) = w
join_words (w ∷ v ∷ ws) = w ++ (space ∷ join_words (v ∷ ws))

unfoldable pub sanitize_holiday_name : Text → Text
unfolding fields_from trim_space
sanitize_holiday_name name = join_words (fields_from [] (trim_space name))

abbrev pub with_dashes : Text → Option Text
with_dashes (a ∷ b ∷ c ∷ d ∷ e ∷ f ∷ g ∷ h ∷ _) =
    if are_digits (a ∷ b ∷ c ∷ d ∷ e ∷ f ∷ g ∷ h ∷ [])
    then some (a ∷ b ∷ c ∷ d ∷ dash ∷ e ∷ f ∷ dash ∷ g ∷ h ∷ [])
    else none
with_dashes _ = none

abbrev pub is_dashed : Text → Bool
is_dashed (a ∷ b ∷ c ∷ d ∷ x ∷ e ∷ f ∷ y ∷ g ∷ h ∷ []) = x == dash && y == dash
is_dashed _ = false

-- `none` is an error.
unfoldable pub parse_ical_date : Text → Option Text
parse_ical_date s = if is_dashed s then some s else with_dashes s

-- The event is a map from keys to values: the latest value of a key stands first.
abbrev pub Properties : Type 0
Properties = List (Text × Text)

abbrev pub value_of : Text → Properties → Text
value_of key [] = []
value_of key ((k, v) ∷ ps) = if text_eq k key then v else value_of key ps

-- At the first separator: what stands before it and what stands behind it, if there is one.
unfoldable pub cut_at : ℕ → Text → Option (Text × Text)
cut_at sep [] = none
cut_at sep (c ∷ s) =
    let rest = cut_at sep s in
    if c == sep then some ([], s) else elim rest [ none ↦ none | some (a, b) ↦ some (c ∷ a, b) ]

unfoldable pub parse_event_line : Text → Properties → Properties
unfolding cut_at trim_space
parse_event_line line event = elim (cut_at colon line) [
  | none ↦ event
  | some (key, value) ↦ (trim_space key, trim_space value) ∷ event
]

-- The event is skipped where there is no name, no date or none in range. An empty text is no value.
abbrev pub dated : Instant → Text → Text → Option Holiday
dated now name date_text = elim (parse_ical_date date_text) [
  | none ↦ none
  | some date ↦
      if validate_holiday_date now date
      then some (record { date = date; name = sanitize_holiday_name name })
      else none
]

unfoldable pub parse_event_fallback : Instant → Properties → Option Holiday
unfolding parse_ical_date validate_holiday_date sanitize_holiday_name
parse_event_fallback now event =
    let summary = value_of (codes "SUMMARY") event in
    let start = value_of (codes "DTSTART") event in
    let dt_start = if is_empty start then value_of (codes "DTSTART;VALUE=DATE") event else start in
    if is_empty summary || is_empty dt_start then none else dated now summary dt_start

-- The variables of the loop over the lines. No event so far is an empty one.
pub record Scan : Type 0 where
  pub holidays : List Holiday
  pub current_event : Properties
  pub in_event : Bool

unfoldable pub scan_line : Instant → Text → Scan → Scan
unfolding is_calendar_boundary parse_event_fallback parse_event_line trim_space
scan_line now raw s =
    let line = trim_space raw in
    if is_empty line || is_calendar_boundary line
    then s
    else if text_eq line (codes "BEGIN:VEVENT")
    then record s { in_event = true; current_event = [] }
    else if text_eq line (codes "END:VEVENT")
    then record s {
      in_event = false;
      holidays = elim (parse_event_fallback now s.current_event) [
        | none ↦ s.holidays
        | some h ↦ s.holidays ++ h ∷ []
      ];
    }
    else if s.in_event
    then record s { current_event = parse_event_line line s.current_event }
    else s

unfoldable pub scan_lines : Instant → List Text → Scan → Scan
unfolding scan_line
scan_lines now [] s = s
scan_lines now (l ∷ ls) s = scan_lines now ls (scan_line now l s)

abbrev pub no_scan : Scan
no_scan = record { holidays = []; current_event = []; in_event = false }

-- `none` is an error: there is no holiday.
abbrev pub some_holidays : List Holiday → Option (List Holiday)
some_holidays [] = none
some_holidays (h ∷ hs) = some (h ∷ hs)

unfoldable pub parse_ical_content_fallback : Instant → Text → Option (List Holiday)
unfolding scan_lines split
parse_ical_content_fallback now content =
    some_holidays (scan_lines now (split newline content) no_scan).holidays

-- An event of the library: the values of SUMMARY and DTSTART, where it has these properties.
pub record VEvent : Type 0 where
  pub summary : Option Text
  pub dt_start : Option Text

abbrev pub or_empty : Option Text → Text
or_empty none = []
or_empty (some t) = t

unfoldable pub extract_holiday_from_event : Instant → VEvent → Option Holiday
unfolding parse_ical_date validate_holiday_date sanitize_holiday_name
extract_holiday_from_event now e =
    if is_empty (or_empty e.summary) || is_empty (or_empty e.dt_start)
    then none
    else dated now (or_empty e.summary) (or_empty e.dt_start)

unfoldable pub extract_all : Instant → List VEvent → List Holiday
unfolding extract_holiday_from_event
extract_all now [] = []
extract_all now (e ∷ es) = elim (extract_holiday_from_event now e) [
  | none ↦ extract_all now es
  | some h ↦ h ∷ extract_all now es
]

-- `parse_calendar` is the library's parser, `ics.ParseCalendar`: the events, or an error.
unfoldable pub parse_ical_content :
    (Text → Option (List VEvent)) → Instant → Text → Option (List Holiday)
unfolding parse_ical_content_fallback extract_all trim_space
parse_ical_content parse_calendar now raw =
    let content = trim_space raw in
    if is_empty content then none else elim (parse_calendar content) [
      | none ↦ parse_ical_content_fallback now content
      | some events ↦ elim (extract_all now events) [
        | [] ↦ parse_ical_content_fallback now content
        | h ∷ hs ↦ some (h ∷ hs)
      ]
    ]
