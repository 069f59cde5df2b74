-- ===== src/Holiday/Good.antt =====
-- Whatever a feed holds, what is taken from it is a holiday with a date in range and a clean name.
use madhatter.Base.{
  ◌≡◌, subst, true, false, ◌||◌, not, Bool-cases, Option, Option-cases, none, some, List, [], ◌∷◌,
  ◌++◌, Text, All, All-append, is_empty, text_eq, trim_space, codes, leb, ◌==◌, length,
  if◌then◌else◌, inl, inr,
}
use madhatter.Base.Split.{split}
use madhatter.Holiday.{Holiday}
use madhatter.Holiday.Dates.{Instant, validate_holiday_date}
use madhatter.Holiday.Feed.{
  Properties, Scan, VEvent, no_scan, newline, value_of, or_empty, dated, parse_ical_date,
  parse_event_fallback, is_calendar_boundary, scan_line, scan_lines, some_holidays,
  parse_ical_content_fallback, extract_holiday_from_event, extract_all, parse_ical_content,
  sanitize_holiday_name,
}
use madhatter.Holiday.Fetch.{
  Fetcher, Response, failed, answered, max_response_size, status_ok, fetch_and_parse, fetch_each,
}
use madhatter.Holiday.Names.{sanitize-sanitize}

-- The date is one, in range, and the name has no space too many.
abbrev pub IsGood : Instant → Holiday → Type 0
IsGood now h = (validate_holiday_date now h.date ≡ true) × (sanitize_holiday_name h.name ≡ h.name)

-- What there is, if there is anything, is good.
abbrev pub AllGood : Instant → Option (List Holiday) → Type 0
AllGood now none = Unit
AllGood now (some hs) = All (IsGood now) hs

abbrev GoodIfAny : Instant → Option Holiday → Type 0
GoodIfAny now none = Unit
GoodIfAny now (some h) = IsGood now h

dated-IsGood : (now : Instant) (name date : Text) → GoodIfAny now (dated now name date)
dated-IsGood now name date = elim (Option-cases (parse_ical_date date)) [
  | inl bad ↦ rw (bad, dated) tt
  | inr (d, parsed) ↦ elim (Bool-cases (validate_holiday_date now d)) [
    | inl valid ↦ rw (parsed, dated, valid) (valid, sanitize-sanitize name)
    | inr out ↦ rw (parsed, dated, out) tt
  ]
]

parse_event_fallback-IsGood :
    (now : Instant) (event : Properties) → GoodIfAny now (parse_event_fallback now event)
unfolding parse_event_fallback
parse_event_fallback-IsGood now event =
    let summary = value_of (codes "SUMMARY") event in
    let start = value_of (codes "DTSTART") event in
    let dt_start : Text =
      if is_empty start then value_of (codes "DTSTART;VALUE=DATE") event else start in
    elim (is_empty summary || is_empty dt_start)
      as (λ b. GoodIfAny now (if b then none else dated now summary dt_start)) [
        | true ↦ tt
        | false ↦ dated-IsGood now summary dt_start
      ]

extract-IsGood : (now : Instant) (e : VEvent) → GoodIfAny now (extract_holiday_from_event now e)
unfolding extract_holiday_from_event
extract-IsGood now e =
    elim (is_empty (or_empty e.summary) || is_empty (or_empty e.dt_start))
      as (λ b.
        GoodIfAny now (if b then none else dated now (or_empty e.summary) (or_empty e.dt_start))) [
          | true ↦ tt
          | false ↦ dated-IsGood now (or_empty e.summary) (or_empty e.dt_start)
        ]

added-IsGood :
    (now : Instant) (o : Option Holiday) (hs : List Holiday)
    → GoodIfAny now o
    → All (IsGood now) hs
    → All (IsGood now) (elim o [ none ↦ hs | some h ↦ hs ++ h ∷ [] ])
added-IsGood now none hs g h = h
added-IsGood now (some x) hs g h = All-append (IsGood now) hs (x ∷ []) h (g, tt)

scan_line-IsGood :
    (now : Instant) (raw : Text) (s : Scan)
    → All (IsGood now) s.holidays
    → All (IsGood now) (scan_line now raw s).holidays
unfolding scan_line
scan_line-IsGood now raw s h =
    let line = trim_space raw in
    elim (Bool-cases (is_empty line || is_calendar_boundary line)) [
      | inl skipped ↦ rw skipped h
      | inr kept ↦ elim (Bool-cases (text_eq line (codes "BEGIN:VEVENT"))) [
        | inl begins ↦ rw (kept, begins) h
        | inr no_begin ↦ elim (Bool-cases (text_eq line (codes "END:VEVENT"))) [
          | inl ends ↦
              rw (kept, no_begin, ends)
                (added-IsGood now (parse_event_fallback now s.current_event) s.holidays
                  (parse_event_fallback-IsGood now s.current_event) h)
          | inr no_end ↦ elim (Bool-cases s.in_event) [
            | inl inside ↦ rw (kept, no_begin, no_end, inside) h
            | inr outside ↦ rw (kept, no_begin, no_end, outside) h
          ]
        ]
      ]
    ]

scan_lines-IsGood :
    (now : Instant) (ls : List Text) (s : Scan)
    → All (IsGood now) s.holidays
    → All (IsGood now) (scan_lines now ls s).holidays
unfolding scan_lines
scan_lines-IsGood now [] s h = h
scan_lines-IsGood now (l ∷ ls) s h =
    scan_lines-IsGood now ls (scan_line now l s) (scan_line-IsGood now l s h)

some_holidays-AllGood :
    (now : Instant) (hs : List Holiday) → All (IsGood now) hs → AllGood now (some_holidays hs)
some_holidays-AllGood now [] h = tt
some_holidays-AllGood now (x ∷ hs) h = h

fallback-AllGood :
    (now : Instant) (content : Text) → AllGood now (parse_ical_content_fallback now content)
unfolding parse_ical_content_fallback
fallback-AllGood now content =
    some_holidays-AllGood now (scan_lines now (split newline content) no_scan).holidays
      (scan_lines-IsGood now (split newline content) no_scan tt)

listed :
    (now : Instant) (o : Option Holiday) (hs : List Holiday)
    → GoodIfAny now o
    → All (IsGood now) hs
    → All (IsGood now) (elim o [ none ↦ hs | some h ↦ h ∷ hs ])
listed now none hs g h = h
listed now (some x) hs g h = (g, h)

extract_all-IsGood : (now : Instant) (es : List VEvent) → All (IsGood now) (extract_all now es)
unfolding extract_all
extract_all-IsGood now [] = tt
extract_all-IsGood now (e ∷ es) =
    listed now (extract_holiday_from_event now e) (extract_all now es) (extract-IsGood now e)
      (extract_all-IsGood now es)

or_fallback :
    (now : Instant) (hs : List Holiday) (content : Text)
    → All (IsGood now) hs
    → AllGood now
        (elim hs [ [] ↦ parse_ical_content_fallback now content | x ∷ xs ↦ some (x ∷ xs) ])
or_fallback now [] content h = fallback-AllGood now content
or_fallback now (x ∷ xs) content h = h

pub parse_ical_content-AllGood :
    (p : Text → Option (List VEvent)) (now : Instant) (raw : Text)
    → AllGood now (parse_ical_content p now raw)
unfolding parse_ical_content
parse_ical_content-AllGood p now raw =
    let content = trim_space raw in
    elim (Bool-cases (is_empty content)) [
      | inl blank ↦ rw blank tt
      | inr given ↦ elim (Option-cases (p content)) [
        | inl refused ↦ rw (given, refused, parse_ical_content) (fallback-AllGood now content)
        | inr (es, parsed) ↦
            rw (given, parsed, parse_ical_content)
              (or_fallback now (extract_all now es) content (extract_all-IsGood now es))
      ]
    ]

answer_good :
    (f : Fetcher) (now : Instant) (r : Response)
    → AllGood now (elim r [
      | failed ↦ none
      | answered status body ↦
          if leb max_response_size (length body)
          then none
          else if not (status == status_ok)
          then none
          else parse_ical_content f.parse_calendar now body
    ])
answer_good f now failed = tt
answer_good f now (answered status body) = elim (Bool-cases (leb max_response_size (length body))) [
  | inl large ↦ rw large tt
  | inr fits ↦ elim (Bool-cases (not (status == status_ok))) [
    | inl refused ↦ rw (fits, refused) tt
    | inr taken ↦ rw (fits, taken) (parse_ical_content-AllGood f.parse_calendar now body)
  ]
]

fetch_and_parse-AllGood :
    (f : Fetcher) (now : Instant) (url : Text) → AllGood now (fetch_and_parse f now url)
unfolding fetch_and_parse
fetch_and_parse-AllGood f now url = answer_good f now (f.get url)

pub fetch_each-IsGood :
    (f : Fetcher) (now : Instant) (urls : List Text) → All (IsGood now) (fetch_each f now urls).0
unfolding fetch_each
fetch_each-IsGood f now [] = tt
fetch_each-IsGood f now (raw ∷ urls) =
    let rest = fetch_each-IsGood f now urls in
    elim (Bool-cases (is_empty (trim_space raw))) [
      | inl blank ↦ rw blank rest
      | inr given ↦ elim (Option-cases (fetch_and_parse f now (trim_space raw))) [
        | inl bad ↦ rw (given, bad, fetch_each) rest
        | inr (hs, read) ↦
            let good : All (IsGood now) hs =
              subst (AllGood now) read (fetch_and_parse-AllGood f now (trim_space raw)) in
            rw (given, read, fetch_each)
              (All-append (IsGood now) hs (fetch_each f now urls).0 good rest)
      ]
    ]
