-- ===== src/Holiday/Fetch.antt =====
-- internal/holiday/ical.go: several feeds fetched one after the other.
use madhatter.Base.{
  ℕ, ◌*◌, leb, not, ◌==◌, Option, none, some, List, [], ◌∷◌, ◌++◌, Text, trim_space, is_empty,
  length, if◌then◌else◌,
}
use madhatter.Holiday.{Holiday}
use madhatter.Holiday.Dates.{Instant}
use madhatter.Holiday.Feed.{VEvent, parse_ical_content}

-- What comes of a request: an error of the request, the transfer or the close, or an answer.
pub data Response : Type 0 where
  failed : Response
  answered : ℕ → Text → Response

-- The network and the library's parser.
pub record Fetcher : Type 0 where
  pub get : Text → Response
  pub parse_calendar : Text → Option (List VEvent)

abbrev pub max_response_size : ℕ
max_response_size = 10 * 1_024 * 1_024

abbrev pub status_ok : ℕ
status_ok = 200

-- `none` is an error. A body that is cut off has the greatest size.
unfoldable pub fetch_and_parse : Fetcher → Instant → Text → Option (List Holiday)
unfolding parse_ical_content
fetch_and_parse f now url = elim (f.get url) [
  | failed ↦ none
  | answered status body ↦
      if leb max_response_size (length body)
      then none
      else if not (status == status_ok)
      then none
      else parse_ical_content f.parse_calendar now body
]

-- The holidays of the feeds that were read, and the URLs of those that were not.
unfoldable pub fetch_each : Fetcher → Instant → List Text → List Holiday × List Text
unfolding fetch_and_parse trim_space
fetch_each f now [] = ([], [])
fetch_each f now (raw ∷ urls) =
    let url = trim_space raw in
    let rest = fetch_each f now urls in
    if is_empty url then rest else elim (fetch_and_parse f now url) [
      | none ↦ (rest.0, url ∷ rest.1)
      | some hs ↦ (hs ++ rest.0, rest.1)
    ]

-- A part of the feeds failed, with the numbers of holidays and of errors; or no holiday was read and
-- this URL was the first to fail.
pub data FetchError : Type 0 where
  partial_success : ℕ → ℕ → FetchError
  first_error : Text → FetchError

unfoldable pub combine : List Holiday × List Text → List Holiday × Option FetchError
combine (hs, []) = (hs, none)
combine ([], e ∷ es) = ([], some (first_error e))
combine (h ∷ hs, e ∷ es) = (h ∷ hs, some (partial_success (length (h ∷ hs)) (length (e ∷ es))))

unfoldable pub fetch_multiple : Fetcher → Instant → List Text → List Holiday × Option FetchError
unfolding fetch_each combine
fetch_multiple f now urls = combine (fetch_each f now urls)
