-- ===== src/Holiday.antt =====
-- The holiday calendar (internal/holiday): the store in memory, the feeds that fill it and the
-- scheduler that fetches them. A date is a text, `YYYY-MM-DD`.
pub mod Dates
pub mod Feed
pub mod Fetch
pub mod Scheduler
pub mod Good
pub mod Names
pub mod Printed
pub mod RoundTrip
use madhatter.Base.{
  ℕ, Bool, true, false, Option, none, some, List, [], ◌∷◌, ◌++◌, Text, text_eq, text_leb, any, find,
  keep, update, length, if◌then◌else◌,
}
use madhatter.Base.Sort.{sort_by}

pub record Holiday : Type 0 where
  pub date : Text
  pub name : Text

abbrev pub is_date : Text → Holiday → Bool
is_date date h = text_eq h.date date

-- The map of `Store`: the holidays by their dates, in no order that counts.
abbrev pub Store : Type 0
Store = List Holiday

unfoldable pub put : Holiday → Store → Store
put h s = if any (is_date h.date) s then update (is_date h.date) (λ _. h) s else s ++ h ∷ []

unfoldable pub put_all : List Holiday → Store → Store
unfolding put
put_all [] s = s
put_all (h ∷ hs) s = put_all hs (put h s)

-- The new map, in place of the old one.
unfoldable pub update_holidays : List Holiday → Store
unfolding put_all
update_holidays hs = put_all hs []

unfoldable pub is_holiday : Text → Store → Bool
is_holiday date s = any (is_date date) s

unfoldable pub get_holiday : Text → Store → Option Holiday
get_holiday date s = find (is_date date) s

unfoldable pub get_count : Store → ℕ
get_count s = length s
