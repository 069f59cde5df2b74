-- ===== src/Lib.antt =====
-- A verification library for the HAT rota: a schedule says for each working day which member of a team
-- wears the hat (the original assignment) and, where that member is on leave, who covers. The engine
-- (internal/rota) walks a round robin over the active members, the store (internal/database) keeps
-- members, leaves, assignments, rotation states and swaps in SQLite, and members swap their days.
--
-- Files and what they model:
--   Base            helpers: native lists and searches, texts as code points, integers, residues, a stable sort
--   Calendar        internal/rota/engine.go: shouldSkipDate, workingDaysBetween, the HolidayChecker
--   Store           the tables, as lists of rows in the order of insertion, and the state of a call
--     Exec          Go's `(value, error)` with the state that a call leaves; Frames: what chains of calls keep
--     Members       internal/database/db.go and models.go: active members, recurring days at home
--     Leaves        internal/database/leave.go
--     Assignments   internal/database/rota.go and its constraints; Create: the insertion on every branch
--     Rotation      internal/database/rota.go: the two rotation states
--   Rota            internal/rota
--     Rotation      engine.go: the three rotation indices; Laws: bounds, steps, fairness; Stored: through the state
--     Cover         engine.go: findCover and the searches beside it; Laws: what it finds
--     Engine        engine.go: the Engine and its writes of rotation states; Grows: the rows that calls add
--     Schedule      engine.go: GenerateSchedule and processDate; Original, Complete, Dates: what they leave
--     LeaveCovers   engine.go: AssignCoversForLeave; Frame, Shown, Untouched: what it leaves alone; Given, Chosen: who covers
--     Maintenance   maintenance.go: completion, reconciliation, regeneration; Ranges, Regenerate: what is left
--     Reassign      reassign.go: ReassignCovers; Run: what a run counts and keeps
--   Swap            internal/database/hat_swaps.go: creation, status, expiry; Created: the creation on every branch
--     Execute       ExecuteSwap; Transfer, Effect, Settled: its effect, and the state after it
--     Reconcile     ReconcileAcceptedSwap and the bulk run; Clean, Twice, Dry: runs with nothing to write
--     Exclusive     pending swaps and the assignments they share; Calls: over sequences of calls
--   Wfh             working from home: internal/database/models_wfh.go, internal/wfh/service.go: the rows and the service
--     Period        service.go: ComputePeriodBounds; Tiling: the periods and the calendar
--     Requests      internal/database/wfh_crud.go, wfh_recurring.go, wfh_admin.go: queries; Create and Withdraw: the writes;
--                   Insert: what an insertion leaves; Unique, Kept, Calls: UNIQUE(member_id, date) over sequences of calls
--     Swaps         internal/database/wfh_assignment_swaps.go
--     Quota         service.go: quota, horizon, purge; Purge, Agreement: its two views side by side
--     Presence      service.go: who is away, on leave or on site on a date; Counting: sets of ids
--     Settlement    service.go: settleDate, prioritisePending; Steps, Run, Floor, Fair, Decided: what is decided, and in which order
--     CoPresence    internal/database/wfh_co_presence.go and service.go: who met on site; Rows: what the writers leave alone;
--                   Counts, Recorded: what the writer of a date adds
--     Picker        internal/wfh/service_picker.go; Picks, Run, Cap, Quiet: whom it sends home, and how many
--     Recurring     internal/wfh/recurring_materializer.go; Team, Preserves: what it leaves alone
--     Actions       service.go: ReportToday, SignalOnSite, AdminReassignWFH, MarkWFH; Reassigned: what a reassignment leaves
--     Tick          service.go: SettlePendingRequests; Left, Dated, Settles: what is pending afterwards
--   Notify          internal/notify: the rows of the outbox, and the messages
--     Table         internal/database/notification_outbox.go and its queries
--     Worker        outbox_worker.go; Key: the primary key; Left, Claimed, Settles, Untouched: what runs use up, end and leave alone
--     Events        events.go, and the data of the templates of renderer.go
--     Recipients    internal/database/notification_preferences.go, and dbRecipientResolver of internal/api/server.go
--     Enqueue       channel_notifier.go and renderer.go; Written, Exact, Reached: the rows of an event, and for whom
--     Token         token.go; Decimal: strconv; Issued, Signed: a token that is issued, and one that is accepted
--   Holiday         internal/holiday/store.go: the map of the store
--     Dates         store.go and ical.go: dates as texts, their range, the filters
--     Feed          ical.go: the parsers; Good: what they give; Names, Printed, RoundTrip: a calendar printed and read
--     Fetch         ical.go: FetchAndParse, FetchMultiple
--     Scheduler     scheduler.go, and UpdateURLs of service.go; Fetched: the store after a fetch
--   Limiter         internal/ratelimit/ratelimit.go, and internal/api/rate_limit.go
--     Lookup        the buckets by key; Paid, Uniform: what one call does to a bucket, and the numbers of a limiter
--     Window, Retry, Alone   how many requests pass, when a refused client comes back, and clients side by side
--   Examples        runs at concrete inputs: Swaps, Schedules, Covers, Rotations, Home, Notices, Feeds, Limits
--
-- Names are those of the source in snake case: `processLeaveDate` is `process_leave_date`. A function
-- that may fail returns an `Outcome`, with the state that is left; a transaction that fails leaves the
-- state it began with. A date is the number of days since 1 January of year 1, an id is a number and the
-- empty id is 0, `none` stands for an empty text or for `sql.ErrNoRows` where a comment says so. The new
-- ids of `uuid.New`, and the row that a query without an order reads, are functions that the tables carry, of which nothing is assumed; today's date and
-- the holidays are arguments. The loops over dates recurse on the number of dates that are left, and
-- those over candidates on the size of the team, so nothing of these runs on fuel. In Wfh a state holds the tables
-- of working from home beside those of Store, a service holds the configuration and the clock, which one
-- call reads as constant and to the second, and a Go set of ids is a list of which membership and the
-- number of different ids are read. In Notify an instant is in nanoseconds, the channels, the templates, the
-- parser of addresses and the cryptography are functions that are given, and the digits of a number are
-- counted by fuel, one more than the number, which is more than it has digits. In Holiday a date is a text
-- as in the source, the clock is in UTC, and the network and the library that reads well-formed calendars
-- are functions that are given; the holidays that the other parts ask for are still any function. In Limiter
-- a rate is a number of tokens in a number of seconds, and the tokens are counted exactly, in the parts of a
-- token that come with a nanosecond, where the source has floats; the clock of a bucket does not go back.
--
-- Not modelled: upper-case letters beyond ASCII; failures of the driver, and texts that are no date; configurations of Wfh with negative
-- numbers, a percentage with a fraction or a period of 0 days, at which the program stops; log lines; the columns that only pages show
-- (names joined to rows, times of creation and change, e-mail, birthdays); the order of Go maps in the
-- cover events; sign-in, pages and calendar feeds (internal/auth, internal/web, internal/calendar, and
-- internal/api but for its resolver of recipients and its rate limit), the execution of templates, the notifier that calls
-- its channels directly, goroutines (a drain and a fetch are each one step), the rounding
-- of the floats of the rate limiter, and the commands (cmd).
pub mod Base
pub mod Calendar
pub mod Store
pub mod Rota
pub mod Swap
pub mod Wfh
pub mod Notify
pub mod Holiday
pub mod Limiter
pub mod Examples
