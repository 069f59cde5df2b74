-- ===== src/Notify/Worker/Left.antt =====
-- How much a drain leaves to be done.
use madhatter.Base.{
  ℕ, suc, ◌+◌, ◌-◌, ◌≤◌, ◌<◌, ◌≡◌, ◌⊎◌, inl, inr, refl, sym, ap, subst, ◌∙◌, Bool, true, ◌==◌, leb,
  if◌then◌else◌, Bool-cases, Option, Option-cases, none, some, List, [], ◌∷◌, update, take, length,
  All, All-imp, Text, arith,
}
use madhatter.Notify.{OutboxEntry, Outbox}
use madhatter.Notify.Table.{
  is_pending, with_sent, with_failure, with_death, mark_outbox_sent, mark_outbox_failed,
  mark_outbox_dead, claim_due_outbox_entries,
}
use madhatter.Notify.Worker.{
  drain_batch_size, Worker, compute_next_attempt, message_of, unknown_channel, called, settle_call,
  dispatch, dispatch_all, drain,
}

-- The attempts that a row has before it: one at least while it is pending.
abbrev pub attempts_left_of : Worker → OutboxEntry → ℕ
attempts_left_of s r = if is_pending r.status then suc (s.max_attempts - 1 - r.attempts) else 0

abbrev pub attempts_left : Worker → List OutboxEntry → ℕ
attempts_left s [] = 0
attempts_left s (r ∷ rs) = attempts_left_of s r + attempts_left s rs

-- The row itself is one of these.
abbrev pub IsAmong : OutboxEntry → List OutboxEntry → Type 0
IsAmong r [] = ⊥
IsAmong r (q ∷ qs) = (q ≡ r) ⊎ IsAmong r qs

pub with_failure-le :
    (s : Worker) (e : Text) (t : ℕ) (r : OutboxEntry)
    → attempts_left_of s (with_failure e t r) ≤ attempts_left_of s r
with_failure-le s e t r = ground arith

with_sent-le :
    (s : Worker) (t : ℕ) (r : OutboxEntry)
    → attempts_left_of s (with_sent t r) ≤ attempts_left_of s r
with_sent-le s t r = ground arith

with_death-le :
    (s : Worker) (e : Text) (t : ℕ) (r : OutboxEntry)
    → attempts_left_of s (with_death e t r) ≤ attempts_left_of s r
with_death-le s e t r = ground arith

update-le :
    (s : Worker) (p : OutboxEntry → Bool) (f : OutboxEntry → OutboxEntry) (rs : List OutboxEntry)
    → ((r : OutboxEntry) → attempts_left_of s (f r) ≤ attempts_left_of s r)
    → attempts_left s (update p f rs) ≤ attempts_left s rs
update-le s p f [] h = omega arith
update-le s p f (r ∷ rs) h = ground (arith, h r, update-le s p f rs h)

-- An update that changes a row that is there for less.
update-lt :
    (s : Worker) (p : OutboxEntry → Bool) (f : OutboxEntry → OutboxEntry) (r : OutboxEntry)
    (rs : List OutboxEntry)
    → ((q : OutboxEntry) → attempts_left_of s (f q) ≤ attempts_left_of s q)
    → p r ≡ true
    → attempts_left_of s (f r) < attempts_left_of s r
    → IsAmong r rs
    → attempts_left s (update p f rs) < attempts_left s rs
update-lt s p f r [] h hit less there = elim there [ ]
update-lt s p f r (q ∷ qs) h hit less (inl same) =
    let rest = update-le s p f qs h in
    let tested : p q ≡ true = ap p same ∙ hit in
    let fewer : attempts_left_of s (f q) < attempts_left_of s q =
      subst (λ x. attempts_left_of s (f x) < attempts_left_of s x) (sym same) less in
    rw tested (omega (arith, rest, fewer))
update-lt s p f r (q ∷ qs) h hit less (inr later) =
    ground (arith, h q, update-lt s p f r qs h hit less later)

settle_call-lt :
    (s : Worker) (now : ℕ) (r : OutboxEntry) (a : Option Text) (o : Outbox)
    → is_pending r.status ≡ true
    → IsAmong r o.rows
    → attempts_left s (settle_call s now r a o).rows < attempts_left s o.rows
unfolding settle_call mark_outbox_sent mark_outbox_failed mark_outbox_dead
settle_call-lt s now r none o waits there =
    update-lt s (λ (q : OutboxEntry). q.id == r.id) (with_sent now) r o.rows (with_sent-le s now)
      (ground arith) (ground arith) there
settle_call-lt s now r (some e) o waits there =
    elim (Bool-cases (leb s.max_attempts (suc r.attempts))) [
      | inl last ↦ rw last (
          update-lt s (λ (q : OutboxEntry). q.id == r.id) (with_death e now) r o.rows
            (with_death-le s e now) (ground arith) (ground arith) there)
      | inr more ↦
          let t = compute_next_attempt s now (suc r.attempts) in
          rw more (
            update-lt s (λ (q : OutboxEntry). q.id == r.id) (with_failure e t) r o.rows
              (with_failure-le s e t) (ground arith) (ground arith) there)
    ]

settle_call-le :
    (s : Worker) (now : ℕ) (r : OutboxEntry) (a : Option Text) (o : Outbox)
    → attempts_left s (settle_call s now r a o).rows ≤ attempts_left s o.rows
unfolding settle_call mark_outbox_sent mark_outbox_failed mark_outbox_dead
settle_call-le s now r none o =
    update-le s (λ (q : OutboxEntry). q.id == r.id) (with_sent now) o.rows (with_sent-le s now)
settle_call-le s now r (some e) o = elim (Bool-cases (leb s.max_attempts (suc r.attempts))) [
  | inl last ↦ rw last (
      update-le s (λ (q : OutboxEntry). q.id == r.id) (with_death e now) o.rows
        (with_death-le s e now))
  | inr more ↦
      let t = compute_next_attempt s now (suc r.attempts) in
      rw more (
        update-le s (λ (q : OutboxEntry). q.id == r.id) (with_failure e t) o.rows
          (with_failure-le s e t))
]

pub dispatch-le :
    (s : Worker) (now : ℕ) (r : OutboxEntry) (o : Outbox)
    → attempts_left s (dispatch s now r o).rows ≤ attempts_left s o.rows
unfolding dispatch mark_outbox_dead
dispatch-le s now r o = elim (Option-cases (s.resolve r.channel)) [
  | inl unknown ↦
      rw (unknown, dispatch)
        (update-le s (λ (q : OutboxEntry). q.id == r.id)
          (with_death (unknown_channel r.channel) now) o.rows
          (with_death-le s (unknown_channel r.channel) now))
  | inr (send, known) ↦
      let a = send (length o.calls) (message_of r) in
      rw (known, dispatch) (settle_call-le s now r a (called (message_of r) a o))
]

pub dispatch-lt :
    (s : Worker) (now : ℕ) (r : OutboxEntry) (o : Outbox)
    → is_pending r.status ≡ true
    → IsAmong r o.rows
    → attempts_left s (dispatch s now r o).rows < attempts_left s o.rows
unfolding dispatch mark_outbox_dead
dispatch-lt s now r o waits there = elim (Option-cases (s.resolve r.channel)) [
  | inl unknown ↦
      let e = unknown_channel r.channel in
      rw (unknown, dispatch)
        (update-lt s (λ (q : OutboxEntry). q.id == r.id) (with_death e now) r o.rows
          (with_death-le s e now) (ground arith) (ground arith) there)
  | inr (send, known) ↦
      let a = send (length o.calls) (message_of r) in
      rw (known, dispatch) (settle_call-lt s now r a (called (message_of r) a o) waits there)
]

pub dispatch_all-le :
    (s : Worker) (now : ℕ) (rs : List OutboxEntry) (o : Outbox)
    → attempts_left s (dispatch_all s now rs o).rows ≤ attempts_left s o.rows
unfolding dispatch_all
dispatch_all-le s now [] o = omega arith
dispatch_all-le s now (r ∷ rs) o =
    omega (arith, dispatch-le s now r o, dispatch_all-le s now rs (dispatch s now r o))

pub drain-le :
    (s : Worker) (now budget : ℕ) (o : Outbox)
    → attempts_left s (drain s now budget o).rows ≤ attempts_left s o.rows
unfolding drain
drain-le s now budget o =
    dispatch_all-le s now (take budget (claim_due_outbox_entries s.by_next now drain_batch_size o))
      o

pub IsAmong-self : (rs : List OutboxEntry) → All (λ r. IsAmong r rs) rs
IsAmong-self [] = tt
IsAmong-self (r ∷ rs) = (inl refl, All-imp _ _ rs (λ q h. inr h) (IsAmong-self rs))
