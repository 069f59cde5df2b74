-- ===== src/Notify/Worker/Untouched.antt =====
-- What a run leaves as it was, and how often it calls the channels.
use madhatter.Base.{
  ℕ, suc, ◌+◌, ◌≤◌, ◌≡◌, refl, sym, ap, ◌∙◌, subst, true, false, leb, Bool-cases, ||-false, Option,
  Option-cases, none, some, List, [], ◌∷◌, any, update, take, length, All, All-imp, All-take,
  &&-true, Text, inl, inr, arith,
}
use madhatter.Notify.{OutboxEntry, Outbox}
use madhatter.Notify.Table.{
  is_pending, with_sent, with_failure, with_death, mark_outbox_sent, mark_outbox_failed,
  mark_outbox_dead, claim_due_outbox_entries,
}
use madhatter.Notify.Worker.{
  drain_batch_size, Worker, compute_next_attempt, message_of, unknown_channel, called, settle_call,
  dispatch, dispatch_all, drain, run,
}
use madhatter.Notify.Worker.Left.{attempts_left, IsAmong, dispatch-lt}
use madhatter.Notify.Worker.Claimed.{IsClaimed, claim-IsClaimed}
use madhatter.Notify.Worker.Key.{has_id, IsKeyed, claim-IsKeyed, take-IsKeyed, same_key}

-- What a row may become in a run: nothing that it says changes, and nothing at all once it is sent
-- or dead.
abbrev pub Keeps : OutboxEntry → OutboxEntry → Type 0
Keeps r q =
    (q.id ≡ r.id)
    × (message_of q ≡ message_of r)
    × (q.channel ≡ r.channel)
    × (is_pending r.status ≡ false → q ≡ r)

-- The same rows in the same places, each with what it may become.
abbrev pub Each :
    (OutboxEntry → OutboxEntry → Type 0) → List OutboxEntry → List OutboxEntry → Type 0
Each R [] [] = Unit
Each R [] (q ∷ qs) = ⊥
Each R (r ∷ rs) [] = ⊥
Each R (r ∷ rs) (q ∷ qs) = R r q × Each R rs qs

Each-refl : (rs : List OutboxEntry) → Each Keeps rs rs
Each-refl [] = tt
Each-refl (r ∷ rs) = ((refl, refl, refl, (λ _. refl)), Each-refl rs)

Keeps-trans : (a b c : OutboxEntry) → Keeps a b → Keeps b c → Keeps a c
Keeps-trans a b c (i, m, ch, same) (i', m', ch', same') = (
  i' ∙ i,
  m' ∙ m,
  ch' ∙ ch,
  (λ e. same' (ap (λ (r : OutboxEntry). is_pending r.status) (same e) ∙ e) ∙ same e),
)

Each-trans : (xs bs cs : List OutboxEntry) → Each Keeps xs bs → Each Keeps bs cs → Each Keeps xs cs
Each-trans [] [] [] h k = tt
Each-trans [] [] (c ∷ cs) h k = elim k [ ]
Each-trans [] (b ∷ bs) cs h k = elim h [ ]
Each-trans (a ∷ xs) [] cs h k = elim h [ ]
Each-trans (a ∷ xs) (b ∷ bs) [] h k = elim k [ ]
Each-trans (a ∷ xs) (b ∷ bs) (c ∷ cs) h k = (Keeps-trans a b c h.0 k.0, Each-trans xs bs cs h.1 k.1)

Keeps-any :
    (id : ℕ) (rs qs : List OutboxEntry) → Each Keeps rs qs → any (has_id id) qs ≡ any (has_id id) rs
Keeps-any id [] [] h = refl
Keeps-any id [] (q ∷ qs) h = elim h [ ]
Keeps-any id (r ∷ rs) [] h = elim h [ ]
Keeps-any id (r ∷ rs) (q ∷ qs) h = let e = h.0.0 in ground (arith, e, Keeps-any id rs qs h.1)

Each-IsKeyed : (rs qs : List OutboxEntry) → Each Keeps rs qs → IsKeyed rs → IsKeyed qs
Each-IsKeyed [] [] h u = tt
Each-IsKeyed [] (q ∷ qs) h u = elim h [ ]
Each-IsKeyed (r ∷ rs) [] h u = elim h [ ]
Each-IsKeyed (r ∷ rs) (q ∷ qs) h u =
    (ap (λ i. any (has_id i) qs) h.0.0 ∙ Keeps-any r.id rs qs h.1 ∙ u.0, Each-IsKeyed rs qs h.1 u.1)

update-Keeps :
    (r : OutboxEntry) (f : OutboxEntry → OutboxEntry) (rs : List OutboxEntry)
    → Keeps r (f r)
    → All (λ q. has_id r.id q ≡ true → q ≡ r) rs
    → Each Keeps rs (update (has_id r.id) f rs)
update-Keeps r f [] k own = tt
update-Keeps r f (q ∷ qs) k own = elim (Bool-cases (has_id r.id q)) [
  | inl hit ↦ rw hit (subst (λ x. Keeps x (f x)) (sym (own.0 hit)) k, update-Keeps r f qs k own.1)
  | inr other ↦ rw other ((refl, refl, refl, (λ _. refl)), update-Keeps r f qs k own.1)
]

-- What a dispatch does: it changes the row, and calls a channel once at most.
abbrev Changes : OutboxEntry → Outbox → Outbox → Type 0
Changes r o o' =
    (f : OutboxEntry → OutboxEntry) × (o'.rows ≡ update (has_id r.id) f o.rows)
    × (is_pending r.status ≡ true → Keeps r (f r))
    × (length o'.calls ≤ suc (length o.calls))

settle_call-Changes :
    (s : Worker) (now : ℕ) (r : OutboxEntry) (a : Option Text) (o : Outbox)
    → Changes r o (settle_call s now r a (called (message_of r) a o))
unfolding settle_call mark_outbox_sent mark_outbox_failed mark_outbox_dead
settle_call-Changes s now r none o =
    (with_sent now, refl, (λ h. (refl, refl, refl, (λ e. absurd (cc (h, e))))), omega arith)
settle_call-Changes s now r (some e) o = elim (Bool-cases (leb s.max_attempts (suc r.attempts))) [
  | inl last ↦
      rw last
        (with_death e now, refl, (λ h. (refl, refl, refl, (λ k. absurd (cc (h, k))))), omega arith)
  | inr more ↦ rw more (
    with_failure e (compute_next_attempt s now (suc r.attempts)),
    refl,
    (λ h. (refl, refl, refl, (λ k. absurd (cc (h, k))))),
    omega arith,
  )
]

dispatch-Changes :
    (s : Worker) (now : ℕ) (r : OutboxEntry) (o : Outbox) → Changes r o (dispatch s now r o)
unfolding dispatch mark_outbox_dead
dispatch-Changes s now r o = elim (Option-cases (s.resolve r.channel)) [
  | inl unknown ↦
      rw (unknown, dispatch)
        (
          with_death (unknown_channel r.channel) now,
          refl,
          (λ h. (refl, refl, refl, (λ e. absurd (cc (h, e))))),
          omega arith,
        )
  | inr (send, known) ↦
      rw (known, dispatch) (settle_call-Changes s now r (send (length o.calls) (message_of r)) o)
]

update-IsAmong :
    (id : ℕ) (f : OutboxEntry → OutboxEntry) (q : OutboxEntry) (rs : List OutboxEntry)
    → has_id id q ≡ false
    → IsAmong q rs
    → IsAmong q (update (has_id id) f rs)
update-IsAmong id f q [] other there = there
update-IsAmong id f q (r ∷ rs) other (inl same) =
    let kept : has_id id r ≡ false = ap (has_id id) same ∙ other in rw kept (inl same)
update-IsAmong id f q (r ∷ rs) other (inr later) = inr (update-IsAmong id f q rs other later)

-- A row that was claimed and not yet dispatched.
abbrev Waits : Outbox → OutboxEntry → Type 0
Waits o r = IsAmong r o.rows × (is_pending r.status ≡ true)

dispatch-Waits :
    (s : Worker) (now : ℕ) (r : OutboxEntry) (rs : List OutboxEntry) (o : Outbox)
    → any (has_id r.id) rs ≡ false
    → All (Waits o) rs
    → All (Waits (dispatch s now r o)) rs
dispatch-Waits s now r [] o other h = tt
dispatch-Waits s now r (q ∷ qs) o other h =
    let (f, rows, _, _) = dispatch-Changes s now r o in
    let (differs, rest) = ||-false (has_id r.id q) _ other in
    (
      (subst (IsAmong q) (sym rows) (update-IsAmong r.id f q o.rows differs h.0.0), h.0.1),
      dispatch-Waits s now r qs o rest h.1,
    )

-- No row that is done changes, and each call of a channel takes an attempt.
abbrev pub Bounded : Worker → Outbox → Outbox → Type 0
Bounded s o o' =
    Each Keeps o.rows o'.rows
    × (length o'.calls + attempts_left s o'.rows ≤ length o.calls + attempts_left s o.rows)

Bounded-trans : (s : Worker) (a b c : Outbox) → Bounded s a b → Bounded s b c → Bounded s a c
Bounded-trans s a b c h k = (Each-trans a.rows b.rows c.rows h.0 k.0, omega (arith, h.1, k.1))

dispatch-Bounded :
    (s : Worker) (now : ℕ) (r : OutboxEntry) (o : Outbox)
    → IsKeyed o.rows
    → Waits o r
    → Bounded s o (dispatch s now r o)
dispatch-Bounded s now r o u (there, waits) =
    let (f, rows, kept, calls) = dispatch-Changes s now r o in
    (
      subst (Each Keeps o.rows) (sym rows)
          (update-Keeps r f o.rows (kept waits) (same_key r o.rows u there)),
      omega (arith, calls, dispatch-lt s now r o waits there),
    )

dispatch_all-Bounded :
    (s : Worker) (now : ℕ) (rs : List OutboxEntry) (o : Outbox)
    → IsKeyed o.rows
    → IsKeyed rs
    → All (Waits o) rs
    → Bounded s o (dispatch_all s now rs o)
unfolding dispatch_all
dispatch_all-Bounded s now [] o u v h = (Each-refl o.rows, omega arith)
dispatch_all-Bounded s now (r ∷ rs) o u v h =
    let o' = dispatch s now r o in
    let first = dispatch-Bounded s now r o u h.0 in
    Bounded-trans s o o' (dispatch_all s now rs o') first (
      dispatch_all-Bounded s now rs o' (Each-IsKeyed o.rows o'.rows first.0 u) v.1
        (dispatch-Waits s now r rs o v.0 h.1))

drain-Bounded :
    (s : Worker) (now budget : ℕ) (o : Outbox) → IsKeyed o.rows → Bounded s o (drain s now budget o)
unfolding drain
drain-Bounded s now budget o u =
    let claims = claim_due_outbox_entries s.by_next now drain_batch_size o in
    dispatch_all-Bounded s now (take budget claims) o u
      (take-IsKeyed budget claims (claim-IsKeyed s now drain_batch_size o u))
      (All-imp (IsClaimed now o) (Waits o) (take budget claims) (λ r h. (h.0, (&&-true _ _ h.1).0))
        (All-take (IsClaimed now o) budget claims (claim-IsClaimed s now drain_batch_size o)))

-- A run, at whatever instants and whatever the channels answer, leaves the same rows with the same
-- messages, changes none that is sent or dead, and calls the channels no more often than there are
-- attempts left that it uses up.
pub run-Bounded :
    (s : Worker) (ticks : List ℕ) (o : Outbox) → IsKeyed o.rows → Bounded s o (run s ticks o)
unfolding run
run-Bounded s [] o u = (Each-refl o.rows, omega arith)
run-Bounded s (now ∷ ticks) o u =
    let o' = drain s now drain_batch_size o in
    let first = drain-Bounded s now drain_batch_size o u in
    Bounded-trans s o o' (run s ticks o') first
      (run-Bounded s ticks o' (Each-IsKeyed o.rows o'.rows first.0 u))
