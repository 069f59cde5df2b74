-- ===== src/Notify/Worker/Key.antt =====
-- The primary key of the outbox, and what is claimed.
use madhatter.Base.{
  ℕ, zero, suc, ◌≡◌, refl, sym, ap, ◌∙◌, Bool, true, false, ◌==◌, if◌then◌else◌, Bool-cases,
  ||-false, List, [], ◌∷◌, any, keep, absent-keep, take, All, inl, inr, arith,
}
use madhatter.Base.Sort.{sort_by, insert_by, any-insert_by}
use madhatter.Notify.{OutboxEntry, Outbox}
use madhatter.Notify.Table.{is_due, claim_due_outbox_entries}
use madhatter.Notify.Worker.{Worker}
use madhatter.Notify.Worker.Left.{IsAmong}

abbrev pub has_id : ℕ → OutboxEntry → Bool
has_id id r = r.id == id

-- The primary key: no two rows have one id.
abbrev pub IsKeyed : List OutboxEntry → Type 0
IsKeyed [] = Unit
IsKeyed (r ∷ rs) = (any (has_id r.id) rs ≡ false) × IsKeyed rs

keep-IsKeyed : (p : OutboxEntry → Bool) (rs : List OutboxEntry) → IsKeyed rs → IsKeyed (keep p rs)
keep-IsKeyed p [] u = tt
keep-IsKeyed p (r ∷ rs) u = elim (p r) as (λ b. IsKeyed (if b then r ∷ keep p rs else keep p rs)) [
  | true ↦ (absent-keep (has_id r.id) p rs u.0, keep-IsKeyed p rs u.1)
  | false ↦ keep-IsKeyed p rs u.1
]

absent-take :
    (p : OutboxEntry → Bool) (n : ℕ) (rs : List OutboxEntry)
    → any p rs ≡ false
    → any p (take n rs) ≡ false
absent-take p zero rs h = refl
absent-take p (suc n) [] h = refl
absent-take p (suc n) (r ∷ rs) h = ground (arith, absent-take p n rs)

pub take-IsKeyed : (n : ℕ) (rs : List OutboxEntry) → IsKeyed rs → IsKeyed (take n rs)
take-IsKeyed zero rs u = tt
take-IsKeyed (suc n) [] u = tt
take-IsKeyed (suc n) (r ∷ rs) u = (absent-take (has_id r.id) n rs u.0, take-IsKeyed n rs u.1)

insert_by-IsKeyed :
    (le : OutboxEntry → OutboxEntry → Bool) (x : OutboxEntry) (ys : List OutboxEntry)
    → any (has_id x.id) ys ≡ false
    → IsKeyed ys
    → IsKeyed (insert_by le x ys)
unfolding insert_by
insert_by-IsKeyed le x [] h u = (refl, tt)
insert_by-IsKeyed le x (y ∷ ys) h u = elim (Bool-cases (le x y)) [
  | inl e ↦ rw e (h, u)
  | inr e ↦ rw e (
    ground (arith, any-insert_by le (has_id y.id) x ys),
    insert_by-IsKeyed le x ys (||-false (has_id x.id y) _ h).1 u.1,
  )
]

absent-sort_by :
    (le : OutboxEntry → OutboxEntry → Bool) (p : OutboxEntry → Bool) (rs : List OutboxEntry)
    → any p rs ≡ false
    → any p (sort_by le rs) ≡ false
unfolding sort_by
absent-sort_by le p [] h = h
absent-sort_by le p (r ∷ rs) h =
    ground (arith, any-insert_by le p r (sort_by le rs), absent-sort_by le p rs)

sort_by-IsKeyed :
    (le : OutboxEntry → OutboxEntry → Bool) (rs : List OutboxEntry)
    → IsKeyed rs
    → IsKeyed (sort_by le rs)
unfolding sort_by
sort_by-IsKeyed le [] u = tt
sort_by-IsKeyed le (r ∷ rs) u =
    insert_by-IsKeyed le r (sort_by le rs) (absent-sort_by le (has_id r.id) rs u.0)
      (sort_by-IsKeyed le rs u.1)

pub claim-IsKeyed :
    (s : Worker) (now n : ℕ) (o : Outbox)
    → IsKeyed o.rows
    → IsKeyed (claim_due_outbox_entries s.by_next now n o)
unfolding claim_due_outbox_entries
claim-IsKeyed s now n o u =
    take-IsKeyed n (sort_by s.by_next (keep (is_due now) o.rows))
      (sort_by-IsKeyed s.by_next (keep (is_due now) o.rows) (keep-IsKeyed (is_due now) o.rows u))

none_else :
    (r : OutboxEntry) (qs : List OutboxEntry)
    → any (has_id r.id) qs ≡ false
    → All (λ q. has_id r.id q ≡ true → q ≡ r) qs
none_else r [] h = tt
none_else r (q ∷ qs) h =
    let (other, rest) = ||-false (has_id r.id q) _ h in
    ((λ e. absurd (ground (arith, e, other))), none_else r qs rest)

clash :
    (q r : OutboxEntry) (qs : List OutboxEntry)
    → any (has_id q.id) qs ≡ false
    → has_id r.id q ≡ true
    → IsAmong r qs
    → ⊥
clash q r [] h e there = there
clash q r (x ∷ qs) h e (inl same) =
    let i : x.id ≡ r.id = ap (λ (y : OutboxEntry). y.id) same in ground (arith, i)
clash q r (x ∷ qs) h e (inr later) = clash q r qs (||-false (has_id q.id x) _ h).1 e later

-- Where the rows are keyed, the rows that have the id of one of them are that one.
pub same_key :
    (r : OutboxEntry) (rs : List OutboxEntry)
    → IsKeyed rs
    → IsAmong r rs
    → All (λ q. has_id r.id q ≡ true → q ≡ r) rs
same_key r [] u there = tt
same_key r (q ∷ qs) u (inl same) =
    ((λ _. same), none_else r qs (ap (λ (x : OutboxEntry). any (has_id x.id) qs) (sym same) ∙ u.0))
same_key r (q ∷ qs) u (inr later) =
    ((λ e. absurd (clash q r qs u.0 e later)), same_key r qs u.1 later)
