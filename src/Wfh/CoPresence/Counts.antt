-- ===== src/Wfh/CoPresence/Counts.antt =====
-- The rows and the count of a loop over pairs of members on site.
use madhatter.Base.{
  ℕ, suc, ◌+◌, ◌≡◌, refl, sym, ap, ◌∙◌, subst, Bool, true, false, ◌||◌, ◌==◌, ltb, if◌then◌else◌,
  Bool-cases, List, [], ◌∷◌, ◌++◌, any, any-append, length, length-append, All, All-append, All-imp,
  inl, inr, arith,
}
use mathlib.Core.List.{append_assoc, append-nil}
use madhatter.Calendar.{Day}
use madhatter.Store.{has_member}
use madhatter.Store.Exec.{Outcome, ok, err, bind}
use madhatter.Wfh.{WfhCoPresence, Wfh, elem}
use madhatter.Wfh.CoPresence.{
  is_pair, record_pair, insert_wfh_co_presence_pair, write_pairs_with, write_pairs_from,
}

-- The state with more rows in the table, and no other change.
abbrev pub with_pairs : List WfhCoPresence → Wfh → Wfh
with_pairs ns w = record w { co_presence = w.co_presence ++ ns }

-- A call that succeeds, with the count that goes from `n` to its result by the rows that it adds,
-- each of which is an `R`, in a state in which `P` holds.
abbrev pub Counts : (WfhCoPresence → Type 0) → (Wfh → Type 0) → ℕ → Wfh → Outcome Wfh ℕ → Type 0
Counts R P n w o =
    (ns : List WfhCoPresence) × (o ≡ ok (n + length ns) (with_pairs ns w))
    × All R ns
    × P (with_pairs ns w)

-- A row of the date for two of the ids, the smaller one first.
abbrev pub IsBetween : Day → List ℕ → WfhCoPresence → Type 0
IsBetween d ids c =
    (c.working_date ≡ d)
    × (ltb c.member_id_a c.member_id_b ≡ true)
    × (elem c.member_id_a ids ≡ true)
    × (elem c.member_id_b ids ≡ true)

-- The two are one, or there is a row of the date for them, the smaller id first.
abbrev pub have_met : Day → ℕ → ℕ → Wfh → Bool
have_met d a b w =
    (a == b) || any (is_pair d (if ltb b a then b else a) (if ltb b a then a else b)) w.co_presence

-- Each of the ids with each of those after it.
abbrev pub AllMet : Day → List ℕ → Wfh → Type 0
AllMet d [] w = Unit
AllMet d (a ∷ others) w = All (λ b. have_met d a b w ≡ true) others × AllMet d others w

abbrev pub IsKnown : List ℕ → Wfh → ℕ → Type 0
IsKnown ids w a = ((a == 0) ≡ false) × (has_member a w.db.members ≡ true) × (elem a ids ≡ true)

any_later : {A : Type 0} (p : A → Bool) (xs ys : List A) → any p xs ≡ true → any p (xs ++ ys) ≡ true
any_later p xs ys h = any-append p xs ys ∙ ap (λ t. t || any p ys) h

have_met_later :
    (d : Day) (a b : ℕ) (ns : List WfhCoPresence) (w : Wfh)
    → have_met d a b w ≡ true
    → have_met d a b (with_pairs ns w) ≡ true
have_met_later d a b ns w h = ground (
  arith,
  h,
  any_later (is_pair d (if ltb b a then b else a) (if ltb b a then a else b)) w.co_presence ns,
)

with_no_pairs : (w : Wfh) → with_pairs [] w ≡ w
with_no_pairs w = ap (λ cs. record w { co_presence = cs }) (append-nil w.co_presence)

with_more_pairs :
    (ns ms : List WfhCoPresence) (w : Wfh)
    → with_pairs ms (with_pairs ns w) ≡ with_pairs (ns ++ ms) w
with_more_pairs ns ms w =
    ap (λ cs. record w { co_presence = cs }) (append_assoc w.co_presence ns ms)

Counts-none :
    (R : WfhCoPresence → Type 0) (P : Wfh → Type 0) (n : ℕ) (w : Wfh)
    → P w
    → Counts R P n w (ok n w)
Counts-none R P n w h = (
  [],
  ap (λ k. ok k w) (omega arith) ∙ ap (λ x. ok (n + 0) x) (sym (with_no_pairs w)),
  tt,
  subst P (sym (with_no_pairs w)) h,
)

counted : ℕ → Bool → Wfh → Outcome Wfh ℕ
counted n inserted w = ok (if inserted then suc n else n) w

own_pair :
    (d : Day) (a b : ℕ) (cs : List WfhCoPresence)
    → any (is_pair d a b) (cs ++ record { working_date = d; member_id_a = a; member_id_b = b } ∷ [])
      ≡ true
own_pair d a b cs = ground (
  arith,
  any-append (is_pair d a b) cs
      (record { working_date = d; member_id_a = a; member_id_b = b } ∷ []),
)

record_pair-Counts :
    (R : WfhCoPresence → Type 0) (d : Day) (a b n : ℕ) (w : Wfh)
    → R (record { working_date = d; member_id_a = a; member_id_b = b })
    → has_member a w.db.members ≡ true
    → has_member b w.db.members ≡ true
    → Counts R
        (λ w'. any (is_pair d a b) w'.co_presence ≡ true)
        n
        w
        (bind (record_pair d a b w) (counted n))
unfolding record_pair counted
record_pair-Counts R d a b n w is ka kb = elim (Bool-cases (any (is_pair d a b) w.co_presence)) [
  | inl there ↦ rw there (Counts-none R (λ w'. any (is_pair d a b) w'.co_presence ≡ true) n w there)
  | inr new ↦
      let row : WfhCoPresence = record { working_date = d; member_id_a = a; member_id_b = b } in
      rw (new, ka, kb)
        (
          row ∷ [],
          ap (λ k. ok k (with_pairs (row ∷ []) w)) (omega arith),
          (is, tt),
          own_pair d a b w.co_presence,
        )
]

-- The insertion of one pair of two members, in whatever order they come.
insert_pair-Counts :
    (ids : List ℕ) (d : Day) (a b n : ℕ) (w : Wfh)
    → IsKnown ids w a
    → IsKnown ids w b
    → Counts
        (IsBetween d ids)
        (λ w'. have_met d a b w' ≡ true)
        n
        w
        (bind (insert_wfh_co_presence_pair d a b w) (counted n))
unfolding insert_wfh_co_presence_pair counted
insert_pair-Counts ids d a b n w (na, ma, ia) (nb, mb, ib) = elim (Bool-cases (a == b)) [
  | inl same ↦ rw (na, nb, same) (Counts-none (IsBetween d ids) (λ w'. true ≡ true) n w refl)
  | inr other ↦ elim (Bool-cases (ltb b a)) [
    | inl swapped ↦
        rw (na, nb, other, swapped)
          (record_pair-Counts (IsBetween d ids) d b a n w (refl, swapped, ib, ia) mb ma)
    | inr ordered ↦
        let smaller : ltb a b ≡ true = ground (arith, other, ordered) in
        rw (na, nb, other, ordered)
          (record_pair-Counts (IsBetween d ids) d a b n w (refl, smaller, ia, ib) ma mb)
  ]
]

-- A call that keeps the count, and another one after it.
Counts-bind :
    (R : WfhCoPresence → Type 0) (P Q : Wfh → Type 0) (n : ℕ) (w : Wfh) (o : Outcome Wfh ℕ)
    (k : ℕ → Wfh → Outcome Wfh ℕ)
    → ((ns : List WfhCoPresence) (v : Wfh) → P v → P (with_pairs ns v))
    → Counts R P n w o
    → ((m : ℕ) (ns : List WfhCoPresence) → Counts R Q m (with_pairs ns w) (k m (with_pairs ns w)))
    → Counts R (λ v. P v × Q v) n w (bind o k)
Counts-bind R P Q n w o k later (ns, o_is, rs, p) rest =
    let (ms, k_is, rs', q) = rest (n + length ns) ns in
    let more = with_more_pairs ns ms w in
    (
      ns ++ ms,
      ap (λ x. bind x k) o_is
          ∙ k_is
          ∙ ap (λ c. ok c (with_pairs ms (with_pairs ns w))) (omega (arith, length-append ns ms))
          ∙ ap (ok (n + length (ns ++ ms))) more,
      All-append R ns ms rs rs',
      (subst P more (later ms (with_pairs ns w) p), subst Q more q),
    )

bind_assoc :
    {A B C : Type 0} (o : Outcome Wfh A) (f : A → Wfh → Outcome Wfh B) (k : B → Wfh → Outcome Wfh C)
    → bind (bind o f) k ≡ bind o (λ a w. bind (f a w) k)
bind_assoc (ok a w) f k = refl
bind_assoc (err e w) f k = refl

write_pairs_with-Counts :
    (ids : List ℕ) (d : Day) (a : ℕ) (bs : List ℕ) (n : ℕ) (w : Wfh)
    → IsKnown ids w a
    → All (IsKnown ids w) bs
    → Counts
        (IsBetween d ids)
        (λ v. All (λ b. have_met d a b v ≡ true) bs)
        n
        w
        (write_pairs_with d a bs n w)
unfolding write_pairs_with counted
write_pairs_with-Counts ids d a [] n w ka kbs = Counts-none (IsBetween d ids) (λ v. Unit) n w tt
write_pairs_with-Counts ids d a (b ∷ bs) n w ka kbs =
    let k = write_pairs_with d a bs in
    subst
      (Counts (IsBetween d ids)
        (λ v. (have_met d a b v ≡ true) × All (λ c. have_met d a c v ≡ true) bs) n w)
      (bind_assoc (insert_wfh_co_presence_pair d a b w) (counted n) k)
      (Counts-bind (IsBetween d ids) (λ v. have_met d a b v ≡ true)
        (λ v. All (λ c. have_met d a c v ≡ true) bs) n w
        (bind (insert_wfh_co_presence_pair d a b w) (counted n)) k (have_met_later d a b)
        (insert_pair-Counts ids d a b n w ka kbs.0)
        (λ m ns. write_pairs_with-Counts ids d a bs m (with_pairs ns w) ka kbs.1))

pub write_pairs_from-Counts :
    (ids : List ℕ) (d : Day) (rest : List ℕ) (n : ℕ) (w : Wfh)
    → All (IsKnown ids w) rest
    → Counts (IsBetween d ids) (AllMet d rest) n w (write_pairs_from d rest n w)
unfolding write_pairs_from
write_pairs_from-Counts ids d [] n w known = Counts-none (IsBetween d ids) (λ v. Unit) n w tt
write_pairs_from-Counts ids d (a ∷ others) n w known =
    Counts-bind (IsBetween d ids) (λ v. All (λ b. have_met d a b v ≡ true) others) (AllMet d others)
      n w (write_pairs_with d a others n w) (write_pairs_from d others)
      (λ ns v. All-imp _ _ others (λ b. have_met_later d a b ns v))
      (write_pairs_with-Counts ids d a others n w known.0 known.1)
      (λ m ns. write_pairs_from-Counts ids d others m (with_pairs ns w) known.1)
