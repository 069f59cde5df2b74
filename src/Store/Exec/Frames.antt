-- ===== src/Store/Exec/Frames.antt =====
-- What a chain of calls keeps, from what each call keeps.
use madhatter.Store.Exec.{Outcome, ok, err, after, bind}

module _ {S : Type 0} (R : S → S → Type 0) (trans : (a b c : S) → R a b → R b c → R a c) where
  pub after-bind :
      {A B : Type 0} (s : S) (r : Outcome S A) (k : A → S → Outcome S B)
      → R s (after r)
      → ((a : A) (t : S) → R t (after (k a t)))
      → R s (after (bind r k))
  after-bind s (ok a t) k h rest = trans s t (after (k a t)) h (rest a t)
  after-bind s (err x t) k h rest = h

-- What holds of the result and the state where a call succeeds.
abbrev pub OnOk : {S A : Type 0} → (A → S → Type 0) → Outcome S A → Type 0
OnOk P (ok a s) = P a s
OnOk P (err x s) = Unit

pub OnOk-bind :
    {S A B : Type 0} (Q : A → S → Type 0) (P : B → S → Type 0) (r : Outcome S A)
    (k : A → S → Outcome S B)
    → OnOk Q r
    → ((a : A) (s : S) → Q a s → OnOk P (k a s))
    → OnOk P (bind r k)
OnOk-bind Q P (ok a s) k h rest = rest a s h
OnOk-bind Q P (err x s) k h rest = tt
