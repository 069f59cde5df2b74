-- ===== src/Store/Exec.antt =====
-- Calls that may fail and change a state: Go's `(value, error)` with the state that is left behind.
-- An error keeps what was written before it. Failures of the driver (I/O, cancelled contexts) are not
-- modelled: the errors are those that the program and the constraints of the tables raise.

pub mod Frames

pub data Error : Type 0 where
  index_out_of_range no_rows fields_required member_not_found unique_violation
        foreign_key_violation :
      Error
  no_active_members no_available_cover member_not_scheduled bad_date_order : Error
  swap_not_pending swap_not_found swap_date_passed swap_assignment_busy swap_same_assignment : Error
  swap_not_owner swap_target_self requester_assignment_not_found target_assignment_not_found : Error
  swap_requester_date_passed swap_target_date_passed target_owner_mismatch : Error
  trigger_violation : Error
  wfh_not_found wfh_not_owner wfh_already_settled wfh_duplicate_request wfh_invalid_date : Error
  wfh_date_passed wfh_date_too_far wfh_member_not_found wfh_not_approved wfh_assigned : Error
  wfh_on_holiday wfh_quota_exhausted wfh_disabled invalid_period_anchor not_eligible : Error
  no_pending_swap_for_row bad_retention : Error

pub data Outcome (S A : Type 0) : Type 0 where
  ok : A → S → Outcome S A
  err : Error → S → Outcome S A

abbrev pub Exec : Type 0 → Type 0 → Type 0
Exec S A = S → Outcome S A

-- The state that a call leaves.
abbrev pub after : {S A : Type 0} → Outcome S A → S
after (ok a s) = s
after (err e s) = s

abbrev pub bind : {S A B : Type 0} → Outcome S A → (A → S → Outcome S B) → Outcome S B
bind (ok a s) f = f a s
bind (err e s) f = err e s

infixl 5 ◌>>=◌ ◌>>◌
abbrev pub ◌>>=◌ : {S A B : Type 0} → Exec S A → (A → Exec S B) → Exec S B
◌>>=◌ m f s = bind (m s) f

abbrev pub ◌>>◌ : {S A B : Type 0} → Exec S A → Exec S B → Exec S B
◌>>◌ m k s = bind (m s) (λ _ s'. k s')

abbrev pub pure : {S A : Type 0} → A → Exec S A
pure a s = ok a s

abbrev pub raise : {S A : Type 0} → Error → Exec S A
raise e s = err e s

-- A read of the state.
abbrev pub gets : {S A : Type 0} → (S → A) → Exec S A
gets f s = ok (f s) s
