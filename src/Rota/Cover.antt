-- ===== src/Rota/Cover.antt =====
-- Who covers: the searches of internal/rota/engine.go over the members and the leaves of a date.
pub mod Laws
use madhatter.Base.{
  ℕ, zero, suc, ◌+◌, ◌%◌, Bool, true, false, ◌||◌, ◌==◌, if◌then◌else◌, List, [], ◌∷◌, Option, none,
  some, Text, length, get_elem?, any, find, text_eq, trim_space, to_lower, codes,
}
use madhatter.Store.{TeamMember, LeaveRecord}

unfoldable pub original_is_on_leave : TeamMember → List LeaveRecord → Bool
original_is_on_leave member leaves = any (λ (l : LeaveRecord). l.member_id == member.id) leaves

-- The loop over `n` candidates, from offset `i` on. `none` is the error "no available cover found";
-- the index is in range whenever there is a member.
unfoldable pub find_cover_from : List TeamMember → List LeaveRecord → ℕ → ℕ → ℕ → Option TeamMember
unfolding original_is_on_leave
find_cover_from members leaves start_index i zero = none
find_cover_from members leaves start_index i (suc n) =
    let rest = find_cover_from members leaves start_index (suc i) n in
    elim (get_elem? members ((start_index + i) % length members)) [
      | none ↦ none
      | some candidate ↦ if original_is_on_leave candidate leaves then rest else some candidate
    ]

unfoldable pub find_cover : List TeamMember → List LeaveRecord → ℕ → Option TeamMember
unfolding find_cover_from
find_cover members leaves start_index =
    find_cover_from members leaves start_index 0 (length members)

-- `none` is -1.
unfoldable pub find_member_index : List TeamMember → ℕ → Option ℕ
find_member_index [] member_id = none
find_member_index (m ∷ ms) member_id =
    if m.id == member_id
    then some 0
    else elim (find_member_index ms member_id) [ none ↦ none | some i ↦ some (suc i) ]

unfoldable pub member_name_by_id : List TeamMember → ℕ → Text
member_name_by_id members id = elim (find (λ (m : TeamMember). m.id == id) members) [
  | none ↦ []
  | some m ↦ m.name
]

unfoldable pub is_leave_active : Text → Bool
is_leave_active status =
    let s = to_lower (trim_space status) in
    text_eq s (codes "pending") || text_eq s (codes "assigned")
