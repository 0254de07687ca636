-- ===== src/Kernel/Permissions.antt =====
-- The four roles and their order, kernel/permissions/permissions.go.
-- A role is a text, which may be none of the four.
use hermi_nas.Prelude.{
  Bool, List, Option, String, [], any, arith, eq_iff, false, if◌then◌else◌, leb, none, some, str_eq,
  true, ℕ, ◌∷◌, ◌≡◌,
}

abbrev pub Role : Type 0
Role = String

abbrev pub viewer : Role
viewer = "viewer"

abbrev pub analyst : Role
analyst = "analyst"

abbrev pub engineer : Role
engineer = "engineer"

abbrev pub admin : Role
admin = "admin"

-- The map `rank`.
unfoldable pub rank_entry : Role → Option ℕ
rank_entry r =
    if str_eq r viewer
    then some 0
    else if str_eq r analyst
    then some 1
    else if str_eq r engineer
    then some 2
    else if str_eq r admin
    then some 3
    else none

-- A missing key reads as 0.
unfoldable pub rank : Role → ℕ
unfolding rank_entry
rank r = elim (rank_entry r) [ none ↦ 0 | some n ↦ n ]

unfoldable pub at_least : Role → Role → Bool
unfolding rank
at_least r min = leb (rank min) (rank r)

unfoldable pub all : List Role
all = viewer ∷ analyst ∷ engineer ∷ admin ∷ []

unfoldable pub valid : Role → Bool
unfolding rank_entry
valid r = elim (rank_entry r) [ none ↦ false | some n ↦ true ]

-- A role is valid exactly if it is one of the four that `All` lists.
valid-iff-all : (r : Role) → valid r ≡ any (λ x. str_eq r x) all
unfolding valid all
valid-iff-all r = ground arith

leb_trans : (a b c : ℕ) → leb a b ≡ true → leb b c ≡ true → leb a c ≡ true
leb_trans a b c p q = ground arith

-- `AtLeast` is transitive.
at_least_trans : (r s t : Role) → at_least r s ≡ true → at_least s t ≡ true → at_least r t ≡ true
unfolding at_least
at_least_trans r s t h k = leb_trans (rank t) (rank s) (rank r) k h

-- A role that is none of the four passes the checks that a viewer passes, and no other.
unknown-as-viewer : (r min : Role) → valid r ≡ false → at_least r min ≡ at_least viewer min
unfolding at_least valid rank
unknown-as-viewer r min h = ground arith

-- Two valid roles of the same rank are the same role.
rank_injective : (r s : Role) → valid r ≡ true → valid s ≡ true → rank r ≡ rank s → r ≡ s
unfolding rank valid
rank_injective r s h k e = ground (
  arith,
  eq_iff r viewer,
  eq_iff r analyst,
  eq_iff r engineer,
  eq_iff r admin,
  eq_iff s viewer,
  eq_iff s analyst,
  eq_iff s engineer,
  eq_iff s admin,
)

leb_antisym : (a b : ℕ) → leb a b ≡ true → leb b a ≡ true → a ≡ b
leb_antisym a b p q = ground arith

-- Two valid roles that are each at least the other are the same role.
at_least_antisym :
    (r s : Role)
    → valid r ≡ true
    → valid s ≡ true
    → at_least r s ≡ true
    → at_least s r ≡ true
    → r ≡ s
unfolding at_least
at_least_antisym r s h k p q = rank_injective r s h k (leb_antisym (rank r) (rank s) q p)
