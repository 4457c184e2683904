-- ===== src/Shared/Examples.antt =====
-- Small runs of the shared containers.
use constraints_builder.Shared.{nat_eq, ℕ, ◌≡◌, refl, none, [], ◌∷◌}
use constraints_builder.Shared.Map.{Map, lookup, insert, remove}

abbrev two_entries : Map ℕ ℕ
two_entries = (1, 10) ∷ (2, 20) ∷ []

insert_keeps_place : insert 1 11 two_entries ≡ (1, 11) ∷ (2, 20) ∷ []
unfolding insert
insert_keeps_place = refl

remove_one : lookup 1 (remove 1 two_entries) ≡ none
unfolding lookup remove
remove_one = refl
