-- ===== src/Parallel/Groups/Held.antt =====
-- An index that lists the groups of a map under their keys, and the steps that keep it so.
use constraints_builder.Shared.{
  ℕ, ◌+◌, ◌-◌, ◌≡◌, arith, true, ◌&&◌, Option, none, some, List, contains, if◌then◌else◌, KeyEq,
  nat_eq, nat_beq,
}
use constraints_builder.Shared.Map.{Map, lookup, insert, remove, lookup-insert, lookup-remove}
use constraints_builder.Parallel.Groups.{GroupData}
use constraints_builder.Parallel.Groups.Counts.{count_of}
use constraints_builder.Parallel.Groups.Sorted.{IsOnce}

module _ {ℓ} {K : Type ℓ} ⦃e : KeyEq K⦄ where
  -- How often a group, if it is there, holds a key.
  abbrev pub held : (GroupData → List K) → K → Option GroupData → ℕ
  held field key none = 0
  held field key (some d) = count_of key (field d)

  -- Where `f key i` says how often the index lists a group under a key.
  abbrev pub IsHeld : (GroupData → List K) → (K → ℕ → ℕ) → Map ℕ GroupData → Type ℓ
  IsHeld field f groups = (key : K) (i : ℕ) → f key i ≡ held field key (lookup i groups)

module _ {ℓ} {K : Type ℓ} ⦃e : KeyEq K⦄ (field : GroupData → List K) (f f' : K → ℕ → ℕ)
    (groups : Map ℕ GroupData) (g : ℕ) (d : GroupData) (h : IsHeld field f groups) where
  pub IsHeld-open :
      lookup g groups ≡ none
      → ((key : K) (i : ℕ)
          → f' key i ≡ f key i + (if nat_beq g i then count_of key (field d) else 0))
      → IsHeld field f' (insert g d groups)
  IsHeld-open fresh step key i =
      ground (arith, step key i, h key i, lookup-insert g i d groups, nat_eq.same_iff g i, fresh)

  pub IsHeld-remove :
      lookup g groups ≡ some d
      → ((key : K) (i : ℕ)
          → f' key i ≡ f key i - (if nat_beq g i then count_of key (field d) else 0))
      → IsHeld field f' (remove g groups)
  IsHeld-remove there step key i =
      ground (arith, step key i, h key i, lookup-remove g i groups, nat_eq.same_iff g i, there)

  pub IsHeld-again :
      (old : GroupData)
      → lookup g groups ≡ some old
      → IsOnce (field old)
      → IsOnce (field d)
      → ((key : K) → contains (field old) key ≡ true → contains (field d) key ≡ true)
      → ((key : K) (i : ℕ)
          → f' key i
            ≡ (if nat_beq g i && contains (field d) key && nat_beq (f key i) 0 then 1 else f key i))
      → IsHeld field f' (insert g d (remove g groups))
  IsHeld-again old there once once' more step key i = ground (
    arith,
    step key i,
    h key i,
    lookup-insert g i d (remove g groups),
    lookup-remove g i groups,
    nat_eq.same_iff g i,
    there,
    once key,
    once' key,
    more key,
  )
