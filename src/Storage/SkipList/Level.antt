-- ===== src/Storage/SkipList/Level.antt =====
-- `getRandomLevel` of src/storage/SkipList.h.
use my_network_library.Prelude.{
  ℕ, ◌+◌, ◌%◌, ◌≤◌, ◌≡◌, Bool, true, false, ◌||◌, some, List, [], ◌∷◌, arith, ◌==◌, inl, inr,
  Bool-cases, ltb, if◌then◌else◌,
}
use my_network_library.Storage.SkipList.{count_odd, get_random_level}

-- some result of `rand()` is even
abbrev pub has_even : List ℕ → Bool
has_even [] = false
has_even (r ∷ draws) = (r % 2 == 0) || has_even draws

count_odd_ends :
    (k : ℕ) (draws : List ℕ)
    → has_even draws ≡ true
    → (n : ℕ) × (rest : List ℕ) × (count_odd k draws ≡ some (n, rest))
unfolding count_odd
count_odd_ends k [] h = cc
count_odd_ends k (r ∷ draws) h = elim (Bool-cases (r % 2 == 0)) [
  | inl t ↦ (k, draws, rw t)
  | inr t ↦ let (n, rest, e) = count_odd_ends (k + 1) draws (ground (arith, t)) in (n, rest, rw t e)
]

-- Once `rand()` gives an even number the loop ends, and the level is within the bounds.
pub get_random_level_bounds :
    (max : ℕ) (draws : List ℕ)
    → has_even draws ≡ true
    → (level : ℕ) × (rest : List ℕ) × (get_random_level max draws ≡ some (level, rest))
      × (level ≤ max)
unfolding get_random_level
get_random_level_bounds max draws h =
    let (k, rest, e) = count_odd_ends 0 draws h in
    (if ltb k max then k else max, rest, rw e, ground arith)
