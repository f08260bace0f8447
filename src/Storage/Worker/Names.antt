-- ===== src/Storage/Worker/Names.antt =====
-- The names of the commands of src/storage/SkipListWorker.cpp, in any case.
use my_network_library.Prelude.{
  ℕ, ◌+◌, ◌≤◌, ◌≡◌, refl, Bool, true, false, ◌&&◌, ◌||◌, List, [], ◌∷◌, ◌==◌, if◌then◌else◌, arith,
}
use my_network_library.Prelude.Text.{Text, text_eq}
use my_network_library.Storage.Worker.{
  ParseState, err, set, get, del, load, dump, to_upper, upper, cmd_map,
}

-- the two forms of each letter of a name
abbrev set_letters : List (ℕ × ℕ)
set_letters = (b'S', b's') ∷ (b'E', b'e') ∷ (b'T', b't') ∷ []

abbrev get_letters : List (ℕ × ℕ)
get_letters = (b'G', b'g') ∷ (b'E', b'e') ∷ (b'T', b't') ∷ []

abbrev del_letters : List (ℕ × ℕ)
del_letters = (b'D', b'd') ∷ (b'E', b'e') ∷ (b'L', b'l') ∷ []

abbrev load_letters : List (ℕ × ℕ)
load_letters = (b'L', b'l') ∷ (b'O', b'o') ∷ (b'A', b'a') ∷ (b'D', b'd') ∷ []

abbrev dump_letters : List (ℕ × ℕ)
dump_letters = (b'D', b'd') ∷ (b'U', b'u') ∷ (b'M', b'm') ∷ (b'P', b'p') ∷ []

-- a text spells a name when each of its letters is one of the two forms
abbrev pub spells : List (ℕ × ℕ) → Text → Bool
spells [] [] = true
spells [] (x ∷ xs) = false
spells (l ∷ ls) [] = false
spells (l ∷ ls) (x ∷ xs) = ((x == l.0) || (x == l.1)) && spells ls xs

-- the command that a name stands for
abbrev pub named : Text → ParseState
named name =
    if spells set_letters name
    then set
    else if spells get_letters name
    then get
    else if spells del_letters name
    then del
    else if spells load_letters name
    then load
    else if spells dump_letters name
    then dump
    else err

abbrev AreLetters : List (ℕ × ℕ) → Type 0
AreLetters [] = Unit
AreLetters (l ∷ ls) = ((65 ≤ l.0) × (l.0 ≤ 90) × (l.1 ≡ l.0 + 32)) × AreLetters ls

abbrev capitals : List (ℕ × ℕ) → Text
capitals [] = []
capitals (l ∷ ls) = l.0 ∷ capitals ls

to_upper-letter :
    (x u l : ℕ) → 65 ≤ u → u ≤ 90 → l ≡ u + 32 → (to_upper x == u) ≡ ((x == u) || (x == l))
unfolding to_upper
to_upper-letter x u l a b c = ground (arith, a, b, c)

text_eq-upper :
    (ls : List (ℕ × ℕ)) (name : Text)
    → AreLetters ls
    → text_eq (upper name) (capitals ls) ≡ spells ls name
unfolding text_eq upper
text_eq-upper [] [] h = refl
text_eq-upper [] (x ∷ xs) h = refl
text_eq-upper (l ∷ ls) [] h = refl
text_eq-upper (l ∷ ls) (x ∷ xs) ((a, b, c), h) =
    rw (to_upper-letter x l.0 l.1 a b c, text_eq-upper ls xs h) refl

pub cmd_map-upper : (name : Text) → cmd_map (upper name) ≡ named name
unfolding cmd_map
cmd_map-upper name =
    rw
      (
        text_eq-upper set_letters name (
          (omega arith, omega arith, refl),
          ((omega arith, omega arith, refl), ((omega arith, omega arith, refl), tt)),
        ),
        text_eq-upper get_letters name (
          (omega arith, omega arith, refl),
          ((omega arith, omega arith, refl), ((omega arith, omega arith, refl), tt)),
        ),
        text_eq-upper del_letters name (
          (omega arith, omega arith, refl),
          ((omega arith, omega arith, refl), ((omega arith, omega arith, refl), tt)),
        ),
        text_eq-upper load_letters name (
          (omega arith, omega arith, refl),
          (
            (omega arith, omega arith, refl),
            ((omega arith, omega arith, refl), ((omega arith, omega arith, refl), tt)),
          ),
        ),
        text_eq-upper dump_letters name (
          (omega arith, omega arith, refl),
          (
            (omega arith, omega arith, refl),
            ((omega arith, omega arith, refl), ((omega arith, omega arith, refl), tt)),
          ),
        ),
      )
      refl
