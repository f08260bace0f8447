-- ===== src/Storage/Worker/Words.antt =====
-- `parseCommand` of src/storage/SkipListWorker.cpp splits a command at its spaces.
use my_network_library.Prelude.{
  ℕ, zero, suc, ◌≤◌, ◌<◌, ◌≡◌, refl, ap, ◌∙◌, false, some, List, [], ◌∷◌, ◌++◌, arith, ◌==◌,
  if◌then◌else◌, drop, length, length-drop, Bool-cases, inl, inr,
}
use my_network_library.Prelude.Text.{
  Text, has_byte, before, from, before-append, from-append, has_byte-before,
}
use my_network_library.Storage.DumpFile.{is_empty}
use my_network_library.Storage.Worker.{skip_spaces, cons_word, words}

-- a word is not empty and has no space
abbrev pub IsWord : Text → Type 0
IsWord w = (is_empty w ≡ false) × (has_byte b' ' w ≡ false)

abbrev pub AreWords : List Text → Type 0
AreWords [] = Unit
AreWords (w ∷ ws) = IsWord w × AreWords ws

-- the words, each followed by a space
unfoldable pub unwords : List Text → Text
unwords [] = []
unwords (w ∷ ws) = w ++ b' ' ∷ unwords ws

-- the bytes other than spaces
unfoldable pub non_spaces : Text → Text
non_spaces [] = []
non_spaces (x ∷ xs) = if x == b' ' then non_spaces xs else x ∷ non_spaces xs

unfoldable pub concat : List Text → Text
concat [] = []
concat (w ∷ ws) = w ++ concat ws

length-skip_spaces : (t : Text) → length (skip_spaces t) ≤ length t
unfolding skip_spaces
length-skip_spaces [] = omega arith
length-skip_spaces (x ∷ t) = ground (arith, length-skip_spaces t)

length-from : (c : ℕ) (t : Text) → length (from c t) ≤ length t
unfolding from
length-from c [] = omega arith
length-from c (x ∷ t) = ground (arith, length-from c t)

non_spaces-skip_spaces : (t : Text) → non_spaces (skip_spaces t) ≡ non_spaces t
unfolding skip_spaces non_spaces
non_spaces-skip_spaces [] = refl
non_spaces-skip_spaces (x ∷ t) = ground (arith, non_spaces-skip_spaces t)

-- the first word and what follows its space
non_spaces-split : (t : Text) → before b' ' t ++ non_spaces (drop 1 (from b' ' t)) ≡ non_spaces t
unfolding before from non_spaces
non_spaces-split [] = refl
non_spaces-split (x ∷ t) = ground (arith, non_spaces-split t)

shrinks : (x : ℕ) (t : Text) → length (drop 1 (from b' ' (skip_spaces (x ∷ t)))) ≤ length t
unfolding skip_spaces from
shrinks x t = elim (Bool-cases (x == b' ')) [
  | inl sp ↦ rw sp (
      omega (
        arith,
        length-drop 1 (from b' ' (skip_spaces t)),
        length-from b' ' (skip_spaces t),
        length-skip_spaces t,
      ))
  | inr other ↦ rw (other, other) (omega (arith, length-drop 1 (from b' ' t), length-from b' ' t))
]

concat-cons_word : (w : Text) (ws : List Text) → concat (cons_word w ws) ≡ w ++ concat ws
unfolding concat
concat-cons_word [] ws = refl
concat-cons_word (x ∷ w) ws = refl

AreWords-cons_word :
    (w : Text) (ws : List Text) → has_byte b' ' w ≡ false → AreWords ws → AreWords (cons_word w ws)
AreWords-cons_word [] ws h a = a
AreWords-cons_word (x ∷ w) ws h a = ((refl, h), a)

-- With one round more than the command has bytes the loop ends. Its words hold, in order, the bytes
-- of the command that are no spaces, and each is a word.
pub words-non_spaces :
    (n : ℕ) (cmd : Text)
    → length cmd < n
    → (ws : List Text) × (words n cmd ≡ some ws) × AreWords ws × (concat ws ≡ non_spaces cmd)
unfolding words
words-non_spaces zero cmd f = absurd (omega arith)
words-non_spaces (suc n) [] f = ([], refl, tt, unfold concat non_spaces in refl)
words-non_spaces (suc n) (x ∷ t) f =
    let rest = skip_spaces (x ∷ t) in
    let w = before b' ' rest in
    let (ws, e, a, c) = words-non_spaces n (drop 1 (from b' ' rest)) (omega (arith, shrinks x t)) in
    (
      cons_word w ws,
      rw e,
      AreWords-cons_word w ws (has_byte-before b' ' rest) a,
      concat-cons_word w ws
          ∙ ap (λ u. w ++ u) c
          ∙ non_spaces-split rest
          ∙ non_spaces-skip_spaces (x ∷ t),
    )

skip_spaces-word :
    (x : ℕ) (w rest : Text)
    → has_byte b' ' (x ∷ w) ≡ false
    → skip_spaces (x ∷ w ++ rest) ≡ x ∷ w ++ rest
unfolding skip_spaces has_byte
skip_spaces-word x w rest h = ground arith

words-word :
    (n : ℕ) (w rest : Text) (ws : List Text)
    → IsWord w
    → words n rest ≡ some ws
    → words (suc n) (w ++ b' ' ∷ rest) ≡ some (w ∷ ws)
unfolding words
words-word n [] rest ws h e = cc
words-word n (x ∷ w) rest ws h e = rw (
  skip_spaces-word x w (b' ' ∷ rest) h.1,
  from-append b' ' (x ∷ w) rest h.1,
  e,
  before-append b' ' (x ∷ w) rest h.1,
)

-- Words that are printed with a space after each are the words that the loop finds.
pub words-unwords :
    (n : ℕ) (ws : List Text) → AreWords ws → length ws < n → words n (unwords ws) ≡ some ws
words-unwords zero ws a f = absurd (omega arith)
words-unwords (suc n) [] a f = unfold words unwords in refl
words-unwords (suc n) (w ∷ ws) a f =
    words-unwords-step n w ws a.0 (words-unwords n ws a.1 (omega arith))
  where
    words-unwords-step :
        (k : ℕ) (v : Text) (vs : List Text)
        → IsWord v
        → words k (unwords vs) ≡ some vs
        → words (suc k) (unwords (v ∷ vs)) ≡ some (v ∷ vs)
    words-unwords-step k v vs h e = unfold unwords in words-word k v (unwords vs) vs h e
