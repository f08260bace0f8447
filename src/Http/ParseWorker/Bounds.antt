-- ===== src/Http/ParseWorker/Bounds.antt =====
-- The read position of src/http/ParseWorker.h stays within the bytes of the request.
use my_network_library.Prelude.{
  ℕ, zero, suc, ◌+◌, ◌-◌, ◌≤◌, ◌≡◌, refl, ap, sym, ◌∙◌, true, ◌&&◌, Option, none, some, List, [],
  ◌∷◌, ◌==◌, ltb, length, take, drop, arith, length-drop, length-take, Bool-cases, inl, inr,
}
use my_network_library.Prelude.Text.{Text}
use my_network_library.Http.ParseWorker.{
  ParseWorker, set_str, search_crlf, starts_lf, next, unread, retrieve_until, cr,
}

pub record IsReady (w : ParseWorker) : Type 0 where
  pub read : w.reader_index ≤ w.size
  pub filled : w.size ≤ length w.context

drop-nil {ℓ} : {A : Type ℓ} (n : ℕ) → drop {A = A} n [] ≡ []
drop-nil zero = refl
drop-nil (suc n) = refl

pub drop-drop {ℓ} : {A : Type ℓ} (a b : ℕ) (xs : List A) → drop a (drop b xs) ≡ drop (b + a) xs
drop-drop a zero xs = ap (λ n. drop n xs) (omega arith)
drop-drop a (suc b) [] = drop-nil a ∙ sym (drop-nil (suc b + a))
drop-drop a (suc b) (x ∷ xs) = drop-drop a b xs ∙ ap (λ (n : ℕ). drop n (x ∷ xs)) (suc_add a b)
  where
    suc_add : (m n : ℕ) → suc (n + m) ≡ suc n + m
    suc_add m n = omega arith

pub set_str-IsReady : (w : ParseWorker) (str : Text) → IsReady (set_str w str)
unfolding set_str
set_str-IsReady w str = record { read = omega arith; filled = omega arith }

take-length : (xs : Text) → take (length xs) xs ≡ xs
take-length [] = refl
take-length (x ∷ xs) = ap (λ ys. x ∷ ys) (take-length xs)

pub unread-set_str : (w : ParseWorker) (str : Text) → unread (set_str w str) ≡ str
unfolding unread set_str
unread-set_str w str = take-length str

length-unread : (w : ParseWorker) → IsReady w → length (unread w) ≡ w.size - w.reader_index
unfolding unread
length-unread w r =
    length-drop w.reader_index (take w.size w.context)
    ∙ omega (arith, length-take w.size w.context, r.filled)

nil_of_length : (xs : Text) → length xs ≡ 0 → xs ≡ []
nil_of_length [] h = refl
nil_of_length (x ∷ xs) h = absurd (omega arith)

next-some : (o : Option ℕ) (k : ℕ) → next o ≡ some k → (j : ℕ) × (o ≡ some j) × (k ≡ suc j)
next-some none k h = cc
next-some (some j) k h = (j, refl, ground arith)

-- A line break that is found lies within the bytes to read.
pub search_crlf-bound : (t : Text) (k : ℕ) → search_crlf t ≡ some k → k + 2 ≤ length t
unfolding search_crlf
search_crlf-bound [] k h = cc
search_crlf-bound (x ∷ t) k h = elim (Bool-cases ((x == cr) && starts_lf t)) [
  | inl hit ↦ here t (ground arith) (rw hit at h)
  | inr miss ↦
      let (j, e, f) = next-some (search_crlf t) k (rw miss at h) in
      omega (arith, search_crlf-bound t j e)
]
  where
    here :
        (u : Text)
        → starts_lf u ≡ true
        → ◌≡◌ {A = Option ℕ} (some 0) (some k)
        → k + 2 ≤ suc (length u)
    here [] s e = cc
    here (y ∷ u) s e = ground arith

-- Reading `len` bytes that are there leaves the position within the bytes, and what is left to read
-- is the rest.
pub retrieve_until-unread :
    (w : ParseWorker) (len : ℕ)
    → IsReady w
    → len ≤ length (unread w)
    → IsReady (retrieve_until w len) × (unread (retrieve_until w len) ≡ drop len (unread w))
unfolding retrieve_until unread
retrieve_until-unread w len r le = elim (Bool-cases (ltb (w.reader_index + len) w.size)) [
  | inl more ↦ rw more (
    record { read = ground arith; filled = r.filled },
    sym (drop-drop len w.reader_index (take w.size w.context)),
  )
  | inr all ↦ rw all (
    record { read = omega arith; filled = omega arith },
    sym (
        nil_of_length (drop len (drop w.reader_index (take w.size w.context)))
          (length-drop len (unread w) ∙ ground (arith, length-unread w r, r.read))),
  )
]
