-- ===== src/Logger/AppendFile/Written.antt =====
-- What the write loop of src/logger/FileUtil.cpp leaves in the file.
use mathlib.Core.Path.{subst}
use mathlib.Core.List.{append-nil, append_assoc}
use my_network_library.Prelude.{
  ℕ, zero, suc, ◌+◌, ◌<◌, ◌≡◌, refl, sym, ap, ◌∙◌, ◌⊎◌, inl, inr, Option, some, [], ◌∷◌, ◌++◌, ◌==◌,
  length, take, drop, take-append-drop, length-drop, arith, Bool-cases, ==_iff,
}
use my_network_library.Prelude.Text.{Text}
use my_network_library.Logger.AppendFile.{Stream, write_loop, append}

module _ (S : Stream) where
  -- The calls of `fwrite` and `fflush` that lead from one state of the file to another: how many are of
  -- `fflush`, and the bytes that the others have written.
  pub data Calls : ℕ → Text → S.File → S.File → Type 0 where
    stay : {f : S.File} → Calls 0 [] f f
    write :
        {k : ℕ} {out : Text} {f g : S.File} (t : Text)
        → Calls k out (S.fwrite f t).1 g
        → Calls k (take (S.fwrite f t).0 t ++ out) f g
    flush : {k : ℕ} {out : Text} {f g : S.File} → Calls k out (S.fflush f) g → Calls (suc k) out f g

  -- after the writes that put `out` into the file, one of the bytes of `rest` wrote none, and was the last
  pub record Stalled (out rest : Text) (f next : S.File) : Type 0 where
    pub before : S.File
    pub made : Calls 0 out f before
    pub left : (c : ℕ) × (cs : Text) × (rest ≡ c ∷ cs)
    pub wrote_none : (S.fwrite before rest).0 ≡ 0
    pub last : (S.fwrite before rest).1 ≡ next

  -- the bytes went to the end of the file, up to a `rest` that is left when a write stalls
  pub record Wrote (line : Text) (f : S.File) (result : Option S.File) : Type 0 where
    pub next : S.File
    pub out : Text
    pub rest : Text
    pub ran : result ≡ some next
    pub split : out ++ rest ≡ line
    pub calls : Calls 0 out f next
    pub text : S.contents next ≡ S.contents f ++ out
    pub ended : (rest ≡ []) ⊎ Stalled out rest f next

  Stalled-write :
      (line out rest : Text) (f next : S.File)
      → (rest ≡ []) ⊎ Stalled out rest (S.fwrite f line).1 next
      → (rest ≡ []) ⊎ Stalled (take (S.fwrite f line).0 line ++ out) rest f next
  Stalled-write line out rest f next (inl e) = inl e
  Stalled-write line out rest f next (inr s) = inr (record {
    before = s.before;
    made = write line s.made;
    left = s.left;
    wrote_none = s.wrote_none;
    last = s.last;
  })

  -- a write, and what follows it
  after :
      (line : Text) (f : S.File) (result : Option S.File)
      → Wrote (drop (S.fwrite f line).0 line) (S.fwrite f line).1 result
      → Wrote line f result
  after line f result w =
      let x = (S.fwrite f line).0 in
      record {
        next = w.next;
        out = take x line ++ w.out;
        rest = w.rest;
        ran = w.ran;
        split =
            append_assoc (take x line) w.out w.rest
            ∙ ap (λ t. take x line ++ t) w.split
            ∙ take-append-drop x line;
        text =
            w.text
            ∙ ap (λ t. t ++ w.out) (S.contents-fwrite f line)
            ∙ append_assoc (S.contents f) (take x line) w.out;
        calls = write line w.calls;
        ended = Stalled-write line w.out w.rest f w.next w.ended;
      }

  stall :
      (c : ℕ) (cs : Text) (f : S.File)
      → (S.fwrite f (c ∷ cs)).0 ≡ 0
      → Wrote (c ∷ cs) f (some (S.fwrite f (c ∷ cs)).1)
  stall c cs f z = record {
    next = (S.fwrite f (c ∷ cs)).1;
    out = [];
    rest = c ∷ cs;
    ran = refl;
    split = refl;
    text = S.contents-fwrite f (c ∷ cs) ∙ ap (λ n. S.contents f ++ take n (c ∷ cs)) z;
    calls =
        subst (λ n. Calls 0 (take n (c ∷ cs) ++ []) f (S.fwrite f (c ∷ cs)).1) z
          (write (c ∷ cs) stay);
    ended =
        inr (record { before = f; made = stay; left = (c, cs, refl); wrote_none = z; last = refl });
  }

  write_loop-Wrote :
      (n : ℕ) (remain : Text) (f : S.File)
      → length remain < n
      → Wrote remain f (write_loop S n remain f)
  unfolding write_loop
  write_loop-Wrote zero remain f h = absurd (omega arith)
  write_loop-Wrote (suc n) [] f h = record {
    next = f;
    out = [];
    rest = [];
    ran = refl;
    split = refl;
    text = sym (append-nil (S.contents f));
    calls = stay;
    ended = inl refl;
  }
  write_loop-Wrote (suc n) (c ∷ cs) f h =
      let x = (S.fwrite f (c ∷ cs)).0 in
      elim (Bool-cases (x == 0)) [
        | inl z ↦ rw z (stall c cs f ((==_iff x 0).0 z))
        | inr nz ↦ rw nz (
            after (c ∷ cs) f (write_loop S n (drop x (c ∷ cs)) (S.fwrite f (c ∷ cs)).1) (
              write_loop-Wrote n (drop x (c ∷ cs)) (S.fwrite f (c ∷ cs)).1
                (ground (arith, length-drop x (c ∷ cs)))))
      ]

  -- `append` ends. It puts the line at the end of the file by writes alone; a last part of the line is
  -- missing only when, after the writes of the part before it, the write of just that part writes
  -- nothing, which then is the last one.
  pub append-Wrote : (line : Text) (f : S.File) → Wrote line f (append S line f)
  unfolding append
  append-Wrote line f = after line f (append S line f) (
      write_loop-Wrote (length line + 1) (drop (S.fwrite f line).0 line) (S.fwrite f line).1
        (omega (arith, length-drop (S.fwrite f line).0 line)))
