-- ===== src/Logger/AppendFile.antt =====
-- `AppendFile` of src/logger/FileUtil.h and .cpp, over the `FILE` functions of the C library.
pub mod Written
use my_network_library.Prelude.{
  ℕ, zero, suc, ◌+◌, ◌-◌, ◌≤◌, ◌≡◌, Bool, true, false, Option, none, some, List, [], ◌∷◌, ◌++◌,
  ◌==◌, if◌then◌else◌, length, take, drop,
}
use my_network_library.Prelude.Text.{Text}

-- A `FILE` open for appending. `fwrite` returns how many bytes it has written, at most those it is
-- given, and appends them.
pub record Stream : Type 1 where
  pub File : Type 0
  pub fwrite : File → Text → ℕ × File
  pub fflush : File → File
  pub contents : File → Text
  pub fwrite_le : (f : File) (t : Text) → (fwrite f t).0 ≤ length t
  pub contents-fwrite :
      (f : File) (t : Text) → contents (fwrite f t).1 ≡ contents f ++ take (fwrite f t).0 t
  pub contents-fflush : (f : File) → contents (fflush f) ≡ contents f

module _ (S : Stream) where
  -- the loop of `append`, of what remains to be written; `none` when the fuel has run out
  unfoldable pub write_loop : ℕ → Text → S.File → Option S.File
  write_loop zero remain f = none
  write_loop (suc n) [] f = some f
  write_loop (suc n) (c ∷ cs) f =
      let (x, f') = S.fwrite f (c ∷ cs) in
      let rest = write_loop n (drop x (c ∷ cs)) f' in if x == 0 then some f' else rest

  -- The first `write` is not followed by a test for 0, so one that writes nothing is made again.
  unfoldable pub append : Text → S.File → Option S.File
  unfolding write_loop
  append line f = let (n, f') = S.fwrite f line in write_loop (length line + 1) (drop n line) f'
