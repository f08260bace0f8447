-- ===== src/Logger/LogFile/Batches.antt =====
-- The buffers that the back end of src/logger/AsyncLogging.cpp hands to src/logger/LogFile.cpp.
use mathlib.Core.Path.{subst}
use mathlib.Core.List.{append-nil, append_assoc}
use my_network_library.Prelude.{
  ℕ, zero, suc, ◌⊎◌, Bool-cases, ◌+◌, ◌<◌, ◌≡◌, refl, sym, ap, ◌∙◌, inl, inr, Option, some, List,
  [], ◌∷◌, ◌++◌, leb, ◌==◌, if◌then◌else◌, length, take, arith,
}
use my_network_library.Prelude.Text.{Text}
use my_network_library.Logger.FixedBuffer.{FixedBuffer}
use my_network_library.Logger.AsyncLogging.{written}
use my_network_library.Logger.AppendFile.{Stream}
use my_network_library.Logger.AppendFile.Written.{Stalled, Calls, stay, write, flush, append-Wrote}
use my_network_library.Logger.LogFile.{LogFile, append, counted, write_buffers}

-- how many calls of `append` there are to a flush: at least one
abbrev pub period : ℕ → ℕ
period n = if n == 0 then 1 else n

abbrev pub times : ℕ → ℕ → ℕ
times zero n = 0
times (suc q) n = n + times q n

times-plus : (p q n : ℕ) → times (p + q) n ≡ times p n + times q n
times-plus zero q n = ap (λ k. times k n) {x = 0 + q} {y = q} (omega arith) ∙ omega arith
times-plus (suc p) q n =
    ap (λ k. times k n) {x = suc p + q} {y = suc (p + q)} (omega arith)
    ∙ omega (arith, times-plus p q n)

module _ (S : Stream) where
  -- a run that hands on `k` pieces, which make up `text`
  pub record Appended (text : Text) (k : ℕ) (l : LogFile S) (run : Option (LogFile S))
      : Type 0 where
    pub next : LogFile S
    -- how often `fflush` was called
    pub flushes : ℕ
    pub ran : run ≡ some next
    pub calls : Calls S flushes text l.file next.file
    pub contents : S.contents next.file ≡ S.contents l.file ++ text
    pub same : next.flush_every ≡ l.flush_every
    pub below : next.count < period next.flush_every
    pub count : next.count + times flushes (period l.flush_every) ≡ l.count + k

  calls-append :
      {k m : ℕ} {t u : Text} {f g h : S.File}
      → Calls S k t f g
      → Calls S m u g h
      → Calls S (k + m) (t ++ u) f h
  calls-append {k} {m} {t} {u} {f} {g} {h} stay d =
      subst (λ x. Calls S x u f h) {x = m} {y = 0 + m} (omega arith) d
  calls-append {k} {m} {t} {u} {f} {g} {h} (write {out} s c) d =
      subst (λ x. Calls S (k + m) x f h) (sym (append_assoc (take (S.fwrite f s).0 s) out u))
        (write s (calls-append c d))
  calls-append {k} {m} {t} {u} {f} {g} {h} (flush {k = n} c) d =
      subst (λ x. Calls S x (t ++ u) f h) {x = suc (n + m)} {y = suc n + m} (omega arith)
        (flush (calls-append c d))

  calls-flush :
      (k : ℕ) (t : Text) (f g : S.File) → Calls S k t f g → Calls S (suc k) t f (S.fflush g)
  calls-flush k t f g c =
      subst (λ x. Calls S x t f (S.fflush g)) {x = k + 1} {y = suc k} (omega arith)
        (subst (λ x. Calls S (k + 1) x f (S.fflush g)) (append-nil t) (calls-append c (flush stay)))

  out_all : (line out rest : Text) → out ++ rest ≡ line → rest ≡ [] → out ≡ line
  out_all line out rest h k = sym (append-nil out) ∙ ap (λ t. out ++ t) (sym k) ∙ h

  counted-Appended :
      (line : Text) (l : LogFile S) (f : S.File)
      → l.count < period l.flush_every
      → Calls S 0 line l.file f
      → S.contents f ≡ S.contents l.file ++ line
      → Appended line 1 l (some (counted S l f))
  counted-Appended line l f h calls text = elim (Bool-cases (leb l.flush_every (l.count + 1))) [
    | inl t ↦ record {
      next = record l { count = 0; file = S.fflush f };
      flushes = 1;
      ran = rw t refl;
      calls = calls-flush 0 line l.file f calls;
      contents = S.contents-fflush f ∙ text;
      same = refl;
      below = ground arith;
      count = ground (arith, h, t);
    }
    | inr t ↦ record {
      next = record l { count = l.count + 1; file = f };
      flushes = 0;
      ran = rw t refl;
      calls = calls;
      contents = text;
      same = refl;
      below = ground (arith, h, t);
      count = omega arith;
    }
  ]

  -- no write of some bytes writes none
  abbrev pub NeverStalls : Type 0
  NeverStalls = (g : S.File) (c : ℕ) (cs : Text) → ¬ ((S.fwrite g (c ∷ cs)).0 ≡ 0)

  nothing_left :
      (out rest : Text) (f next : S.File)
      → NeverStalls
      → (rest ≡ []) ⊎ Stalled S out rest f next
      → rest ≡ []
  nothing_left out rest f next going (inl e) = e
  nothing_left out rest f next going (inr s) =
      let (c, cs, e) = s.left in
      absurd (going s.before c cs (subst (λ t. (S.fwrite s.before t).0 ≡ 0) e s.wrote_none))

  append-Appended :
      (line : Text) (l : LogFile S)
      → NeverStalls
      → l.count < period l.flush_every
      → Appended line 1 l (append S line l)
  unfolding append
  append-Appended line l going h =
      let w = append-Wrote S line l.file in
      let all =
        out_all line w.out w.rest w.split (nothing_left w.out w.rest l.file w.next going w.ended) in
      rw w.ran (
        counted-Appended line l w.next h (subst (λ t. Calls S 0 t l.file w.next) all w.calls)
          (w.text ∙ ap (λ t. S.contents l.file ++ t) all))

  -- When no write stalls, the loop that hands the collected buffers to `append` ends. All their bytes
  -- are written to the end of the file, in order, and `fflush` is called once for every `flushEveryN_`
  -- calls, counted from the last flush, or at every call when `flushEveryN_` is 0.
  pub write_buffers-Appended :
      (bs : List FixedBuffer) (l : LogFile S)
      → NeverStalls
      → l.count < period l.flush_every
      → Appended (written bs) (length bs) l (write_buffers S bs l)
  unfolding write_buffers written
  write_buffers-Appended [] l going h = record {
    next = l;
    flushes = 0;
    ran = refl;
    calls = stay;
    contents = sym (append-nil (S.contents l.file));
    same = refl;
    below = h;
    count = omega arith;
  }
  write_buffers-Appended (b ∷ bs) l going h =
      let a = append-Appended b.data_ l going h in
      let r = write_buffers-Appended bs a.next going a.below in
      record {
        next = r.next;
        flushes = a.flushes + r.flushes;
        ran = rw (a.ran) r.ran;
        calls = calls-append a.calls r.calls;
        contents =
            r.contents
            ∙ ap (λ t. t ++ written bs) a.contents
            ∙ append_assoc (S.contents l.file) b.data_ (written bs);
        same = r.same ∙ a.same;
        below = r.below;
        count = omega (
          arith,
          times-plus a.flushes r.flushes (period l.flush_every),
          r.count,
          a.count,
          ap (λ n. times r.flushes (period n)) a.same,
        );
      }
