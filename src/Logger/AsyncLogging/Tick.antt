-- ===== src/Logger/AsyncLogging/Tick.antt =====
-- The steps that swap the buffers of src/logger/AsyncLogging.cpp: a line that does not fit, and the
-- rounds of the back end.
use mathlib.Core.Path.{subst}
use mathlib.Core.List.{append-nil, append_assoc}
use my_network_library.Prelude.{
  ◌<◌, ◌≡◌, refl, sym, ap, ◌∙◌, Bool, true, false, Option, none, some, List, [], ◌∷◌, ◌++◌, ltb,
  ltb→lt, length, Bool-cases, inl, inr,
}
use my_network_library.Prelude.Text.{Text}
use my_network_library.Logger.FixedBuffer.{FixedBuffer, large_buffer, avail, construct, reset}
use my_network_library.Logger.FixedBuffer
use my_network_library.Logger.AsyncLogging.{
  AsyncLogging, Backend, append, append_to, spare, collect, collect_from, written, round_asserts,
}
use my_network_library.Logger.AsyncLogging.Threads.{
  Logger, log, tick, step, logged, current_text, everything, empty_buffer, Spare,
}
use my_network_library.Logger.AsyncLogging.Log.{
  Phase, idle, one, two, Fine, written-append, append-fits, Ready, recycle-Phase, Stepped,
  text-push, nonempty_push, spare-empty, avail-empty, logged_line, log-room,
}

-- the full buffer is pushed, and the line goes to an empty one
pub log-swap :
    (l : Logger) (b : FixedBuffer) (line : Text)
    → l.front.current ≡ some b
    → Spare l.front.next l.front.buffers
    → Phase l.back l.collected
    → length line < large_buffer
    → ltb (length line) (avail large_buffer b) ≡ false
    → Stepped l (log line)
unfolding step append append_to everything
log-swap l b line e s p small full =
    let clean = spare-empty l.front.next l.front.buffers s in
    let put : FixedBuffer.append large_buffer (spare l.front.next) line ≡ record { data_ = line } =
      append-fits (spare l.front.next) line (rw (avail-empty (spare l.front.next) clean) small)
      ∙ ap (λ t. record { data_ = t ++ line }) clean in
    record {
      next = record l {
        front = record {
          current = some (record { data_ = line });
          next = none;
          buffers = l.front.buffers ++ b ∷ [];
        };
      };
      ran = rw (e, full, put);
      fine = record {
        buffer = record { data_ = line };
        held = refl;
        spared = nonempty_push l.front.buffers b;
        phase = p;
      };
      text =
          rw (logged_line line, e)
            (text-push l.passed (written l.back.to_write) l.front.buffers b line);
    }

pub log-Stepped :
    (l : Logger) (line : Text) → Fine l → length line < large_buffer → Stepped l (log line)
log-Stepped l line f small = elim (Bool-cases (ltb (length line) (avail large_buffer f.buffer))) [
  | inl room ↦
      log-room l f.buffer line f.held f.spared f.phase
        (ltb→lt (length line) (avail large_buffer f.buffer) room)
  | inr full ↦ log-swap l f.buffer line f.held f.spared f.phase small full
]

pub no_line : (t : Text) → t ≡ t ++ logged (tick ∷ [])
unfolding logged
no_line t = sym (append-nil t)

-- the buffers are written
pub write-Stepped :
    (s : AsyncLogging) (k : Backend) (passed : Text) (b : FixedBuffer)
    → s.current ≡ some b
    → Spare s.next s.buffers
    → Phase k true
    → Stepped (record { front = s; back = k; passed = passed; collected = true }) tick
unfolding step
write-Stepped s k passed b e sp p = record {
  next = record {
    front = s;
    back = Ready;
    passed = passed ++ written k.to_write;
    collected = false;
  };
  ran = rw (recycle-Phase k p);
  fine = record { buffer = b; held = e; spared = sp; phase = idle };
  text =
      unfold everything written in
      append_assoc passed (written k.to_write) (written s.buffers ++ current_text s.current)
      ∙ no_line (passed ++ (written k.to_write ++ (written s.buffers ++ current_text s.current)));
}

pub text-collect :
    (passed : Text) (bs : List FixedBuffer) (b : FixedBuffer)
    → passed ++ (written (bs ++ b ∷ []) ++ []) ≡ passed ++ (written bs ++ b.data_)
unfolding written
text-collect passed bs b =
    ap (λ t. passed ++ t)
      (append-nil (written (bs ++ b ∷ []))
        ∙ written-append bs (b ∷ [])
        ∙ ap (λ t. written bs ++ t) (append-nil b.data_))

pub cons_of_push :
    (bs : List FixedBuffer) (b : FixedBuffer)
    → (a : FixedBuffer) × (as' : List FixedBuffer) × (bs ++ b ∷ [] ≡ a ∷ as')
cons_of_push [] b = (b, [], refl)
cons_of_push (a ∷ bs) b = (a, bs ++ b ∷ [], refl)

pub collect-Stepped :
    (b : FixedBuffer) (next : Option FixedBuffer) (bs : List FixedBuffer) (passed : Text)
    → Spare next bs
    → Stepped
        (record {
          front = record { current = some b; next = next; buffers = bs };
          back = Ready;
          passed = passed;
          collected = false;
        })
        tick
unfolding step collect collect_from round_asserts
collect-Stepped b (some n) bs passed sp =
    let (a, as', e) = cons_of_push bs b in
    record {
      next = record {
        front = record { current = empty_buffer; next = some n; buffers = [] };
        back = record { buffer1 = none; buffer2 = empty_buffer; to_write = bs ++ b ∷ [] };
        passed = passed;
        collected = true;
      };
      ran = refl;
      fine = record {
        buffer = record { data_ = [] };
        held = refl;
        spared = sp;
        phase = rw e (one a as');
      };
      text =
          unfold everything written in
          (text-collect passed bs b ∙ no_line (passed ++ (written bs ++ b.data_)));
    }
collect-Stepped b none bs passed (a, as', e) = record {
  next = record {
    front = record { current = empty_buffer; next = empty_buffer; buffers = [] };
    back = record { buffer1 = none; buffer2 = none; to_write = bs ++ b ∷ [] };
    passed = passed;
    collected = true;
  };
  ran = refl;
  fine = record {
    buffer = record { data_ = [] };
    held = refl;
    spared = refl;
    phase = let (c, cs, f) = cons_of_push as' b in rw (e, f) (two a c cs);
  };
  text =
      unfold everything written in
      (text-collect passed bs b ∙ no_line (passed ++ (written bs ++ b.data_)));
}

pub tick-Phase :
    (s : AsyncLogging) (k : Backend) (passed : Text) (c : Bool) (b : FixedBuffer)
    → s.current ≡ some b
    → Spare s.next s.buffers
    → Phase k c
    → Stepped (record { front = s; back = k; passed = passed; collected = c }) tick
tick-Phase s _ passed _ b e sp idle =
    subst
      (λ o.
        Stepped
          (record {
            front = record { current = o; next = s.next; buffers = s.buffers };
            back = Ready;
            passed = passed;
            collected = false;
          })
          tick)
      (sym e) (collect-Stepped b s.next s.buffers passed sp)
tick-Phase s _ passed _ b e sp (one a bs) =
    write-Stepped s (record { buffer1 = none; buffer2 = empty_buffer; to_write = a ∷ bs }) passed b
      e sp (one a bs)
tick-Phase s _ passed _ b e sp (two a c bs) =
    write-Stepped s (record { buffer1 = none; buffer2 = none; to_write = a ∷ c ∷ bs }) passed b e sp
      (two a c bs)
