-- ===== src/Logger/AsyncLogging/Log.antt =====
-- The invariant of the logger's machine, and the step that logs a line into the current buffer of
-- src/logger/AsyncLogging.cpp.
use mathlib.Core.List.{append-nil, append_assoc}
use my_network_library.Prelude.{
  ◌<◌, ◌≡◌, refl, ap, ◌∙◌, Bool, true, false, Option, none, some, List, [], ◌∷◌, ◌++◌, lt→ltb,
  length, arith,
}
use my_network_library.Prelude.Text.{Text}
use my_network_library.Logger.FixedBuffer.{FixedBuffer, large_buffer, avail, construct, reset}
use my_network_library.Logger.FixedBuffer
use my_network_library.Logger.AsyncLogging.{
  Backend, append, append_to, spare, written, keep_two, pop_back, give_back, recycle,
}
use my_network_library.Logger.AsyncLogging.Threads.{
  Logger, Event, log, step, logged, everything, empty_buffer, Spare,
}

-- what the back end holds between its steps
pub data Phase : Backend → Bool → Type 0 where
  idle : Phase (record { buffer1 = empty_buffer; buffer2 = empty_buffer; to_write = [] }) false
  one :
      (a : FixedBuffer) (bs : List FixedBuffer)
      → Phase (record { buffer1 = none; buffer2 = empty_buffer; to_write = a ∷ bs }) true
  two :
      (a b : FixedBuffer) (bs : List FixedBuffer)
      → Phase (record { buffer1 = none; buffer2 = none; to_write = a ∷ b ∷ bs }) true

pub record Fine (l : Logger) : Type 0 where
  pub buffer : FixedBuffer
  pub held : l.front.current ≡ some buffer
  pub spared : Spare l.front.next l.front.buffers
  pub phase : Phase l.back l.collected

pub written-append : (bs cs : List FixedBuffer) → written (bs ++ cs) ≡ written bs ++ written cs
unfolding written
written-append [] cs = refl
written-append (b ∷ bs) cs =
    rw (written-append bs cs, append_assoc b.data_ (written bs) (written cs))

pub append-fits :
    (b : FixedBuffer) (line : Text)
    → length line < avail large_buffer b
    → FixedBuffer.append large_buffer b line ≡ record { data_ = b.data_ ++ line }
unfolding FixedBuffer.append FixedBuffer.is_below avail
append-fits b line h = ground arith

abbrev pub Ready : Backend
Ready = record { buffer1 = empty_buffer; buffer2 = empty_buffer; to_write = [] }

-- both buffers come back, whatever was collected
pub recycle-Phase : (k : Backend) → Phase k true → recycle k ≡ some Ready
unfolding recycle give_back keep_two pop_back reset
recycle-Phase _ (one a []) = refl
recycle-Phase _ (one a (b ∷ bs)) = refl
recycle-Phase _ (two a b bs) = refl

-- the outcome of a step: it is no fault, and the line is added at the end
pub record Stepped (l : Logger) (e : Event) : Type 0 where
  pub next : Logger
  pub ran : step l e ≡ some next
  pub fine : Fine next
  pub text : everything next ≡ everything l ++ logged (e ∷ [])

pub text-append :
    (passed out : Text) (bs : List FixedBuffer) (b line : Text)
    → passed ++ (out ++ (written bs ++ (b ++ line)))
      ≡ (passed ++ (out ++ (written bs ++ b))) ++ line
text-append passed out bs b line = rw (
  append_assoc passed (out ++ (written bs ++ b)) line,
  append_assoc out (written bs ++ b) line,
  append_assoc (written bs) b line,
)

pub text-push :
    (passed out : Text) (bs : List FixedBuffer) (b : FixedBuffer) (line : Text)
    → passed ++ (out ++ (written (bs ++ b ∷ []) ++ line))
      ≡ (passed ++ (out ++ (written bs ++ b.data_))) ++ line
unfolding written
text-push passed out bs b line =
    ap (λ t. passed ++ (out ++ (t ++ line))) (written-append bs (b ∷ []))
    ∙ ap (λ t. passed ++ (out ++ ((written bs ++ t) ++ line))) (append-nil b.data_)
    ∙ ap (λ t. passed ++ (out ++ t)) (append_assoc (written bs) b.data_ line)
    ∙ text-append passed out bs b.data_ line

pub nonempty_push : (bs : List FixedBuffer) (b : FixedBuffer) → Spare none (bs ++ b ∷ [])
nonempty_push [] b = (b, [], refl)
nonempty_push (a ∷ bs) b = (a, bs ++ b ∷ [], refl)

pub spare-empty :
    (o : Option FixedBuffer) (bs : List FixedBuffer) → Spare o bs → (spare o).data_ ≡ []
unfolding construct
spare-empty none bs h = refl
spare-empty (some b) bs h = h

pub avail-empty : (b : FixedBuffer) → b.data_ ≡ [] → avail large_buffer b ≡ large_buffer
unfolding avail
avail-empty b h = rw h refl

pub logged_line : (line : Text) → logged (log line ∷ []) ≡ line
unfolding logged
logged_line line = append-nil line

pub log-room :
    (l : Logger) (b : FixedBuffer) (line : Text)
    → l.front.current ≡ some b
    → Spare l.front.next l.front.buffers
    → Phase l.back l.collected
    → length line < avail large_buffer b
    → Stepped l (log line)
unfolding step append append_to everything
log-room l b line e s p fits = record {
  next = record l {
    front = record l.front { current = some (record { data_ = b.data_ ++ line }) };
  };
  ran = rw (e, append-fits b line fits, lt→ltb (length line) (avail large_buffer b) fits);
  fine = record { buffer = record { data_ = b.data_ ++ line }; held = refl; spared = s; phase = p };
  text =
      rw (logged_line line, e)
        (text-append l.passed (written l.back.to_write) l.front.buffers b.data_ line);
}
