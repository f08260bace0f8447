-- ===== src/Logger/AsyncLogging/Lossless.antt =====
-- No line is lost on its way to the log file of src/logger/AsyncLogging.cpp, in any interleaving.
use mathlib.Core.List.{append-nil, append_assoc}
use my_network_library.Prelude.{◌≡◌, refl, sym, ap, ◌∙◌, some, List, [], ◌∷◌, ◌++◌}
use my_network_library.Logger.FixedBuffer.{construct}
use my_network_library.Logger.AsyncLogging.{start, start_backend, written}
use my_network_library.Logger.AsyncLogging.Threads.{
  Logger, start_logger, Event, log, tick, run, logged, AllFit, everything,
}
use my_network_library.Logger.AsyncLogging.Log.{idle, Fine, Stepped}
use my_network_library.Logger.AsyncLogging.Tick.{log-Stepped, tick-Phase}

record Ran (es : List Event) (l : Logger) : Type 0 where
  next : Logger
  ran : run es l ≡ some next
  text : everything next ≡ everything l ++ logged es

logged-cons : (e : Event) (es : List Event) → logged (e ∷ []) ++ logged es ≡ logged (e ∷ es)
unfolding logged
logged-cons (log line) es = rw (append-nil line)
logged-cons tick es = refl

run-step :
    (e : Event) (es : List Event) (l : Logger) (d : Stepped l e) → Ran es d.next → Ran (e ∷ es) l
unfolding run
run-step e es l d r = record {
  next = r.next;
  ran = rw (run, d.ran) r.ran;
  text =
      r.text
      ∙ ap (λ t. t ++ logged es) d.text
      ∙ append_assoc (everything l) (logged (e ∷ [])) (logged es)
      ∙ ap (λ t. everything l ++ t) (logged-cons e es);
}

run-Ran : (es : List Event) (l : Logger) → Fine l → AllFit es → Ran es l
unfolding run logged
run-Ran [] l f h = record { next = l; ran = refl; text = sym (append-nil (everything l)) }
run-Ran (log line ∷ es) l f h =
    let d = log-Stepped l line f h.0 in run-step (log line) es l d (run-Ran es d.next d.fine h.1)
run-Ran (tick ∷ es) l f h =
    let d = tick-Phase l.front l.back l.passed l.collected f.buffer f.held f.spared f.phase in
    run-step tick es l d (run-Ran es d.next d.fine h)

-- However the threads that log lines and the steps of the back end follow one another, if every
-- line is shorter than a large buffer, no step dereferences a null buffer, pops an empty vector or
-- fails an assert, and the bytes passed to the log file together with those in the buffers on their
-- way to it are every line, in the order logged.
pub run-logged :
    (es : List Event)
    → AllFit es
    → (l : Logger) × (run es start_logger ≡ some l) × (everything l ≡ logged es)
unfolding start_logger start start_backend construct everything written
run-logged es h =
    let r =
      run-Ran es start_logger
        (record { buffer = construct; held = refl; spared = refl; phase = idle }) h in
    (r.next, r.ran, r.text)
