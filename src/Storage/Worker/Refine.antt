-- ===== src/Storage/Worker/Refine.antt =====
-- The command interpreter of src/storage/SkipListWorker.cpp refines the service.
use my_network_library.Prelude.{
  ◌+◌, ◌≡◌, refl, ◌∙◌, ap, ◌||◌, Option, none, some, List, [], ◌∷◌, arith, if◌then◌else◌,
  Bool-cases, inl, inr,
}
use my_network_library.Prelude.Text.{Text}
use my_network_library.Storage.Table.{lookup, put}
use my_network_library.Storage.SkipList.Spine.{Cell}
use my_network_library.Storage.SkipList.View.{Represents, table}
use my_network_library.Storage.SkipList.Search.{search_element-lookup}
use my_network_library.Storage.SkipList.Refine.{is_some, insert_element-put, delete_element-remove}
use my_network_library.Storage.SkipList.Display.{entries-table}
use my_network_library.Storage.DumpFile.{is_empty, dump_text, lines, get_key_value_from_string}
use my_network_library.Storage.Worker.{
  Env, Worker, ParseState, err, set, get, del, load, dump, text_order, insert_db, load_lines,
  load_from, load_file, handler_set, handler_get, handler_del, handler_dump, handler_load, handle,
}
use my_network_library.Storage.Service.{Service, load_table, load_disk, serve}

abbrev pub Cells : Type 0
Cells = List (Cell Text Text)

-- the service that a worker whose list stands for `cells` offers
abbrev pub view : Worker → Cells → Service
view w cells = record { table = table cells; disk = w.disk; writable = w.writable }

abbrev pub IsSound : Worker → Cells → Type 0
IsSound w cells = Represents text_order w.db cells

-- a run that ends without a fault, with the reply and in the state of the service
pub record Outcome (run : Option (Text × Worker)) (spec : Text × Service) : Type 0 where
  pub next : Worker
  pub cells : Cells
  pub ran : run ≡ some (spec.0, next)
  pub sound : IsSound next cells
  pub state : view next cells ≡ spec.1

module _ (e : Env) where
  record Stored (w : Worker) (cells : Cells) (key value : Text) : Type 0 where
    next : Worker
    cells' : Cells
    ran : insert_db e w key value ≡ some (is_some (lookup text_order key (table cells)), next)
    sound : IsSound next cells'
    state :
        view next cells' ≡ record (view w cells) { table = put text_order key value (table cells) }

  insert_db-Stored :
      (w : Worker) (cells : Cells) (key value : Text) → IsSound w cells → Stored w cells key value
  unfolding insert_db
  insert_db-Stored w cells key value r =
      let i =
        insert_element-put text_order key w.db cells value (e.alloc w.db.heap) (e.rand w.calls) r
          (e.alloc_fresh w.db.heap r.bounded) (e.alloc_ne_null w.db.heap) (e.rand_even w.calls) in
      record {
        next = record w { db = i.next; calls = w.calls + 1 };
        cells' = i.cells';
        ran = rw i.ran;
        sound = i.repr;
        state = ap (λ t. record { table = t; disk = w.disk; writable = w.writable }) i.dictionary;
      }

  handler_set-serve :
      (w : Worker) (cells : Cells) (ws : List Text)
      → IsSound w cells
      → Outcome (handler_set e w ws) (serve set ws (view w cells))
  unfolding handler_set serve
  handler_set-serve w cells (c ∷ key ∷ value ∷ []) r =
      let i = insert_db-Stored w cells key value r in
      record {
        next = i.next;
        cells = i.cells';
        ran = rw i.ran (ground arith);
        sound = i.sound;
        state = i.state;
      }
  handler_set-serve w cells _ r = record {
    next = w;
    cells = cells;
    ran = refl;
    sound = r;
    state = refl;
  }

  record Loaded (w : Worker) (cells : Cells) (ls : List Text) (kv : Text × Text) : Type 0 where
    next : Worker
    cells' : Cells
    ran : load_lines e ls kv w ≡ some next
    sound : IsSound next cells'
    state : view next cells' ≡ record (view w cells) { table = load_table ls kv (table cells) }

  load_lines-Loaded :
      (w : Worker) (cells : Cells) (ls : List Text) (kv : Text × Text)
      → IsSound w cells
      → Loaded w cells ls kv
  unfolding load_lines load_table
  load_lines-Loaded w cells [] kv r = record {
    next = w;
    cells' = cells;
    ran = refl;
    sound = r;
    state = refl;
  }
  load_lines-Loaded w cells (l ∷ ls) kv r =
      let (key, value) = get_key_value_from_string l kv in
      elim (Bool-cases (is_empty key || is_empty value)) [
        | inl skip ↦
            let d = load_lines-Loaded w cells ls (key, value) r in
            record {
              next = d.next;
              cells' = d.cells';
              ran = rw skip d.ran;
              sound = d.sound;
              state = rw skip d.state;
            }
        | inr add ↦
            let i = insert_db-Stored w cells key value r in
            let d = load_lines-Loaded i.next i.cells' ls (key, value) i.sound in
            record {
              next = d.next;
              cells' = d.cells';
              ran = rw (add, i.ran) d.ran;
              sound = d.sound;
              state = rw add (
                  d.state
                  ∙ ap (λ (s : Service). record s { table = load_table ls (key, value) s.table })
                      i.state);
            }
      ]

  -- `loadFile` puts the pairs of the store file
  pub load_from-load_disk :
      (w : Worker) (cells : Cells) (file : Option Text)
      → IsSound w cells
      → (w' : Worker) × (cells' : Cells) × (load_from e file w ≡ some w')
        × IsSound w' cells'
        × (view w' cells' ≡ record (view w cells) { table = load_disk file (table cells) })
  unfolding load_from load_disk
  load_from-load_disk w cells none r = (w, cells, refl, r, refl)
  load_from-load_disk w cells (some text) r =
      let d = load_lines-Loaded w cells (lines text) ([], []) r in
      (d.next, d.cells', d.ran, d.sound, d.state)

handler_get-serve :
    (w : Worker) (cells : Cells) (ws : List Text)
    → IsSound w cells
    → Outcome (handler_get w ws) (serve get ws (view w cells))
unfolding handler_get serve
handler_get-serve w cells (c ∷ key ∷ []) r = record {
  next = w;
  cells = cells;
  ran = rw (search_element-lookup text_order key w.db cells r) (ground arith);
  sound = r;
  state = refl;
}
handler_get-serve w cells _ r = record {
  next = w;
  cells = cells;
  ran = refl;
  sound = r;
  state = refl;
}

handler_del-serve :
    (w : Worker) (cells : Cells) (ws : List Text)
    → IsSound w cells
    → Outcome (handler_del w ws) (serve del ws (view w cells))
unfolding handler_del serve
handler_del-serve w cells (c ∷ key ∷ []) r =
    let d = delete_element-remove text_order key w.db cells r in
    record {
      next = record w { db = d.next };
      cells = d.cells';
      ran = rw d.ran (ground arith);
      sound = d.repr;
      state = ap (λ t. record { table = t; disk = w.disk; writable = w.writable }) d.dictionary;
    }
handler_del-serve w cells _ r = record {
  next = w;
  cells = cells;
  ran = refl;
  sound = r;
  state = refl;
}

pub handler_dump-serve :
    (w : Worker) (cells : Cells) (ws : List Text)
    → IsSound w cells
    → Outcome (handler_dump w) (serve dump ws (view w cells))
unfolding handler_dump serve
handler_dump-serve w cells ws r = record {
  next = if w.writable then record w { disk = some (dump_text (table cells)) } else w;
  cells = cells;
  ran = rw (entries-table text_order w.db cells r);
  sound = ground (arith, r);
  state = ground arith;
}

handler_load-serve :
    (e : Env) (w : Worker) (cells : Cells) (ws : List Text)
    → IsSound w cells
    → Outcome (handler_load e w) (serve load ws (view w cells))
unfolding handler_load load_file serve
handler_load-serve e w cells ws r =
    let (w', cells', ran, sound, state) = load_from-load_disk e w cells w.disk r in
    record { next = w'; cells = cells'; ran = rw ran; sound = sound; state = state }

-- Each handler, from any sound state and for any argument list, ends without a fault, with the
-- reply of the service, in a sound state for the service's new state.
pub handle-serve :
    (e : Env) (w : Worker) (cells : Cells) (st : ParseState) (ws : List Text)
    → IsSound w cells
    → Outcome (handle e w st ws) (serve st ws (view w cells))
unfolding handle
handle-serve e w cells err ws r = record {
  next = w;
  cells = cells;
  ran = unfold serve in refl;
  sound = r;
  state = unfold serve in refl;
}
handle-serve e w cells set ws r = handler_set-serve e w cells ws r
handle-serve e w cells get ws r = handler_get-serve w cells ws r
handle-serve e w cells del ws r = handler_del-serve w cells ws r
handle-serve e w cells load ws r = handler_load-serve e w cells ws r
handle-serve e w cells dump ws r = handler_dump-serve w cells ws r
