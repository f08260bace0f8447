-- ===== src/Storage/Worker/Restart.antt =====
-- A database of src/storage/SkipList.h that is made by the default constructor, which loads the store file.
use my_network_library.Prelude.{
  ◌≡◌, refl, ap, ◌∙◌, Bool, true, false, Option, none, some, [], if◌then◌else◌,
}
use my_network_library.Prelude.Text.{Text}
use my_network_library.Storage.Heap.{Heap, null}
use my_network_library.Storage.SkipList.{construct}
use my_network_library.Storage.SkipList.View.{table, IsSorted-table}
use my_network_library.Storage.SkipList.Display.{construct-Represents}
use my_network_library.Storage.DumpFile.{dump_text}
use my_network_library.Storage.DumpFile.RoundTrip.{IsStorable, load-dump}
use my_network_library.Storage.Service.{Service, load_disk, serve}
use my_network_library.Storage.Worker.{Env, Worker, dump, text_order, load_file, handler_dump}
use my_network_library.Storage.Worker.Refine.{
  Cells, view, IsSound, handler_dump-serve, load_from-load_disk,
}

abbrev empty_heap : Heap Text Text
empty_heap = record { nodes = λ p. none; links = λ p i. null; brk = 0 }

-- before the call of `loadFile`
abbrev pub unloaded : Env → Option Text → Bool → Worker
unloaded e disk writable = record {
  db = construct 32 (e.alloc empty_heap) [] [];
  disk = disk;
  writable = writable;
  calls = 0;
}

-- the default constructor, with the store file
unfoldable pub construct_default : Env → Option Text → Bool → Option Worker
unfolding construct load_file
construct_default e disk writable = load_file e (unloaded e disk writable)

-- the store file written, and read again by a new database
pub record Restarted (e : Env) (w : Worker) (cells : Cells) : Type 0 where
  pub reply : Text
  pub dumped : Worker
  pub next : Worker
  pub cells' : Cells
  pub dumps : handler_dump w ≡ some (reply, dumped)
  pub starts : construct_default e dumped.disk dumped.writable ≡ some next
  pub sound : IsSound next cells'
  pub same : table cells' ≡ table cells

-- When the store file can be written and the keys and values are storable, DUMP and then the default
-- constructor of a new database end without a fault, and the new database is well formed and stands
-- for the same dictionary.
pub construct_default-Restarted :
    (e : Env) (w : Worker) (cells : Cells)
    → IsSound w cells
    → w.writable ≡ true
    → IsStorable (table cells)
    → Restarted e w cells
unfolding construct_default load_file serve load_disk table
construct_default-Restarted e w cells r writable storable =
    let d = handler_dump-serve w cells [] r in
    let disk : d.next.disk ≡ some (dump_text (table cells)) =
      ap (λ (s : Service). s.disk) d.state ∙ chosen w.writable writable in
    let fresh = unloaded e d.next.disk d.next.writable in
    let (w', cells', ran, sound, state) = load_from-load_disk e fresh [] d.next.disk (
      construct-Represents text_order 32 (e.alloc empty_heap) [] [] (e.alloc_ne_null empty_heap)) in
    record {
      reply = (serve dump [] (view w cells)).0;
      dumped = d.next;
      next = w';
      cells' = cells';
      dumps = d.ran;
      starts = ran;
      sound = sound;
      same = ap (λ (s : Service). s.table) state ∙ ap (λ f. load_disk f (table [])) disk ∙ loads;
    }
  where
    chosen :
        (b : Bool)
        → b ≡ true
        → (if b
            then record (view w cells) { disk = some (dump_text (table cells)) }
            else view w cells).disk
          ≡ some (dump_text (table cells))
    chosen true h = refl
    chosen false h = cc

    loads : load_disk (some (dump_text (table cells))) (table []) ≡ table cells
    loads = load-dump (table cells) storable (IsSorted-table text_order cells r.sorted)
