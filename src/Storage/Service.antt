-- ===== src/Storage/Service.antt =====
-- What the key-value server of src/storage/SkipListWorker.cpp promises: commands on a dictionary and a
-- store file, with no skip list, no heap and no randomness.
use my_network_library.Prelude.{Bool, ◌||◌, Option, none, some, List, [], ◌∷◌, ◌++◌, if◌then◌else◌}
use my_network_library.Prelude.Text.{Text, codes}
use my_network_library.Storage.Table.{Table, lookup, put, remove}
use my_network_library.Storage.DumpFile.{is_empty, dump_text, lines, get_key_value_from_string}
use my_network_library.Storage.Worker.{
  ParseState, err, set, get, del, load, dump, text_order, line, not_existed, handler_err,
}

pub record Service : Type 0 where
  pub table : Table Text Text
  pub disk : Option Text
  pub writable : Bool

abbrev pub set_reply : Text → Option Text → Text
set_reply key none = line (codes "ok : SET successfully")
set_reply key (some _) = codes "warning : " ++ key ++ line (codes "is already exited")

abbrev pub del_reply : Text → Option Text → Text
del_reply key none = not_existed key
del_reply key (some _) = line (codes "ok : DEL successfully")

abbrev pub get_reply : Text → Option Text → Text
get_reply key none = not_existed key
get_reply key (some value) = codes "ok : " ++ line value

-- the pairs of the lines, put one after the other
unfoldable pub load_table : List Text → Text × Text → Table Text Text → Table Text Text
load_table [] kv t = t
load_table (l ∷ ls) kv t =
    let (key, value) = get_key_value_from_string l kv in
    load_table ls (key, value)
      (if is_empty key || is_empty value then t else put text_order key value t)

unfoldable pub load_disk : Option Text → Table Text Text → Table Text Text
load_disk none t = t
load_disk (some text) t = load_table (lines text) ([], []) t

unfoldable pub serve : ParseState → List Text → Service → Text × Service
serve err ws s = (handler_err, s)
serve set (_ ∷ key ∷ value ∷ []) s = (
  set_reply key (lookup text_order key s.table),
  record s { table = put text_order key value s.table },
)
serve set ws s = (line (codes "error : please enter a correct command : SET key value"), s)
serve get (_ ∷ key ∷ []) s = (get_reply key (lookup text_order key s.table), s)
serve get ws s = (line (codes "please enter a correct command : GET key"), s)
serve del (_ ∷ key ∷ []) s = (
  del_reply key (lookup text_order key s.table),
  record s { table = remove text_order key s.table },
)
serve del ws s = (line (codes "error : please enter a correct command : DEL key"), s)
serve load ws s =
    (line (codes "ok : load file successfully"), record s { table = load_disk s.disk s.table })
serve dump ws s = (
  line (codes "ok : dump file successfully"),
  if s.writable then record s { disk = some (dump_text s.table) } else s,
)
