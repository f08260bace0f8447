-- ===== src/Storage/Worker.antt =====
-- The command interpreter of the key-value server: src/storage/SkipListWorker.h and .cpp. The state is
-- `_myDB`, with the store file that LOAD and DUMP use.
pub mod Refine
pub mod Words
pub mod Names
pub mod Session
pub mod Restart
use my_network_library.Prelude.{
  ℕ, zero, suc, ◌+◌, ◌-◌, ◌≤◌, ◌≡◌, Bool, true, false, ◌&&◌, ◌||◌, Option, none, some, List, [],
  ◌∷◌, ◌++◌, ◌==◌, leb, if◌then◌else◌, length, drop,
}
use my_network_library.Prelude.Monad.{◌>>=◌}
use my_network_library.Prelude.Text.{
  Text, codes, before, from, text_eq, text_lt, text_eq_iff, text_lt_irrefl, text_lt_trans,
  text_lt_total,
}
use my_network_library.Storage.Order.{KeyOrder}
use my_network_library.Storage.Heap.{Ptr, null, Heap}
use my_network_library.Storage.SkipList.{
  SkipList, construct, entries, search_element, insert_element, delete_element,
}
use my_network_library.Storage.SkipList.Level.{has_even}
use my_network_library.Storage.DumpFile.{
  newline, is_empty, dump_text, lines, get_key_value_from_string,
}

-- `std::string` as a key
abbrev pub text_order : KeyOrder Text
text_order = record {
  lt = text_lt;
  eq = text_eq;
  eq_iff = text_eq_iff;
  lt_irrefl = text_lt_irrefl;
  lt_trans = text_lt_trans;
  lt_total = text_lt_total;
}

-- What the program takes from the C++ runtime: `operator new` returns an unused address, and among
-- the results of `rand()` that one `getRandomLevel` reads there is an even number.
pub record Env : Type 0 where
  pub alloc : Heap Text Text → Ptr
  pub rand : ℕ → List ℕ
  pub alloc_fresh :
      (h : Heap Text Text) → ((a : Ptr) → h.brk ≤ a → h.nodes a ≡ none) → h.nodes (alloc h) ≡ none
  pub alloc_ne_null : (h : Heap Text Text) → (alloc h == null) ≡ false
  pub rand_even : (n : ℕ) → has_even (rand n) ≡ true

pub record Worker : Type 0 where
  pub db : SkipList Text Text
  -- the store file; `none` if there is no such file
  pub disk : Option Text
  -- whether `./store/dumpFile` can be opened for writing
  pub writable : Bool
  -- how many times `insertElement` has been called
  pub calls : ℕ

pub data ParseState : Type 0 where
  err set get del load dump : ParseState

-- `while(right < cmd.size() && cmd[right] == ' ') ++right;`
unfoldable pub skip_spaces : Text → Text
skip_spaces [] = []
skip_spaces (x ∷ xs) = if x == b' ' then skip_spaces xs else x ∷ xs

abbrev pub cons_word : Text → List Text → List Text
cons_word [] ws = ws
cons_word (x ∷ xs) ws = (x ∷ xs) ∷ ws

-- the loop of `parseCommand` over what is left of `cmd`; `none` when the fuel has run out
unfoldable pub words : ℕ → Text → Option (List Text)
words zero cmd = none
words (suc n) [] = some []
words (suc n) (x ∷ xs) = do
  let rest = skip_spaces (x ∷ xs)
  ws ← words n (drop 1 (from b' ' rest))
  some (cons_word (before b' ' rest) ws)

unfoldable pub to_upper : ℕ → ℕ
to_upper c = if leb b'a' c && leb c b'z' then c - 32 else c

unfoldable pub upper : Text → Text
unfolding to_upper
upper [] = []
upper (x ∷ xs) = to_upper x ∷ upper xs

-- `_cmdMap`, and `ERR` for any other name
unfoldable pub cmd_map : Text → ParseState
cmd_map name =
    if text_eq name (codes "SET")
    then set
    else if text_eq name (codes "GET")
    then get
    else if text_eq name (codes "DEL")
    then del
    else if text_eq name (codes "LOAD")
    then load
    else if text_eq name (codes "DUMP")
    then dump
    else err

-- `cmdList.front()` of an empty list is a fault
abbrev pub front : List Text → Option Text
front [] = none
front (w ∷ ws) = some w

-- the list of words that the loop of `parseCommand` makes
abbrev pub cmd_list : Text → Option (List Text)
cmd_list cmd = words (length cmd + 1) cmd

unfoldable pub parse_command : Text → Option (ParseState × List Text)
unfolding words upper cmd_map skip_spaces
parse_command cmd = do ws ← cmd_list cmd; name ← front ws; some (cmd_map (upper name), ws)

abbrev pub line : Text → Text
line t = t ++ newline ∷ []

abbrev pub not_existed : Text → Text
not_existed key = codes "warning : " ++ key ++ line (codes " is not existed")

unfoldable pub handler_err : Text
handler_err = line (codes "error : please enter a correct command : SET/DEL/GET/LOAD/DUMP")

module _ (e : Env) where
  -- `_myDB.insertElement(key, value)`
  unfoldable pub insert_db : Worker → Text → Text → Option (Bool × Worker)
  insert_db w key value = do
    (flag, db, _) ← insert_element text_order w.db key value (e.alloc w.db.heap) (e.rand w.calls)
    some (flag, record w { db = db; calls = w.calls + 1 })

  unfoldable pub handler_set : Worker → List Text → Option (Text × Worker)
  unfolding insert_db
  handler_set w (_ ∷ key ∷ value ∷ []) = do
    (flag, w') ← insert_db w key value
    some (
      if flag
          then codes "warning : " ++ key ++ line (codes "is already exited")
          else line (codes "ok : SET successfully"),
      w',
    )
  handler_set w _ = some (line (codes "error : please enter a correct command : SET key value"), w)

  -- the loop of `loadFile`, with `*key` and `*value`
  unfoldable pub load_lines : List Text → Text × Text → Worker → Option Worker
  unfolding insert_db
  load_lines [] kv w = some w
  load_lines (l ∷ ls) kv w =
      let (key, value) = get_key_value_from_string l kv in
      let skip = load_lines ls (key, value) w in
      let add = (do (_, w') ← insert_db w key value; load_lines ls (key, value) w') in
      if is_empty key || is_empty value then skip else add

  -- a file that cannot be opened gives no line
  unfoldable pub load_from : Option Text → Worker → Option Worker
  load_from none w = some w
  load_from (some text) w = load_lines (lines text) ([], []) w

  unfoldable pub load_file : Worker → Option Worker
  unfolding load_from load_lines
  load_file w = load_from w.disk w

unfoldable pub handler_del : Worker → List Text → Option (Text × Worker)
handler_del w (_ ∷ key ∷ []) = do
  (flag, db) ← delete_element text_order w.db key
  some
      (if flag then line (codes "ok : DEL successfully") else not_existed key, record w { db = db })
handler_del w _ = some (line (codes "error : please enter a correct command : DEL key"), w)

-- the search runs on a thread of the pool, and the handler waits for its result
unfoldable pub handler_get : Worker → List Text → Option (Text × Worker)
handler_get w (_ ∷ key ∷ []) = do
  found ← search_element text_order w.db key
  some (elim found [ none ↦ not_existed key | some value ↦ codes "ok : " ++ line value ], w)
handler_get w _ = some (line (codes "please enter a correct command : GET key"), w)

unfoldable pub dump_file : Worker → Option Worker
dump_file w = do
  es ← entries w.db
  some (if w.writable then record w { disk = some (dump_text es) } else w)

unfoldable pub handler_dump : Worker → Option (Text × Worker)
unfolding dump_file
handler_dump w = do w' ← dump_file w; some (line (codes "ok : dump file successfully"), w')

unfoldable pub handler_load : Env → Worker → Option (Text × Worker)
unfolding load_file
handler_load e w = do w' ← load_file e w; some (line (codes "ok : load file successfully"), w')

-- `_handler[state](cmdList)`
unfoldable pub handle : Env → Worker → ParseState → List Text → Option (Text × Worker)
unfolding handler_err handler_set handler_get handler_del handler_load handler_dump
handle e w err ws = some (handler_err, w)
handle e w set ws = handler_set e w ws
handle e w get ws = handler_get w ws
handle e w del ws = handler_del w ws
handle e w load ws = handler_load e w
handle e w dump ws = handler_dump w

unfoldable pub deal_with_cmd : Env → Worker → Text → Option (Text × Worker)
unfolding parse_command handle
deal_with_cmd e w cmd = do (state, cmd_list) ← parse_command cmd; handle e w state cmd_list
