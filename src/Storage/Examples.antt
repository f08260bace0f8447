-- ===== src/Storage/Examples.antt =====
-- Runs of the key-value store of src/storage/ on concrete data.
use my_network_library.Prelude.{
  ◌⊎◌, ◌+◌, ◌≡◌, refl, sym, true, false, none, some, List, [], ◌∷◌, ◌++◌, length, arith,
}
use my_network_library.Prelude.Text.{Text, codes, has_byte, text_eq, text_lt, before, from}
use my_network_library.Network.Buffer.{c_string}
use my_network_library.Network.Channel
use my_network_library.Network.Connection.{
  Connection, connected_over, is_connected, bytes, again, accepted,
}
use my_network_library.Network.Connection.Written.{settles}
use my_network_library.Storage.KvServer.{serve_message, Replied, serve_message-Replied}
use my_network_library.Storage.Table.{Table, put, lookup, IsSorted}
use my_network_library.Storage.Heap.{create_node}
use my_network_library.Storage.SkipList.{SkipList, construct, entries, display_list, search_element}
use my_network_library.Storage.SkipList.View.{Represents, table}
use my_network_library.Storage.SkipList.Search.{search_element-lookup}
use my_network_library.Storage.SkipList.Refine.{
  Inserted, insert_element-put, Deleted, delete_element-remove,
}
use my_network_library.Storage.SkipList.Display.{
  rows, entries-table, display_list-rows, construct-Represents,
}
use my_network_library.Storage.DumpFile.{is_empty, dump_text, lines}
use my_network_library.Storage.DumpFile.RoundTrip.{IsStorable, load-dump}
use my_network_library.Storage.Worker.{
  Env, Worker, set, get, text_order, del, parse_command, deal_with_cmd, handle, line, upper,
  cmd_map, to_upper, skip_spaces, words,
}
use mathlib.Core.Path.{subst}
use my_network_library.Storage.Worker.Restart.{Restarted, construct_default-Restarted}
use my_network_library.Storage.Worker.Refine.{view, Outcome, handle-serve}
use my_network_library.Storage.Worker.Words.{
  unwords, non_spaces, concat, words-non_spaces, AreWords,
}
use my_network_library.Storage.Worker.Session.{
  session, Served, session-serve_all, deal_with_cmd-serve, deal_with_cmd-blank, get-set,
  parse_command-unwords,
}
use my_network_library.Storage.Worker.{cmd_list}
use my_network_library.Storage.DumpFile.{is_empty}
use my_network_library.Storage.Service.{Service, load_table, serve}

abbrev a_list : SkipList Text Text
a_list = construct 12 1 [] []

abbrev key_a : Text
key_a = codes "a"

abbrev value_1 : Text
value_1 = codes "1"

a_list-Represents : Represents text_order a_list []
a_list-Represents = construct-Represents text_order 12 1 [] [] refl

fresh : a_list.heap.nodes 2 ≡ none
unfolding construct create_node
fresh = refl

abbrev one : Inserted text_order key_a a_list [] value_1 2 (3 ∷ 4 ∷ [])
one =
    insert_element-put text_order key_a a_list [] value_1 2 (3 ∷ 4 ∷ []) a_list-Represents fresh
      refl refl

insert_element-put_example : Inserted text_order (codes "b") a_list [] value_1 2 (3 ∷ 4 ∷ [])
insert_element-put_example =
    insert_element-put text_order (codes "b") a_list [] value_1 2 (3 ∷ 4 ∷ []) a_list-Represents
      fresh refl refl

delete_element-remove_example : Deleted text_order key_a one.next one.cells'
delete_element-remove_example = delete_element-remove text_order key_a one.next one.cells' one.repr

search_element-lookup_example :
    search_element text_order one.next key_a ≡ some (lookup text_order key_a (table one.cells'))
search_element-lookup_example = search_element-lookup text_order key_a one.next one.cells' one.repr

entries-table_example : entries one.next ≡ some (table one.cells')
entries-table_example = entries-table text_order one.next one.cells' one.repr

display_list-rows_example :
    display_list one.next ≡ some (rows (one.next.cur_level + 1) 0 one.cells')
display_list-rows_example = display_list-rows text_order one.next one.cells' one.repr

an_env : Env
an_env = record {
  alloc = λ h. h.brk + 1;
  rand = λ n. (n + n) ∷ 0 ∷ [];
  alloc_fresh = λ h free. free (h.brk + 1) (omega arith);
  alloc_ne_null = λ h. ground arith;
  rand_even = λ n. ground arith;
}

abbrev a_worker : Worker
a_worker = record { db = a_list; disk = none; writable = true; calls = 0 }

abbrev a_set : Text
a_set = codes "set a 1"

abbrev a_get : Text
a_get = codes "GET a"

abbrev a_dump : Text
a_dump = codes "  dump"

nonblank_set : is_empty (non_spaces a_set) ≡ false
unfolding non_spaces
nonblank_set = refl

nonblank_get : is_empty (non_spaces a_get) ≡ false
unfolding non_spaces
nonblank_get = refl

nonblank_dump : is_empty (non_spaces a_dump) ≡ false
unfolding non_spaces
nonblank_dump = refl

session-serve_all_example : Served an_env a_worker [] (a_set ∷ a_get ∷ a_dump ∷ [])
session-serve_all_example =
    session-serve_all an_env a_worker [] (a_set ∷ a_get ∷ a_dump ∷ []) a_list-Represents
      (nonblank_set, (nonblank_get, (nonblank_dump, tt)))

handle-serve_example :
    Outcome
      (handle an_env a_worker del (codes "DEL" ∷ key_a ∷ []))
      (serve del (codes "DEL" ∷ key_a ∷ []) (view a_worker []))
handle-serve_example =
    handle-serve an_env a_worker [] del (codes "DEL" ∷ key_a ∷ []) a_list-Represents

set_words : AreWords (codes "set" ∷ key_a ∷ value_1 ∷ [])
unfolding has_byte
set_words = ((refl, refl), ((refl, refl), ((refl, refl), tt)))

get_words : AreWords (codes "Get" ∷ key_a ∷ [])
unfolding has_byte
get_words = ((refl, refl), ((refl, refl), tt))

set_name : cmd_map (upper (codes "set")) ≡ set
unfolding cmd_map upper to_upper text_eq
set_name = refl

get_name : cmd_map (upper (codes "Get")) ≡ get
unfolding cmd_map upper to_upper text_eq
get_name = refl

get-set_example :
    (w' : Worker) × (reply : Text) × (session an_env a_worker
        (unwords (codes "set" ∷ key_a ∷ value_1 ∷ []) ∷ unwords (codes "Get" ∷ key_a ∷ []) ∷ [])
      ≡ some (reply ∷ (codes "ok : " ++ line value_1) ∷ [], w'))
get-set_example =
    get-set an_env a_worker [] (codes "set") (codes "Get") key_a value_1 a_list-Represents set_words
      get_words set_name get_name

get_command : parse_command a_get ≡ some (get, codes "GET" ∷ key_a ∷ [])
unfolding parse_command words skip_spaces before from cmd_map upper to_upper text_eq
get_command = refl

deal_with_cmd-serve_example :
    Outcome
      (deal_with_cmd an_env a_worker a_get)
      (serve get (codes "GET" ∷ key_a ∷ []) (view a_worker []))
deal_with_cmd-serve_example =
    deal_with_cmd-serve an_env a_worker [] a_get get (codes "GET" ∷ key_a ∷ []) a_list-Represents
      get_command

deal_with_cmd-blank_example :
    ((non_spaces (codes "   ") ≡ [])
      × (cmd_list (codes "   ") ≡ some [])
      × (deal_with_cmd an_env a_worker (codes "   ") ≡ none))
    ⊎ ((is_empty (non_spaces (codes "   ")) ≡ false)
        × (reply : Text) × (w' : Worker) × (deal_with_cmd an_env a_worker (codes "   ")
            ≡ some (reply, w')))
deal_with_cmd-blank_example = deal_with_cmd-blank an_env a_worker [] (codes "   ") a_list-Represents

mixed_words : AreWords (codes "sEt" ∷ key_a ∷ value_1 ∷ [])
unfolding has_byte
mixed_words = ((refl, refl), ((refl, refl), ((refl, refl), tt)))

parse_command-unwords_example :
    parse_command (unwords (codes "sEt" ∷ key_a ∷ value_1 ∷ []))
    ≡ some (set, codes "sEt" ∷ key_a ∷ value_1 ∷ [])
parse_command-unwords_example =
    parse_command-unwords (codes "sEt") (key_a ∷ value_1 ∷ []) mixed_words

words-non_spaces_example :
    (ws : List Text) × (words 8 a_set ≡ some ws) × AreWords ws × (concat ws ≡ non_spaces a_set)
words-non_spaces_example = words-non_spaces 8 a_set (omega arith)

abbrev a_table : Table Text Text
a_table = (key_a, codes "x:1") ∷ (codes "b", value_1) ∷ []

a_table-IsStorable : IsStorable a_table
unfolding has_byte
a_table-IsStorable = (refl, refl, refl, refl, refl, (refl, refl, refl, refl, refl, tt))

a_table-IsSorted : IsSorted text_order a_table
unfolding text_lt
a_table-IsSorted = ((refl, tt), (tt, tt))

load-dump_example : load_table (lines (dump_text a_table)) ([], []) [] ≡ a_table
load-dump_example = load-dump a_table a_table-IsStorable a_table-IsSorted

abbrev a_client : Connection
a_client = connected_over true (Channel.construct 5)

a_client_open : is_connected a_client ≡ true
unfolding is_connected
a_client_open = refl

plain_set : c_string a_set ≡ a_set
unfolding c_string before
plain_set = refl

parsed_set : parse_command a_set ≡ some (set, codes "set" ∷ key_a ∷ value_1 ∷ [])
unfolding parse_command words upper cmd_map to_upper skip_spaces before from text_eq
parsed_set = refl

abbrev set_served : Text × Service
set_served = serve set (codes "set" ∷ key_a ∷ value_1 ∷ []) (view a_worker [])

reply_settles : settles (accepted 4 ∷ accepted 100 ∷ []) (length (c_string set_served.0)) ≡ true
unfolding settles serve lookup c_string before table
reply_settles = refl

serve_message-Replied_example :
    Replied (accepted 4 ∷ accepted 100 ∷ []) a_client set_served.0 set_served.1 (
      serve_message an_env
        (bytes a_set ∷ again ∷ [])
        (accepted 4 ∷ accepted 100 ∷ [])
        a_client
        a_worker)
serve_message-Replied_example =
    serve_message-Replied an_env (accepted 4 ∷ accepted 100 ∷ []) a_client a_worker [] a_set set
      (codes "set" ∷ key_a ∷ value_1 ∷ []) a_client_open refl a_list-Represents plain_set parsed_set
      reply_settles

abbrev filled : Worker
filled = record a_worker { db = one.next }

one_pair-IsStorable : IsStorable (table one.cells')
unfolding has_byte put table
one_pair-IsStorable = subst IsStorable (sym one.dictionary) (refl, refl, refl, refl, refl, tt)

construct_default-Restarted_example : Restarted an_env filled one.cells'
construct_default-Restarted_example =
    construct_default-Restarted an_env filled one.cells' one.repr refl one_pair-IsStorable
