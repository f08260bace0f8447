-- ===== src/Storage/DumpFile.antt =====
-- The text of the store file: what `dumpFile` of src/storage/SkipList.h writes, and the lines that
-- `loadFile` reads.
pub mod RoundTrip
use my_network_library.Prelude.{
  ℕ, Bool, true, false, not, ◌&&◌, List, [], ◌∷◌, ◌++◌, ◌==◌, if◌then◌else◌, drop,
}
use my_network_library.Prelude.Text.{Text, has_byte, before, from}
use my_network_library.Storage.Table.{Table}

abbrev pub newline : ℕ
newline = b'\n'

abbrev pub is_empty : Text → Bool
is_empty [] = true
is_empty (x ∷ xs) = false

-- `_fileWriter << node->getKey() << ":" << node->getValue() << "\n"`, for each node
unfoldable pub dump_text : Table Text Text → Text
dump_text [] = []
dump_text ((k, v) ∷ t) = k ++ b':' ∷ v ++ newline ∷ dump_text t

abbrev pub cons_line : ℕ → List Text → List Text
cons_line x [] = (x ∷ []) ∷ []
cons_line x (l ∷ ls) = (x ∷ l) ∷ ls

-- the lines that `getline` returns, one after the other
unfoldable pub lines : Text → List Text
lines [] = []
lines (x ∷ xs) = if x == newline then [] ∷ lines xs else cons_line x (lines xs)

unfoldable pub is_valid_string : Text → Bool
is_valid_string str = not (is_empty str) && has_byte b':' str

-- `get_key_value_from_string`: an invalid line leaves `*key` and `*value` as they were
unfoldable pub get_key_value_from_string : Text → Text × Text → Text × Text
unfolding is_valid_string
get_key_value_from_string str (key, value) =
    if is_valid_string str then (before b':' str, drop 1 (from b':' str)) else (key, value)
