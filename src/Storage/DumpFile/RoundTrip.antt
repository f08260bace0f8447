-- ===== src/Storage/DumpFile/RoundTrip.antt =====
-- A dictionary that `dumpFile` has written is what `loadFile` reads back.
use mathlib.Core.List.{append-nil, append_assoc}
use my_network_library.Prelude.{
  ◌≡◌, refl, ap, ◌∙◌, sym, true, false, ◌||◌, List, [], ◌∷◌, ◌++◌, arith, if◌then◌else◌,
}
use my_network_library.Prelude.Text.{Text, has_byte, before-append, from-append, has_byte-append}
use my_network_library.Storage.Table.{Table, put, IsSorted}
use my_network_library.Storage.Table.Laws.{put-last}
use my_network_library.Storage.DumpFile.{
  newline, is_empty, dump_text, lines, get_key_value_from_string,
}
use my_network_library.Storage.Worker.{text_order}
use my_network_library.Storage.Service.{load_table}

-- What a line of the store file can hold: a key with no ':' and no line break, and a value with no
-- line break, neither of them empty.
abbrev pub IsStorable : Table Text Text → Type 0
IsStorable [] = Unit
IsStorable ((k, v) ∷ t) =
    (is_empty k ≡ false)
    × (has_byte b':' k ≡ false)
    × (has_byte newline k ≡ false)
    × (is_empty v ≡ false)
    × (has_byte newline v ≡ false)
    × IsStorable t

lines-append :
    (xs ys : Text) → has_byte newline xs ≡ false → lines (xs ++ newline ∷ ys) ≡ xs ∷ lines ys
unfolding lines has_byte
lines-append [] ys h = refl
lines-append (x ∷ xs) ys h = ground (arith, lines-append xs ys)

line-clean :
    (k v : Text)
    → has_byte newline k ≡ false
    → has_byte newline v ≡ false
    → has_byte newline (k ++ b':' ∷ v) ≡ false
line-clean k v hk hv = has_byte-append newline k (b':' ∷ v) ∙ rw hk (unfold has_byte in hv)

is_empty-append : (k v : Text) → is_empty (k ++ b':' ∷ v) ≡ false
is_empty-append [] v = refl
is_empty-append (x ∷ k) v = refl

get_key_value-line :
    (k v : Text) (kv : Text × Text)
    → has_byte b':' k ≡ false
    → get_key_value_from_string (k ++ b':' ∷ v) kv ≡ (k, v)
unfolding get_key_value_from_string
get_key_value-line k v kv h =
    let colon : has_byte b':' (k ++ b':' ∷ v) ≡ true =
      has_byte-append b':' k (b':' ∷ v) ∙ rw h (unfold has_byte in refl) in
    rw (is_empty-append k v, colon, before-append b':' k v h, from-append b':' k v h)

load_table-line :
    (l k v : Text) (ls : List Text) (kv : Text × Text) (t : Table Text Text)
    → get_key_value_from_string l kv ≡ (k, v)
    → is_empty k ≡ false
    → is_empty v ≡ false
    → load_table (l ∷ ls) kv t ≡ load_table ls (k, v) (put text_order k v t)
unfolding load_table
load_table-line l k v ls kv t e hk hv =
    ap
      (λ (p : Text × Text).
        load_table ls p (if is_empty p.0 || is_empty p.1 then t else put text_order p.0 p.1 t))
      e
    ∙ rw (hk, hv)

load_table-dump :
    (kv : Text × Text) (acc t : Table Text Text)
    → IsStorable t
    → IsSorted text_order (acc ++ t)
    → load_table (lines (dump_text t)) kv acc ≡ acc ++ t
unfolding dump_text
load_table-dump kv acc [] h s = unfold lines load_table in sym (append-nil acc)
load_table-dump kv acc ((k, v) ∷ t) h s =
    ap (λ ls. load_table ls kv acc)
      (lines-append (k ++ b':' ∷ v) (dump_text t) (line-clean k v h.2 h.4))
    ∙ load_table-line (k ++ b':' ∷ v) k v (lines (dump_text t)) kv acc
        (get_key_value-line k v kv h.1) h.0 h.3
    ∙ ap (load_table (lines (dump_text t)) (k, v)) (put-last text_order k v acc t s)
    ∙ load_table-dump (k, v) (acc ++ (k, v) ∷ []) t h.5 (rw (append_assoc acc ((k, v) ∷ []) t) s)
    ∙ append_assoc acc ((k, v) ∷ []) t

-- Loading the dumped text of a storable dictionary in order of key into an empty one gives it back.
pub load-dump :
    (t : Table Text Text)
    → IsStorable t
    → IsSorted text_order t
    → load_table (lines (dump_text t)) ([], []) [] ≡ t
load-dump t h s = load_table-dump ([], []) [] t h s
