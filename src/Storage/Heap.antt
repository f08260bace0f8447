-- ===== src/Storage/Heap.antt =====
-- The nodes of src/storage/Node.h on an explicit heap. A node's `_forward` array is an allocation of
-- its own, of `_nodeLevel + 1` pointers, so the heap keeps nodes and arrays apart.
use my_network_library.Prelude.{ℕ, ◌+◌, ◌&&◌, Option, none, some, ◌==◌, leb, if◌then◌else◌}
use my_network_library.Prelude.Monad.{◌>>=◌}

abbrev pub Ptr : Type 0
Ptr = ℕ

abbrev pub null : Ptr
null = 0

-- `Node<K, V>`, without its `_forward` array
pub record Node (K V : Type 0) : Type 0 where
  pub key : K
  pub value : V
  pub level : ℕ

pub record Heap (K V : Type 0) : Type 0 where
  pub nodes : Ptr → Option (Node K V)
  pub links : Ptr → ℕ → Ptr
  -- the end of the heap: no address from here on has been handed out
  pub brk : Ptr

abbrev pub set_link : (Ptr → ℕ → Ptr) → Ptr → ℕ → Ptr → Ptr → ℕ → Ptr
set_link l p i q a j = if (a == p) && (j == i) then q else l a j

module _ {K V : Type 0} where
  -- a read of `*p`; a fault at `nullptr` and at an address that holds no node
  unfoldable pub deref : Heap K V → Ptr → Option (Node K V)
  deref h p = if p == null then none else h.nodes p

  -- `p->_forward[i]`; a fault out of bounds
  unfoldable pub forward : Heap K V → Ptr → ℕ → Option Ptr
  forward h p i = do n ← deref h p; if leb i n.level then some (h.links p i) else none

  -- `p->_forward[i] = q`; a fault out of bounds
  unfoldable pub set_forward : Heap K V → Ptr → ℕ → Ptr → Option (Heap K V)
  set_forward h p i q = do
    n ← deref h p
    if leb i n.level then some (record h { links = set_link h.links p i q }) else none

  abbrev pub set_node :
      (Ptr → Option (Node K V)) → Ptr → Option (Node K V) → Ptr → Option (Node K V)
  set_node m p o a = if a == p then o else m a

  -- `new Node<K, V>(k, v, level)` at the address that `operator new` returned
  unfoldable pub create_node : Heap K V → Ptr → K → V → ℕ → Heap K V
  create_node h p k v l = record {
    nodes = set_node h.nodes p (some (record { key = k; value = v; level = l }));
    links = λ a j. if a == p then null else h.links a j;
    brk = if leb h.brk p then p + 1 else h.brk;
  }

  -- `p->setValue(v)`
  unfoldable pub set_value : Heap K V → Ptr → V → Option (Heap K V)
  set_value h p v = do
    n ← deref h p
    some (record h { nodes = set_node h.nodes p (some (record n { value = v })) })

  -- `delete p`
  unfoldable pub delete_node : Heap K V → Ptr → Option (Heap K V)
  delete_node h p = do n ← deref h p; some (record h { nodes = set_node h.nodes p none })
