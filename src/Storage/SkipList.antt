-- ===== src/Storage/SkipList.antt =====
-- The skip list of src/storage/SkipList.h over the heap of nodes. Every read through a pointer and
-- every index is checked; `none` is a fault or a loop whose fuel has run out. A walk along a level
-- is given `_elementCount + 1` rounds.
-- `insertElement` and `deleteElement` hold the mutex; the other operations take none, so what is proved of
-- them is for calls that do not overlap with those two.
pub mod Spine
pub mod Walk
pub mod Descend
pub mod View
pub mod Search
pub mod Links
pub mod Relink
pub mod Cells
pub mod Insert
pub mod Level
pub mod Overwrite
pub mod Unlink
pub mod Delete
pub mod Refine
pub mod Display
use my_network_library.Prelude.{
  ℕ, zero, suc, ◌+◌, ◌-◌, ◌%◌, Bool, true, false, Option, none, some, List, [], ◌∷◌, ◌==◌, ltb, leb,
  if◌then◌else◌,
}
use my_network_library.Prelude.Monad.{◌>>=◌}
use my_network_library.Storage.Order.{KeyOrder}
use my_network_library.Storage.Heap.{
  Ptr, null, Heap, deref, forward, set_forward, create_node, set_value, delete_node,
}

pub record SkipList (K V : Type 0) : Type 0 where
  pub max_level : ℕ
  pub cur_level : ℕ
  pub header : Ptr
  pub element_count : ℕ
  pub heap : Heap K V

-- `update`, an array of `_maxLevel + 1` pointers
abbrev pub Update : Type 0
Update = ℕ → Ptr

abbrev pub set_update : Update → ℕ → Ptr → Update
set_update u i p j = if j == i then p else u j

-- `update[i] = p`; a fault out of bounds
unfoldable pub put_update : ℕ → Update → ℕ → Ptr → Option Update
put_update max u i p = if leb i max then some (set_update u i p) else none

-- `getRandomLevel`: the results of `rand()` come as a list
unfoldable pub count_odd : ℕ → List ℕ → Option (ℕ × List ℕ)
count_odd k [] = none
count_odd k (r ∷ draws) =
    let rest = count_odd (k + 1) draws in if r % 2 == 0 then some (k, draws) else rest

unfoldable pub get_random_level : ℕ → List ℕ → Option (ℕ × List ℕ)
unfolding count_odd
get_random_level max draws = do
  (k, draws') ← count_odd 0 draws
  some (if ltb k max then k else max, draws')

-- `for(int i=_curLevel+1; i<random_level+1; i++) update[i] = _header;`, with the rounds left
unfoldable pub fill_update : ℕ → Ptr → ℕ → ℕ → Update → Option Update
fill_update max header zero i u = some u
fill_update max header (suc r) i u = do
  u' ← put_update max u i header
  fill_update max header r (i + 1) u'

module _ {K V : Type 0} where
  -- `SkipList(int max_level)`, with the header's address and its default key and value
  unfoldable pub construct : ℕ → Ptr → K → V → SkipList K V
  construct max header k v = record {
    max_level = max;
    cur_level = 0;
    header = header;
    element_count = 0;
    heap = create_node (record { nodes = λ _. none; links = λ _ _. null; brk = 0 }) header k v max;
  }

  -- the loop of `insertElement` that links the new node, with the rounds left
  unfoldable pub link_levels : ℕ → ℕ → Update → Ptr → Heap K V → Option (Heap K V)
  link_levels zero i u new h = some h
  link_levels (suc r) i u new h = do
    q ← forward h (u i) i
    h₁ ← set_forward h new i q
    h₂ ← set_forward h₁ (u i) i new
    link_levels r (i + 1) u new h₂

  -- the loop of `deleteElement` that unlinks the node, with its `break`
  unfoldable pub unlink_levels : ℕ → ℕ → Update → Ptr → Heap K V → Option (Heap K V)
  unlink_levels zero i u cur h = some h
  unlink_levels (suc r) i u cur h = do
    q ← forward h (u i) i
    let stop = some h
    let step = (do
      n ← forward h cur i
      h' ← set_forward h (u i) i n
      unlink_levels r (i + 1) u cur h')
    if q == cur then step else stop

  -- `while(_curLevel > 0 && _header->_forward[_curLevel] == nullptr) _curLevel--;`
  unfoldable pub shrink_level : ℕ → Heap K V → Ptr → Option ℕ
  shrink_level zero h header = some zero
  shrink_level (suc l) h header = do
    q ← forward h header (suc l)
    let lower = shrink_level l h header
    if q == null then lower else some (suc l)

  -- the entries along one level from `p`: the loops of `displayList` and `dumpFile`
  unfoldable pub traverse : ℕ → Heap K V → ℕ → Ptr → Option (List (K × V))
  traverse zero h i p = none
  traverse (suc n) h i p =
      let rest = (do
        e ← deref h p
        q ← forward h p i
        es ← traverse n h i q
        some ((e.key, e.value) ∷ es)) in
      if p == null then some [] else rest

  -- what `dumpFile` writes, in order
  unfoldable pub entries : SkipList K V → Option (List (K × V))
  entries s = do p ← forward s.heap s.header 0; traverse (s.element_count + 1) s.heap 0 p

  -- what `displayList` prints: level `i` and the `r` levels above it
  unfoldable pub display_levels : SkipList K V → ℕ → ℕ → Option (List (List (K × V)))
  display_levels s zero i = some []
  display_levels s (suc r) i = do
    p ← forward s.heap s.header i
    line ← traverse (s.element_count + 1) s.heap i p
    lines ← display_levels s r (i + 1)
    some (line ∷ lines)

  unfoldable pub display_list : SkipList K V → Option (List (List (K × V)))
  unfolding display_levels
  display_list s = display_levels s (s.cur_level + 1) 0

  unfoldable pub size : SkipList K V → ℕ
  size s = s.element_count

  -- the second half of `insertElement`: a new node at the level that was drawn
  unfoldable pub insert_node : SkipList K V → Update → K → V → Ptr → ℕ → Option (SkipList K V)
  insert_node s u key value new level = do
    u' ← fill_update s.max_level s.header (level - s.cur_level) (s.cur_level + 1) u
    let h = create_node s.heap new key value level
    h' ← link_levels (level + 1) 0 u' new h
    some (record s {
      cur_level = if ltb s.cur_level level then level else s.cur_level;
      element_count = s.element_count + 1;
      heap = h';
    })

  -- the branch of `insertElement` for a key that is there: result 1, here `true`
  unfoldable pub overwrite : SkipList K V → Ptr → V → List ℕ → Option (Bool × SkipList K V × List ℕ)
  overwrite s cur value draws = do
    h ← set_value s.heap cur value
    some (true, record s { heap = h }, draws)

  -- the branch for a key that is not: result 0, here `false`
  unfoldable pub insert_new :
      SkipList K V → Update → K → V → Ptr → List ℕ → Option (Bool × SkipList K V × List ℕ)
  insert_new s u key value new draws = do
    (level, draws') ← get_random_level s.max_level draws
    s' ← insert_node s u key value new level
    some (false, s', draws')

  -- the branch of `deleteElement` for a key that is there
  unfoldable pub remove_node : SkipList K V → Update → Ptr → Option (Bool × SkipList K V)
  remove_node s u cur = do
    h ← unlink_levels (s.cur_level + 1) 0 u cur s.heap
    h' ← delete_node h cur
    level ← shrink_level s.cur_level h' s.header
    some (true, record s { cur_level = level; element_count = s.element_count - 1; heap = h' })

module _ {K V : Type 0} (o : KeyOrder K) where
  -- `while(current->_forward[i] != nullptr && current->_forward[i]->getKey() < key)`
  unfoldable pub walk : ℕ → Heap K V → K → ℕ → Ptr → Option Ptr
  walk zero h key i p = none
  walk (suc n) h key i p = do
    q ← forward h p i
    let next = (do
      e ← deref h q
      let further = walk n h key i q
      if o.lt e.key key then further else some p)
    if q == null then some p else next

  -- the loop over the levels of `insertElement` and `deleteElement`, from level `l - 1` down
  unfoldable pub descend : ℕ → ℕ → ℕ → Heap K V → K → Ptr → Update → Option (Ptr × Update)
  descend zero max n h key p u = some (p, u)
  descend (suc i) max n h key p u = do
    q ← walk n h key i p
    u' ← put_update max u i q
    descend i max n h key q u'

  -- the same loop in `searchElement`, without `update`
  unfoldable pub seek : ℕ → ℕ → Heap K V → K → Ptr → Option Ptr
  seek zero n h key p = some p
  seek (suc i) n h key p = do q ← walk n h key i p; seek i n h key q

  -- `current != nullptr && current->getKey() == key`
  unfoldable pub key_at : Heap K V → K → Ptr → Option Bool
  key_at h key p =
      let test = (do e ← deref h p; some (o.eq e.key key)) in if p == null then some false else test

  -- `searchElement`: the value that it stores to its reference argument, if it returns `true`
  unfoldable pub search_element : SkipList K V → K → Option (Option V)
  search_element s key = do
    p ← seek (s.cur_level + 1) (s.element_count + 1) s.heap key s.header
    cur ← forward s.heap p 0
    found ← key_at s.heap key cur
    if found then (do e ← deref s.heap cur; some (some e.value)) else some none

  -- `insertElement`, with the address that `new` returns and the results of `rand()`
  unfoldable pub insert_element :
      SkipList K V → K → V → Ptr → List ℕ → Option (Bool × SkipList K V × List ℕ)
  insert_element s key value new draws = do
    (p, u) ←
        descend (s.cur_level + 1) s.max_level (s.element_count + 1) s.heap key s.header (λ _. null)
    cur ← forward s.heap p 0
    found ← key_at s.heap key cur
    if found then overwrite s cur value draws else insert_new s u key value new draws

  -- `deleteElement`
  unfoldable pub delete_element : SkipList K V → K → Option (Bool × SkipList K V)
  delete_element s key = do
    (p, u) ←
        descend (s.cur_level + 1) s.max_level (s.element_count + 1) s.heap key s.header (λ _. null)
    cur ← forward s.heap p 0
    found ← key_at s.heap key cur
    if found then remove_node s u cur else some (false, s)
