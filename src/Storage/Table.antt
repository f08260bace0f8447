-- ===== src/Storage/Table.antt =====
-- The abstract dictionary that the storage engine promises: pairs in increasing order of key.
pub mod Laws
use my_network_library.Prelude.{◌≡◌, true, Option, none, some, List, [], ◌∷◌, if◌then◌else◌}
use my_network_library.Storage.Order.{KeyOrder}

abbrev pub Table : Type 0 → Type 0 → Type 0
Table K V = List (K × V)

module _ {K V : Type 0} (o : KeyOrder K) where
  unfoldable pub lookup : K → Table K V → Option V
  lookup key [] = none
  lookup key ((k, v) ∷ t) = if o.eq k key then some v else lookup key t

  unfoldable pub put : K → V → Table K V → Table K V
  put key v [] = (key, v) ∷ []
  put key v ((k, w) ∷ t) =
      if o.lt k key
      then (k, w) ∷ put key v t
      else if o.eq k key
      then (k, v) ∷ t
      else (key, v) ∷ (k, w) ∷ t

  unfoldable pub remove : K → Table K V → Table K V
  remove key [] = []
  remove key ((k, w) ∷ t) = if o.eq k key then t else (k, w) ∷ remove key t

  -- every key is greater than `k`
  abbrev pub Above : K → Table K V → Type 0
  Above k [] = Unit
  Above k ((j, v) ∷ t) = (o.lt k j ≡ true) × Above k t

  abbrev pub IsSorted : Table K V → Type 0
  IsSorted [] = Unit
  IsSorted ((k, v) ∷ t) = Above k t × IsSorted t
