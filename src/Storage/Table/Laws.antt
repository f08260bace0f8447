-- ===== src/Storage/Table/Laws.antt =====
-- The laws of the sorted dictionary.
use my_network_library.Prelude.{
  ◌≡◌, refl, ap, ◌∙◌, sym, true, none, some, [], ◌∷◌, ◌++◌, arith, if◌then◌else◌,
}
use my_network_library.Storage.Order.{KeyOrder, lt→ne, lt→ne_swap}
use my_network_library.Storage.Table.{Table, lookup, put, remove, Above, IsSorted}

module _ {K V : Type 0} (o : KeyOrder K) where
  -- Looking a key up after a put gives the new value at its key and the old result elsewhere.
  pub lookup-put :
      (key j : K) (v : V) (t : Table K V)
      → lookup o j (put o key v t) ≡ (if o.eq key j then some v else lookup o j t)
  unfolding lookup put
  lookup-put key j v [] = refl
  lookup-put key j v ((k, w) ∷ t) =
      ground
        (arith, lookup-put key j v t, o.eq_iff k key, o.eq_iff key j, o.eq_iff k j, lt→ne o k key)

  Above-lookup : (key : K) (t : Table K V) → Above o key t → lookup o key t ≡ none
  unfolding lookup
  Above-lookup key [] a = refl
  Above-lookup key ((k, w) ∷ t) a = rw (lt→ne_swap o key k a.0) (Above-lookup key t a.1)

  pub lookup-remove :
      (key j : K) (t : Table K V)
      → IsSorted o t
      → lookup o j (remove o key t) ≡ (if o.eq key j then none else lookup o j t)
  unfolding lookup remove
  lookup-remove key j [] s = ground arith
  lookup-remove key j ((k, w) ∷ t) s =
      ground (arith, lookup-remove key j t s.1, o.eq_iff k key, o.eq_iff key j, o.eq_iff k j, at)
    where
      at : k ≡ j → lookup o j t ≡ none
      at e = ap (λ x. lookup o x t) (sym e) ∙ Above-lookup k t s.0

  Above-middle :
      (k key : K) (v : V) (acc t : Table K V) → Above o k (acc ++ (key, v) ∷ t) → o.lt k key ≡ true
  Above-middle k key v [] t a = a.0
  Above-middle k key v ((j, w) ∷ acc) t a = Above-middle k key v acc t a.1

  -- a key that is greater than all others goes to the end
  pub put-last :
      (key : K) (v : V) (acc t : Table K V)
      → IsSorted o (acc ++ (key, v) ∷ t)
      → put o key v acc ≡ acc ++ (key, v) ∷ []
  unfolding put
  put-last key v [] t s = refl
  put-last key v ((k, w) ∷ acc) t s =
      rw (Above-middle k key v acc t s.0) (ap (λ r. (k, w) ∷ r) (put-last key v acc t s.1))
