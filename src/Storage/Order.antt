-- ===== src/Storage/Order.antt =====
-- What the skip list template (src/storage/SkipList.h) uses of its key type: `<` and `==`.
use my_network_library.Prelude.{◌≡◌, ◌↔◌, Bool, true, false, arith}

-- `==` is equality, and `<` is a strict total order.
pub record KeyOrder (K : Type 0) : Type 0 where
  pub lt : K → K → Bool
  pub eq : K → K → Bool
  pub eq_iff : (a b : K) → (eq a b ≡ true) ↔ (a ≡ b)
  pub lt_irrefl : (a : K) → lt a a ≡ false
  pub lt_trans : (a b c : K) → lt a b ≡ true → lt b c ≡ true → lt a c ≡ true
  pub lt_total : (a b : K) → lt a b ≡ false → eq a b ≡ false → lt b a ≡ true

module _ {K : Type 0} (o : KeyOrder K) (a b : K) where
  pub lt→ne : o.lt a b ≡ true → o.eq a b ≡ false
  lt→ne h = ground (arith, o.eq_iff a b, o.lt_irrefl b)

  pub lt→ne_swap : o.lt a b ≡ true → o.eq b a ≡ false
  lt→ne_swap h = ground (arith, o.eq_iff b a, o.lt_irrefl b)

  pub lt_asymm : o.lt a b ≡ true → o.lt b a ≡ false
  lt_asymm h = ground (arith, o.lt_trans a b a, o.lt_irrefl a)

  pub eq→not_lt : o.eq a b ≡ true → o.lt a b ≡ false
  eq→not_lt h = ground (arith, o.eq_iff a b, o.lt_irrefl b)
