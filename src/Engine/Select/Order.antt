-- ===== src/Engine/Select/Order.antt =====
-- The order in which reads are considered.
use sni_lua.Common.Sort.{sort_by, sort_by-IsSorted, IsSorted}
use sni_lua.Common.{ℕ, ◌≤◌, ◌≡◌, true, false, List, arith}
use sni_lua.Engine.Pending.{ReadStates}
use sni_lua.Engine.Select.{staleness, goes_first}
use sni_lua.Watch.Coalesce.{CoalescedRead}

module _ (read_state : ReadStates) (cycle : ℕ) where
  goes_first-total :
      (a b : CoalescedRead)
      → goes_first read_state cycle a b ≡ false
      → goes_first read_state cycle b a ≡ true
  goes_first-total a b h = ground arith

  goes_first_trans :
      (a b c : CoalescedRead)
      → goes_first read_state cycle a b ≡ true
      → goes_first read_state cycle b c ≡ true
      → goes_first read_state cycle a c ≡ true
  goes_first_trans a b c h k = ground arith

  pub order-IsSorted :
      (reads : List CoalescedRead)
      → IsSorted (goes_first read_state cycle) (sort_by (goes_first read_state cycle) reads)
  order-IsSorted = sort_by-IsSorted (goes_first read_state cycle) goes_first-total goes_first_trans

  pub goes_first-staler :
      (a b : CoalescedRead)
      → goes_first read_state cycle a b ≡ true
      → staleness read_state cycle b ≤ staleness read_state cycle a
  goes_first-staler a b h = ground arith
