-- ===== src/Proxy/Pools/Aliasing.antt =====
-- The slice of a configured route can get into the pool, and the next request then writes to it.
use mini_gateway.Common.{
  ℕ, ◌+◌, ◌≤◌, ◌<◌, ◌≡◌, refl, ap, String, true, false, List, [], ◌∷◌, ◌++◌, length, take, drop,
  select, leb, ◌==◌, str_eq, arith, length-append, length-drop, take_all,
}
use mini_gateway.Config.{RoutingRule, RoutingRules}
use mini_gateway.Proxy.Selection.{canary_env, is_canary}
use mini_gateway.Proxy.Pools.{
  Slice, Memory, contents, taken, get_rules, put_rules, append_items, append_each, filter_rules,
  select_target,
}

module _ (zero_rule : RoutingRule) (capacity : ℕ) where
  taken-cells :
      (pool : List Slice) (m : Memory RoutingRule) (a : ℕ)
      → a < m.next
      → (taken pool zero_rule capacity m).1.cells a ≡ m.cells a
  unfolding taken
  taken-cells [] m a h = let new : (m.next == a) ≡ false = ground arith in rw new refl
  taken-cells (s ∷ rest) m a h = refl

  taken-empty :
      (pool : List Slice) (m : Memory RoutingRule) → (taken pool zero_rule capacity m).0.len ≡ 0
  unfolding taken
  taken-empty [] m = refl
  taken-empty (s ∷ rest) m = refl

  -- Without a canary rule, a request for the canary environment changes no array that was there, and
  -- puts the route's own slice into the pool.
  select_target-fallback :
      (rules : Slice) (m : Memory RoutingRule)
      → rules.array < m.next
      → select is_canary (contents m rules) ≡ []
      → (select_target zero_rule capacity canary_env rules m
          ≡ put_rules rules (get_rules zero_rule capacity m).1)
  unfolding select_target filter_rules append_each get_rules
  select_target-fallback rules m old none_found =
      let kept = taken-cells m.pool m rules.array old in
      let empty = taken-empty m.pool m in rw (kept, none_found, append_each, empty) refl

  put_rules-cells :
      (s : Slice) (m : Memory RoutingRule) (a : ℕ)
      → a < m.next
      → (put_rules s (get_rules zero_rule capacity m).1).cells a ≡ m.cells a
  unfolding put_rules get_rules
  put_rules-cells s m a h = taken-cells m.pool m a h

  put_rules-pool : (s : Slice) (m : Memory RoutingRule) → (put_rules s m).pool ≡ s ∷ m.pool
  unfolding put_rules
  put_rules-pool s m = refl

  get_rules-top :
      (victim : Slice) (rest : List Slice) (m : Memory RoutingRule)
      → m.pool ≡ victim ∷ rest
      → get_rules zero_rule capacity m ≡ (record victim { len = 0 }, record m { pool = rest })
  unfolding get_rules taken
  get_rules-top victim rest m top = rw top refl

  append_items-room :
      (s : Slice) (values : RoutingRules) (m : Memory RoutingRule)
      → s.len ≡ 0
      → length values ≤ length (m.cells s.array)
      → (append_items s values m).1.cells s.array ≡ values ++ drop (length values) (m.cells s.array)
  unfolding append_items
  append_items-room s values m empty room =
      let fits : leb (length values) (length (m.cells s.array)) ≡ true = ground arith in
      let own : (s.array == s.array) ≡ true = ground arith in
      let start : 0 + length values ≡ length values = omega arith in
      rw (empty, start, fits, own) refl

  -- A request for another environment, with the slice of a route on top of the pool, writes its own
  -- rules to that route's array, from the start.
  select_target-overwrites :
      (victim rules : Slice) (rest : List Slice) (env : String) (m : Memory RoutingRule)
      → str_eq env canary_env ≡ false
      → m.pool ≡ victim ∷ rest
      → length (contents m rules) ≤ length (m.cells victim.array)
      → (select_target zero_rule capacity env rules m).cells victim.array
        ≡ contents m rules ++ drop (length (contents m rules)) (m.cells victim.array)
  unfolding select_target filter_rules put_rules
  select_target-overwrites victim rules rest env m other top room =
      rw (other, get_rules-top victim rest m top)
        (append_items-room (record victim { len = 0 }) (contents m rules) (record m { pool = rest })
          refl room)

  -- A route without a canary rule gets a request for the canary environment; then another route, with
  -- no more rules, gets one for another environment. After these two the configured rules of the first
  -- route begin with those of the second. The slices of the routes are full and lie in arrays that
  -- exist.
  pub select_target-corrupts :
      (first second : Slice) (env : String) (m : Memory RoutingRule)
      → str_eq env canary_env ≡ false
      → first.array < m.next
      → second.array < m.next
      → length (m.cells first.array) ≡ first.len
      → length (contents m second) ≤ first.len
      → select is_canary (contents m first) ≡ []
      → contents
          (select_target zero_rule capacity env second
            (select_target zero_rule capacity canary_env first m))
          first
        ≡ contents m second ++ drop (length (contents m second)) (m.cells first.array)
  select_target-corrupts first second env m other old old' full short none_found =
      let m' = put_rules first (get_rules zero_rule capacity m).1 in
      let values = contents m second in
      let old_cells = m.cells first.array in
      let kept : m'.cells first.array ≡ old_cells = put_rules-cells first m first.array old in
      let kept' : contents m' second ≡ values =
        ap (take second.len) (put_rules-cells first m second.array old') in
      let room : length (contents m' second) ≤ length (m'.cells first.array) =
        rw (kept', kept) (omega (arith, full, short)) in
      let written =
        select_target-overwrites first second (get_rules zero_rule capacity m).1.pool env m' other
          (put_rules-pool first (get_rules zero_rule capacity m).1) room in
      let whole : length (values ++ drop (length values) old_cells) ≤ first.len = omega (
        arith,
        full,
        short,
        length-append values (drop (length values) old_cells),
        length-drop (length values) old_cells,
      ) in
      rw (select_target-fallback first m old none_found, written, kept, kept')
        (take_all first.len (values ++ drop (length values) old_cells) whole)
