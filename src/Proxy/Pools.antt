-- ===== src/Proxy/Pools.antt =====
-- pkg/util/pool.go with filterRules of internal/core/routing/proxy/http_proxy.go, with the pools switched
-- on: slices share arrays, so the arrays are a store. A pool gives back what was put last, as Go's
-- does on one thread. A slice that must grow gets an array of just the length that it needs.
pub mod Aliasing
pub mod Append
pub mod Targets
mod Tests
use mini_gateway.Common.{
  ℕ, suc, ◌+◌, ◌≤◌, String, Bool, true, false, List, [], ◌∷◌, ◌++◌, length, take, drop, replicate,
  select, leb, ◌==◌, str_eq, if◌then◌else◌,
}
use mini_gateway.Config.{RoutingRule, RoutingRules}
use mini_gateway.Proxy.Selection.{canary_env, is_canary}

pub record Slice : Type 0 where
  pub array : ℕ
  pub len : ℕ

-- The arrays of slices of one type, and the pool of these slices.
pub record Memory (A : Type 0) : Type 0 where
  pub cells : ℕ → List A
  pub next : ℕ
  pub pool : List Slice

abbrev pub contents : {A : Type 0} → Memory A → Slice → List A
contents m s = take s.len (m.cells s.array)

abbrev pub write : {A : Type 0} → ℕ → List A → Memory A → Memory A
write array values m = record m {
  cells = λ other. if array == other then values else m.cells other;
}

-- A new array.
abbrev pub alloc : {A : Type 0} → List A → ℕ → Memory A → Slice × Memory A
alloc values len m =
    (record { array = m.next; len = len }, write m.next values (record m { next = suc m.next }))

-- What a pool gives when the memory pool is switched on; the cells of a new array are zero values.
unfoldable pub taken : {A : Type 0} → List Slice → A → ℕ → Memory A → Slice × Memory A
taken [] zero capacity m = alloc (replicate capacity zero) 0 m
taken (s ∷ rest) zero capacity m = (record s { len = 0 }, record m { pool = rest })

unfoldable pub get_rules : RoutingRule → ℕ → Memory RoutingRule → Slice × Memory RoutingRule
unfolding taken
get_rules zero_rule capacity m = taken m.pool zero_rule capacity m

unfoldable pub put_rules : Slice → Memory RoutingRule → Memory RoutingRule
put_rules s m = record m { pool = s ∷ m.pool }

-- `append(s, values...)`: in place where the array has room.
unfoldable pub append_items : {A : Type 0} → Slice → List A → Memory A → Slice × Memory A
append_items s values m =
    let cells = m.cells s.array in
    let len' = s.len + length values in
    if leb len' (length cells)
    then (record s { len = len' }, write s.array (take s.len cells ++ values ++ drop len' cells) m)
    else alloc (take s.len cells ++ values) len' m

unfoldable pub append_each : {A : Type 0} → Slice → List A → Memory A → Slice × Memory A
unfolding append_items
append_each s [] m = (s, m)
append_each s (value ∷ values) m =
    let (s', m') = append_items s (value ∷ []) m in append_each s' values m'

-- `filterRules` of rules that are not empty (its panic at `rules[0]` is in Proxy.Selection); without a canary rule the
-- rules themselves are returned.
unfoldable pub filter_rules :
    RoutingRule → ℕ → String → Slice → Memory RoutingRule → Slice × Memory RoutingRule
unfolding get_rules append_each append_items
filter_rules zero_rule capacity env rules m =
    let (filtered, m') = get_rules zero_rule capacity m in
    if str_eq env canary_env
    then (let (found, m'') = append_each filtered (select is_canary (contents m' rules)) m' in
        if found.len == 0 then (rules, m'') else (found, m''))
    else append_items filtered (contents m' rules) m'

-- What one call of `selectTarget` under grayscale does to the memory: the filtered rules are put into
-- the pool when it returns.
unfoldable pub select_target :
    RoutingRule → ℕ → String → Slice → Memory RoutingRule → Memory RoutingRule
unfolding filter_rules put_rules
select_target zero_rule capacity env rules m =
    let (s, m') = filter_rules zero_rule capacity env rules m in put_rules s m'
