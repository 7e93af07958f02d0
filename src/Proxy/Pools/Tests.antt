-- ===== src/Proxy/Pools/Tests.antt =====
-- Two routes, the first without a canary rule.
use mini_gateway.Common.{◌≡◌, refl, String, [], ◌∷◌, ◌++◌, length, drop, arith, ◌==◌, if◌then◌else◌}
use mini_gateway.Common.Int.{pos}
use mini_gateway.Config.{RoutingRule}
use mini_gateway.Proxy.Selection.{canary_env}
use mini_gateway.Proxy.Pools.{Slice, Memory, contents, select_target}
use mini_gateway.Proxy.Pools.Aliasing.{select_target-corrupts}

abbrev rule : String → RoutingRule
rule target = record {
  target = target;
  weight = pos 1;
  env = "stable";
  protocol = "http";
  health_check_path = "";
}

abbrev first : Slice
first = record { array = 0; len = 2 }

abbrev second : Slice
second = record { array = 1; len = 1 }

abbrev memory : Memory RoutingRule
memory = record {
  cells = λ a.
      if a == 0
      then rule "http://a" ∷ rule "http://b" ∷ []
      else if a == 1
      then rule "http://c" ∷ []
      else [];
  next = 2;
  pool = [];
}

select_target-corrupts_example :
    contents
      (select_target
        (rule "")
        8
        "stable"
        second
        (select_target (rule "") 8 canary_env first memory))
      first
    ≡ contents memory second ++ drop (length (contents memory second)) (memory.cells first.array)
select_target-corrupts_example =
    select_target-corrupts (rule "") 8 first second "stable" memory refl (omega arith) (omega arith)
      refl (omega arith) refl
