-- ===== src/Gateway/Status/Tests.antt =====
-- A target of a route.
use mini_gateway.Common.{◌≡◌, refl, [], ◌∷◌}
use mini_gateway.Common.Int.{pos}
use mini_gateway.Config.{RoutingRule}
use mini_gateway.Health.{TargetStatus, new_status}
use mini_gateway.Gateway.Status.{get_unhealthy_targets}

abbrev rule : RoutingRule
rule = record {
  target = "http://a";
  weight = pos 1;
  env = "";
  protocol = "http";
  health_check_path = "";
}

abbrev seen_two : TargetStatus
seen_two = record (new_status "/a" rule) { request_count = 2; probe_failure_count = 1 }

-- A target with more failed probes than successful ones.
unhealthy : get_unhealthy_targets (seen_two ∷ []) ≡ "http://a" ∷ []
unfolding get_unhealthy_targets
unhealthy = refl
