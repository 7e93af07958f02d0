-- ===== src/Gateway/Status.antt =====
-- cmd/gateway/main.go: what the status page says of the targets and of the cached paths.
pub mod Cached
pub mod Page
mod Tests
use Prim.Native.Nat.{Ordering}
use Prim.Native.String.{compare}
use mini_gateway.Common.{
  ◌+◌, String, Bool, true, false, List, [], ◌∷◌, map, select, Option, none, some, Dict, lookup,
  insert, Outcome, returns, ◌>>=◌, if◌then◌else◌,
}
use mini_gateway.Common.Int.{ℤ, pos, pos_part, neg_part, sub_ℕ, ltb_ℤ, signed, wrap}
use mini_gateway.Config.{RoutingRules}
use mini_gateway.Health.{TargetStatus}
use mini_gateway.Cache.Client.{Commands, PathCount, batch_get_path_req_count}

-- `getUnhealthyTargets`.
unfoldable pub get_unhealthy_targets : List TargetStatus → List String
unfolding signed
get_unhealthy_targets stats =
    map (λ stat. stat.url)
      (select (λ stat. ltb_ℤ (signed stat.probe_success_count) (signed stat.probe_failure_count))
        stats)

-- `a - b` in a register of 64 bits.
unfoldable pub sub64 : ℤ → ℤ → ℤ
unfolding wrap
sub64 a b = wrap (sub_ℕ (pos_part a + neg_part b) (neg_part a + pos_part b))

abbrev pub at_least_zero : ℤ → ℤ
at_least_zero count = if ltb_ℤ (pos 0) count then count else pos 0

unfoldable pub lowered : ℤ → TargetStatus → ℤ
unfolding sub64 signed
lowered count stat = at_least_zero (sub64 count (signed stat.request_count))

unfoldable pub count_map : List PathCount → Dict ℤ → Dict ℤ
unfolding insert
count_map [] counts = counts
count_map (c ∷ cs) counts = count_map cs (insert c.path c.count counts)

abbrev lower_found : Option ℤ → TargetStatus → Dict ℤ → Dict ℤ
unfolding insert lowered
lower_found none stat counts = counts
lower_found (some count) stat counts = insert stat.rule (lowered count stat) counts

-- The loop over the statistics of the targets.
unfoldable pub lower_all : List TargetStatus → Dict ℤ → Dict ℤ
unfolding lower_found lookup
lower_all [] counts = counts
lower_all (stat ∷ stats) counts =
    lower_all stats (lower_found (lookup stat.rule counts) stat counts)

abbrev pub path_less : String → String → Bool
path_less a b = elim (compare a b) [ Ordering.lt ↦ true | _ ↦ false ]

-- `sort.Slice` by the path: the paths of a map differ, so every sorting algorithm gives the same list.
unfoldable pub insert_by_path : String × ℤ → Dict ℤ → Dict ℤ
insert_by_path e [] = e ∷ []
insert_by_path e (d ∷ ds) = if path_less d.0 e.0 then d ∷ insert_by_path e ds else e ∷ d ∷ ds

unfoldable pub sort_by_path : Dict ℤ → Dict ℤ
unfolding insert_by_path
sort_by_path [] = []
sort_by_path (e ∷ es) = insert_by_path e (sort_by_path es)

-- Nothing after an error of the read.
unfoldable pub path_stats : Option (List PathCount) → List TargetStatus → Dict ℤ
unfolding count_map lower_all sort_by_path
path_stats none stats = []
path_stats (some counts) stats = sort_by_path (lower_all stats (count_map counts []))

-- `getCachedPathStats`.
unfoldable pub get_cached_path_stats :
    {S : Type 0}
    → (String → Option ℤ)
    → Option (Commands S)
    → Dict RoutingRules
    → List TargetStatus
    → S
    → Outcome (Dict ℤ)
unfolding batch_get_path_req_count path_stats
get_cached_path_stats parse_int client rules stats s =
    batch_get_path_req_count parse_int client (map (λ entry. entry.0) rules) s >>= λ counts.
    returns (path_stats counts stats)
