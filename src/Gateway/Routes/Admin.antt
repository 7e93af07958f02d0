-- ===== src/Gateway/Routes/Admin.antt =====
-- The handlers against a finite map from paths to rules.
use mini_gateway.Common.{
  ◌&&◌, ◌==◌, ℕ, ◌≡◌, refl, String, Bool, false, List, [], ◌∷◌, Option, none, some, Dict, lookup,
  insert, delete, lookup-insert, lookup-delete, str_eq, eq_iff, arith, Bool-cases, inl, inr,
  if◌then◌else◌,
}
use mini_gateway.Config.{RoutingRules}
use mini_gateway.Config.Views.{HasDistinctKeys}
use mini_gateway.Gateway.Routes.{
  Payload, bind_json, exists, add_route, update_route, delete_route, Method, handle_add_route,
  handle_update_route, handle_delete_route, handle,
}

-- The status for a well-formed body, by whether its path is routed.
abbrev pub status_of : Method → Bool → ℕ
status_of handle_add_route routed = if routed then 409 else 200
status_of handle_update_route routed = if routed then 200 else 404
status_of handle_delete_route routed = if routed then 200 else 404

-- The rules of the path after a handler that succeeds.
abbrev pub rules_after : Method → RoutingRules → Option RoutingRules
rules_after handle_add_route new = some new
rules_after handle_update_route new = some new
rules_after handle_delete_route new = none

-- The status for a body: 400 when it is not well formed.
abbrev pub status_for : Method → Option (String × RoutingRules) → Dict RoutingRules → ℕ
status_for method none rules = 400
status_for method (some (path, new)) rules = status_of method (exists (lookup path rules))

-- The rules of a path after the handler: on the status 200 those of the body, or none after a deletion,
-- for the body's path; else as before.
abbrev pub rules_for :
    Method → Option (String × RoutingRules) → Dict RoutingRules → String → Option RoutingRules
rules_for method none rules other = lookup other rules
rules_for method (some (path, new)) rules other =
    if status_of method (exists (lookup path rules)) == 200 && str_eq path other
    then rules_after method new
    else lookup other rules

add_route_lem :
    (bound : Option (String × RoutingRules)) (rules : Dict RoutingRules)
    → ((add_route bound rules).0 ≡ status_for handle_add_route bound rules)
      × ((other : String)
          → lookup other (add_route bound rules).1 ≡ rules_for handle_add_route bound rules other)
unfolding add_route
add_route_lem none rules = (refl, λ other. refl)
add_route_lem (some (path, new)) rules = elim (Bool-cases (exists (lookup path rules))) [
  | inl routed ↦ rw routed (refl, λ other. refl)
  | inr free ↦ rw free (refl, λ other. rw (lookup-insert path other new rules) refl)
]

update_route_lem :
    (bound : Option (String × RoutingRules)) (rules : Dict RoutingRules)
    → ((update_route bound rules).0 ≡ status_for handle_update_route bound rules)
      × ((other : String)
          → lookup other (update_route bound rules).1
            ≡ rules_for handle_update_route bound rules other)
unfolding update_route
update_route_lem none rules = (refl, λ other. refl)
update_route_lem (some (path, new)) rules = elim (Bool-cases (exists (lookup path rules))) [
  | inl routed ↦ rw routed (refl, λ other. rw (lookup-insert path other new rules) refl)
  | inr free ↦ rw free (refl, λ other. refl)
]

delete_route_lem :
    (bound : Option (String × RoutingRules)) (rules : Dict RoutingRules)
    → ((delete_route bound rules).0 ≡ status_for handle_delete_route bound rules)
      × ((other : String)
          → lookup other (delete_route bound rules).1
            ≡ rules_for handle_delete_route bound rules other)
unfolding delete_route
delete_route_lem none rules = (refl, λ other. refl)
delete_route_lem (some (path, new)) rules = elim (Bool-cases (exists (lookup path rules))) [
  | inl routed ↦ rw routed (refl, λ other. rw (lookup-delete path other rules) refl)
  | inr free ↦ rw free (refl, λ other. refl)
]

-- A handler as a step on a finite map: a body that is not well formed is answered 400, and else the
-- status tells whether the path was routed; on 200 the rules of that path, and of no other, are those of
-- the body, or gone after a deletion; on another status no path's rules change.
pub handle_lem :
    (method : Method) (body : Option Payload) (rules : Dict RoutingRules)
    → ((handle method body rules).0 ≡ status_for method (bind_json body) rules)
      × ((other : String)
          → lookup other (handle method body rules).1
            ≡ rules_for method (bind_json body) rules other)
unfolding handle
handle_lem handle_add_route body rules = add_route_lem (bind_json body) rules
handle_lem handle_update_route body rules = update_route_lem (bind_json body) rules
handle_lem handle_delete_route body rules = delete_route_lem (bind_json body) rules

insert-HasDistinctKeys :
    (path : String) (new : RoutingRules) (rules : Dict RoutingRules)
    → HasDistinctKeys rules
    → HasDistinctKeys (insert path new rules)
unfolding insert lookup
insert-HasDistinctKeys path new [] h = (refl, tt)
insert-HasDistinctKeys path new (e ∷ rest) h = elim (Bool-cases (str_eq e.0 path)) [
  | inl same ↦ let key : e.0 ≡ path = (eq_iff e.0 path).0 same in rw same (rw (← key) h.0, h.1)
  | inr other ↦
      let apart : str_eq path e.0 ≡ false =
        ground (arith, eq_iff e.0 path, eq_iff path e.0, other) in
      rw other
        (rw (lookup-insert path e.0 new rest, apart) h.0, insert-HasDistinctKeys path new rest h.1)
]

delete-HasDistinctKeys :
    (path : String) (rules : Dict RoutingRules)
    → HasDistinctKeys rules
    → HasDistinctKeys (delete path rules)
unfolding delete
delete-HasDistinctKeys path [] h = h
delete-HasDistinctKeys path (e ∷ rest) h = elim (Bool-cases (str_eq e.0 path)) [
  | inl same ↦ rw same (delete-HasDistinctKeys path rest h.1)
  | inr other ↦
      let apart : str_eq path e.0 ≡ false =
        ground (arith, eq_iff e.0 path, eq_iff path e.0, other) in
      rw other (rw (lookup-delete path e.0 rest, apart) h.0, delete-HasDistinctKeys path rest h.1)
]

add_route-HasDistinctKeys :
    (bound : Option (String × RoutingRules)) (rules : Dict RoutingRules)
    → HasDistinctKeys rules
    → HasDistinctKeys (add_route bound rules).1
unfolding add_route
add_route-HasDistinctKeys none rules h = h
add_route-HasDistinctKeys (some (path, new)) rules h =
    elim (Bool-cases (exists (lookup path rules))) [
      | inl routed ↦ rw routed (h)
      | inr free ↦ rw free (insert-HasDistinctKeys path new rules h)
    ]

update_route-HasDistinctKeys :
    (bound : Option (String × RoutingRules)) (rules : Dict RoutingRules)
    → HasDistinctKeys rules
    → HasDistinctKeys (update_route bound rules).1
unfolding update_route
update_route-HasDistinctKeys none rules h = h
update_route-HasDistinctKeys (some (path, new)) rules h =
    elim (Bool-cases (exists (lookup path rules))) [
      | inl routed ↦ rw routed (insert-HasDistinctKeys path new rules h)
      | inr free ↦ rw free (h)
    ]

delete_route-HasDistinctKeys :
    (bound : Option (String × RoutingRules)) (rules : Dict RoutingRules)
    → HasDistinctKeys rules
    → HasDistinctKeys (delete_route bound rules).1
unfolding delete_route
delete_route-HasDistinctKeys none rules h = h
delete_route-HasDistinctKeys (some (path, new)) rules h =
    elim (Bool-cases (exists (lookup path rules))) [
      | inl routed ↦ rw routed (delete-HasDistinctKeys path rules h)
      | inr free ↦ rw free (h)
    ]

handle-HasDistinctKeys :
    (method : Method) (body : Option Payload) (rules : Dict RoutingRules)
    → HasDistinctKeys rules
    → HasDistinctKeys (handle method body rules).1
unfolding handle
handle-HasDistinctKeys handle_add_route body rules h =
    add_route-HasDistinctKeys (bind_json body) rules h
handle-HasDistinctKeys handle_update_route body rules h =
    update_route-HasDistinctKeys (bind_json body) rules h
handle-HasDistinctKeys handle_delete_route body rules h =
    delete_route-HasDistinctKeys (bind_json body) rules h

-- The rules after a sequence of administrative requests.
unfoldable pub run : List (Method × Option Payload) → Dict RoutingRules → Dict RoutingRules
unfolding handle
run [] rules = rules
run (request ∷ requests) rules = run requests (handle request.0 request.1 rules).1

pub run-HasDistinctKeys :
    (requests : List (Method × Option Payload)) (rules : Dict RoutingRules)
    → HasDistinctKeys rules
    → HasDistinctKeys (run requests rules)
unfolding run
run-HasDistinctKeys [] rules h = h
run-HasDistinctKeys (request ∷ requests) rules h =
    run-HasDistinctKeys requests (handle request.0 request.1 rules).1
      (handle-HasDistinctKeys request.0 request.1 rules h)
