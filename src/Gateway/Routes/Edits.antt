-- ===== src/Gateway/Routes/Edits.antt =====
-- What a sequence of administrative requests makes of the rules of one path.
use mini_gateway.Common.{
  arith, ◌&&◌, ◌≡◌, refl, ap, subst, sym, ◌∙◌, String, Bool, true, false, not, List, [], ◌∷◌,
  Option, none, some, Dict, lookup, str_eq, eq_iff, Bool-cases, inl, inr, if◌then◌else◌,
}
use mini_gateway.Config.{RoutingRules, get_http_rules, get_grpc_rules, get_websocket_rules}
use mini_gateway.Config.Views.{
  HasDistinctKeys, view_at, keep_http, keep_grpc, keep_websocket, views_lem,
}
use mini_gateway.Gateway.Routes.{
  Payload, bind_json, bind_rules, Method, handle_add_route, handle_update_route,
  handle_delete_route, handle,
}
use mini_gateway.Gateway.Routes.Admin.{rules_for, handle_lem, run, run-HasDistinctKeys}

-- The rules of a path after a request for it: an addition changes nothing where there are rules, a change of the rules
-- nothing where there are none.
abbrev pub edited : Method → RoutingRules → Option RoutingRules → Option RoutingRules
edited handle_add_route new none = some new
edited handle_add_route new (some old) = some old
edited handle_update_route new none = none
edited handle_update_route new (some old) = some new
edited handle_delete_route new old = none

-- A request for another path, without a path or without rules changes nothing.
abbrev edited_if : Bool → Method → Option RoutingRules → Option RoutingRules → Option RoutingRules
edited_if concerns method none old = old
edited_if concerns method (some new) old = if concerns then edited method new old else old

abbrev pub edited_by : String → Method → Option Payload → Option RoutingRules → Option RoutingRules
edited_by path method none old = old
edited_by path method (some p) old =
    edited_if (not (str_eq p.path "") && str_eq p.path path) method p.rules old

abbrev pub edits :
    String → List (Method × Option Payload) → Option RoutingRules → Option RoutingRules
edits path [] old = old
edits path (request ∷ requests) old = edits path requests (edited_by path request.0 request.1 old)

rules_for-edited_at :
    (method : Method) (path : String) (new : RoutingRules) (rules : Dict RoutingRules)
    (old : Option RoutingRules)
    → lookup path rules ≡ old
    → str_eq path path ≡ true
    → rules_for method (some (path, new)) rules path ≡ edited method new old
rules_for-edited_at handle_add_route path new rules none e own = rw (own, e) refl
rules_for-edited_at handle_add_route path new rules (some old) e own = rw (own, e) refl
rules_for-edited_at handle_update_route path new rules none e own = rw (own, e) refl
rules_for-edited_at handle_update_route path new rules (some old) e own = rw (own, e) refl
rules_for-edited_at handle_delete_route path new rules none e own = rw (own, e) refl
rules_for-edited_at handle_delete_route path new rules (some old) e own = rw (own, e) refl

rules_for-other :
    (method : Method) (at path : String) (new : RoutingRules) (rules : Dict RoutingRules)
    → str_eq at path ≡ false
    → rules_for method (some (at, new)) rules path ≡ lookup path rules
rules_for-other method at path new rules differ = ground (arith, differ)

rules_for-edited_if :
    (method : Method) (at path : String) (given : Option RoutingRules) (rules : Dict RoutingRules)
    → rules_for method (bind_rules at given) rules path
      ≡ edited_if (not (str_eq at "") && str_eq at path) method given (lookup path rules)
unfolding bind_rules
rules_for-edited_if method at path none rules = refl
rules_for-edited_if method at path (some new) rules = elim (Bool-cases (str_eq at "")) [
  | inl empty ↦ rw empty refl
  | inr named ↦ elim (Bool-cases (str_eq at path)) [
    | inl own ↦
        let here : rules_for method (some (at, new)) rules path
            ≡ edited method new (lookup path rules) =
          subst
            (λ k.
              rules_for method (some (k, new)) rules path ≡ edited method new (lookup path rules))
            (sym ((eq_iff at path).0 own))
            (rules_for-edited_at method path new rules (lookup path rules) refl
              ((eq_iff path path).1 refl)) in
        rw named (cc (here, own))
    | inr differ ↦ rw named (rules_for-other method at path new rules differ ∙ rw differ refl)
  ]
]

rules_for-edited_by :
    (method : Method) (body : Option Payload) (path : String) (rules : Dict RoutingRules)
    → rules_for method (bind_json body) rules path ≡ edited_by path method body (lookup path rules)
unfolding bind_json
rules_for-edited_by method none path rules = refl
rules_for-edited_by method (some p) path rules =
    rules_for-edited_if method p.path path p.rules rules

run-edits_at :
    (requests : List (Method × Option Payload)) (rules : Dict RoutingRules) (path : String)
    → lookup path (run requests rules) ≡ edits path requests (lookup path rules)
unfolding run
run-edits_at [] rules path = refl
run-edits_at ((method, body) ∷ requests) rules path =
    run-edits_at requests (handle method body rules).1 path
    ∙ ap (edits path requests)
        ((handle_lem method body rules).1 path ∙ rules_for-edited_by method body path rules)

-- After any sequence of administrative requests, from rules with one entry for a path, the rules of a path are what one
-- request after another makes of them: for this path and with rules, an addition sets them if there are none, a change
-- if there are some, and a deletion removes them; any other request leaves them. The three views hold what they keep
-- of just these rules.
pub run-edits :
    (requests : List (Method × Option Payload)) (rules : Dict RoutingRules) (path : String)
    → HasDistinctKeys rules
    → let kept = edits path requests (lookup path rules) in
      (lookup path (run requests rules) ≡ kept)
      × (lookup path (get_http_rules (run requests rules)) ≡ view_at keep_http kept)
      × (lookup path (get_grpc_rules (run requests rules)) ≡ view_at keep_grpc kept)
      × (lookup path (get_websocket_rules (run requests rules)) ≡ view_at keep_websocket kept)
run-edits requests rules path h =
    let same = run-edits_at requests rules path in
    let (http, grpc, websocket) =
      views_lem (run requests rules) path (run-HasDistinctKeys requests rules h) in
    (
      same,
      http ∙ ap (view_at keep_http) same,
      grpc ∙ ap (view_at keep_grpc) same,
      websocket ∙ ap (view_at keep_websocket) same,
    )
