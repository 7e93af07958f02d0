-- ===== src/Config/Views.antt =====
-- The three views of the routing rules: what each holds for a path.
use mini_gateway.Common.{
  ◌≡◌, refl, ◌∙◌, String, Bool, true, false, not, ◌&&◌, [], ◌∷◌, Option, none, some, Dict, lookup,
  insert, lookup-insert, any, select, length, ltb, arith, inl, inr, Bool-cases, str_eq, eq_iff,
  if◌then◌else◌,
}
use mini_gateway.Config.{
  RoutingRule, RoutingRules, has_grpc_rule, has_websocket_rule, is_websocket, websocket_rules_from,
  grpc_rules_from, http_rules_from, get_websocket_rules, get_grpc_rules, get_http_rules,
}

-- A Go map has one entry for a key.
abbrev pub HasDistinctKeys : {V : Type 0} → Dict V → Type 0
HasDistinctKeys [] = Unit {0}
HasDistinctKeys (e ∷ rest) = (lookup e.0 rest ≡ none) × HasDistinctKeys rest

-- What a view keeps of a path's rules.
abbrev pub keep_http : RoutingRules → Option RoutingRules
keep_http rules =
    if not (has_grpc_rule rules) && not (has_websocket_rule rules) then some rules else none

abbrev pub keep_grpc : RoutingRules → Option RoutingRules
keep_grpc rules = if has_grpc_rule rules then some rules else none

abbrev pub keep_websocket : RoutingRules → Option RoutingRules
keep_websocket rules = if has_websocket_rule rules then some (select is_websocket rules) else none

abbrev pub view_at :
    (RoutingRules → Option RoutingRules) → Option RoutingRules → Option RoutingRules
view_at keep none = none
view_at keep (some rules) = keep rules

lookup-nil : (path : String) → lookup {V = RoutingRules} path [] ≡ none
unfolding lookup
lookup-nil path = refl

-- A loop that writes what is kept of each entry.
abbrev put : String → Option RoutingRules → Dict RoutingRules → Dict RoutingRules
put path none done = done
put path (some kept) done = insert path kept done

fill :
    (RoutingRules → Option RoutingRules) → Dict RoutingRules → Dict RoutingRules → Dict RoutingRules
fill keep done [] = done
fill keep done (e ∷ rest) = fill keep (put e.0 (keep e.1) done) rest

lookup-put_other :
    (key path : String) (kept : Option RoutingRules) (done : Dict RoutingRules)
    → str_eq key path ≡ false
    → lookup path (put key kept done) ≡ lookup path done
lookup-put_other key path none done ne = refl
lookup-put_other key path (some kept) done ne = rw (lookup-insert, ne)

lookup-put_self :
    (key path : String) (kept : Option RoutingRules) (done : Dict RoutingRules)
    → str_eq key path ≡ true
    → lookup path done ≡ none
    → lookup path (put key kept done) ≡ kept
lookup-put_self key path none done eq h = h
lookup-put_self key path (some kept) done eq h = rw (lookup-insert, eq)

fill_other :
    (keep : RoutingRules → Option RoutingRules) (path : String) (done rules : Dict RoutingRules)
    → lookup path rules ≡ none
    → lookup path (fill keep done rules) ≡ lookup path done
unfolding fill lookup
fill_other keep path done [] h = refl
fill_other keep path done (e ∷ rest) h = elim (Bool-cases (str_eq e.0 path)) [
  | inl eq ↦ cc (rw eq at h)
  | inr ne ↦
      fill_other keep path (put e.0 (keep e.1) done) rest (rw ne at h)
      ∙ lookup-put_other e.0 path (keep e.1) done ne
]

fill_lem :
    (keep : RoutingRules → Option RoutingRules) (path : String) (done rules : Dict RoutingRules)
    → HasDistinctKeys rules
    → lookup path done ≡ none
    → lookup path (fill keep done rules) ≡ view_at keep (lookup path rules)
unfolding fill lookup
fill_lem keep path done [] d h = h
fill_lem keep path done (e ∷ rest) d h = elim (Bool-cases (str_eq e.0 path)) [
  | inl eq ↦ rw eq (
      fill_other keep path (put e.0 (keep e.1) done) rest (rw ((eq_iff e.0 path).0 eq) at d.0)
      ∙ lookup-put_self e.0 path (keep e.1) done eq h)
  | inr ne ↦ rw ne (
      fill_lem keep path (put e.0 (keep e.1) done) rest d.1
        (lookup-put_other e.0 path (keep e.1) done ne ∙ h))
]

http_rules-fill :
    (done rules : Dict RoutingRules) → http_rules_from done rules ≡ fill keep_http done rules
unfolding fill http_rules_from
http_rules-fill done [] = refl
http_rules-fill done (e ∷ rest) =
    elim (Bool-cases (not (has_grpc_rule e.1) && not (has_websocket_rule e.1))) [
      | inl kept ↦ rw kept (http_rules-fill (insert e.0 e.1 done) rest)
      | inr dropped ↦ rw dropped (http_rules-fill done rest)
    ]

grpc_rules-fill :
    (done rules : Dict RoutingRules) → grpc_rules_from done rules ≡ fill keep_grpc done rules
unfolding fill grpc_rules_from
grpc_rules-fill done [] = refl
grpc_rules-fill done (e ∷ rest) = elim (Bool-cases (has_grpc_rule e.1)) [
  | inl kept ↦ rw kept (grpc_rules-fill (insert e.0 e.1 done) rest)
  | inr dropped ↦ rw dropped (grpc_rules-fill done rest)
]

-- A filtered list is empty exactly when no rule passes.
select-any :
    (p : RoutingRule → Bool) (rules : RoutingRules) → ltb 0 (length (select p rules)) ≡ any p rules
select-any p [] = refl
select-any p (r ∷ rs) = ground (arith, select-any p rs)

websocket_rules-fill :
    (done rules : Dict RoutingRules)
    → websocket_rules_from done rules ≡ fill keep_websocket done rules
unfolding fill websocket_rules_from has_websocket_rule
websocket_rules-fill done [] = refl
websocket_rules-fill done (e ∷ rest) = elim (Bool-cases (has_websocket_rule e.1)) [
  | inl kept ↦
      rw (select-any is_websocket e.1, kept)
        (websocket_rules-fill (insert e.0 (select is_websocket e.1) done) rest)
  | inr dropped ↦ rw (select-any is_websocket e.1, dropped) (websocket_rules-fill done rest)
]

-- Of the rules of a path, the HTTP view holds all if none is for gRPC and none for WebSocket, and
-- else nothing; the gRPC view holds all if one is for gRPC; the WebSocket view holds those that are
-- for WebSocket, if there are any. A path that is not configured is in no view. Keys occur once.
pub views_lem :
    (rules : Dict RoutingRules) (path : String)
    → HasDistinctKeys rules
    → (lookup path (get_http_rules rules) ≡ view_at keep_http (lookup path rules))
      × (lookup path (get_grpc_rules rules) ≡ view_at keep_grpc (lookup path rules))
      × (lookup path (get_websocket_rules rules) ≡ view_at keep_websocket (lookup path rules))
unfolding get_http_rules get_grpc_rules get_websocket_rules
views_lem rules path d = (
  rw (http_rules-fill [] rules) (fill_lem keep_http path [] rules d (lookup-nil path)),
  rw (grpc_rules-fill [] rules) (fill_lem keep_grpc path [] rules d (lookup-nil path)),
  rw (websocket_rules-fill [] rules) (fill_lem keep_websocket path [] rules d (lookup-nil path)),
)
