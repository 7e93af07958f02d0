-- ===== src/Router/Regexp/Matches.antt =====
-- `Match` finds a route exactly when the pattern of one compiles and matches.
use mini_gateway.Common.{
  ◌≡◌, refl, Bool, map, ◌⊎◌, sym, ◌∙◌, All-map, true, false, String, List, [], ◌∷◌, Option, none,
  some, Dict, lookup, insert, arith, Bool-cases, inl, inr, All, eq_iff, str_eq, Elem, lookup-insert,
  Option-cases, eq_refl,
}
use mini_gateway.Config.{RoutingRules, get_http_rules}
use mini_gateway.Router.TrieRegexp.{anchored}
use mini_gateway.Router.Regexp.{
  rules_of, add_compiled, register_rule, register_all, new_regexp_router, match_from, match_path,
}

All-insert :
    {R : Type 0} (P : String × R → Type 0) (key : String) (value : R) (rules : Dict R)
    → P (key, value)
    → All P rules
    → All P (insert key value rules)
unfolding insert
All-insert P key value [] p h = (p, tt)
All-insert P key value (e ∷ rest) p h = elim (Bool-cases (str_eq e.0 key)) [
  | inl eq ↦ rw eq (p, h.1)
  | inr ne ↦ rw ne (h.0, All-insert P key value rest p h.1)
]

All-lookup :
    {R : Type 0} (Q : R → Type 0) (key : String) (value : R) (rules : Dict R)
    → All (λ e. Q e.1) rules
    → lookup key rules ≡ some value
    → Q value
unfolding lookup
All-lookup Q key value [] h e = cc
All-lookup Q key value (e ∷ rest) h found = elim (Bool-cases (str_eq e.0 key)) [
  | inl eq ↦ let same : some e.1 ≡ some value = rw eq at found in ground (arith, h.0)
  | inr ne ↦ All-lookup Q key value rest h.1 (rw ne at found)
]

module _ {R : Type 0} (compile : String → Option R) where
  -- The entry is a route's pattern, compiled.
  abbrev IsRoute : List String → String × R → Type 0
  IsRoute paths e = Elem e.0 paths × (compile (anchored e.0) ≡ some e.1)

  register_rule-IsRoute :
      (paths : List String) (path : String) (rules : Dict R)
      → Elem path paths
      → All (IsRoute paths) rules
      → All (IsRoute paths) (register_rule compile path rules)
  unfolding register_rule add_compiled
  register_rule-IsRoute paths path rules m h = elim (Option-cases (compile (anchored path))) [
    | inl broken ↦ rw broken h
    | inr (re, compiled) ↦ rw compiled (All-insert (IsRoute paths) path re rules (m, compiled) h)
  ]

  register_all-IsRoute :
      (paths : List String) (routes : Dict RoutingRules) (rules : Dict R)
      → All (λ e. Elem e.0 paths) routes
      → All (IsRoute paths) rules
      → All (IsRoute paths) (register_all compile routes rules)
  unfolding register_all
  register_all-IsRoute paths [] rules m h = h
  register_all-IsRoute paths (e ∷ rest) rules m h =
      register_all-IsRoute paths rest (register_rule compile e.0 rules) m.1
        (register_rule-IsRoute paths e.0 rules m.0 h)

  lookup-register_rule :
      (path : String) (key : String) (re : R) (rules : Dict R)
      → compile (anchored key) ≡ some re
      → (str_eq path key ≡ true) ⊎ (lookup key rules ≡ some re)
      → lookup key (register_rule compile path rules) ≡ some re
  unfolding register_rule add_compiled
  lookup-register_rule path key re rules c h =
      let same : str_eq path key ≡ true → compile (anchored path) ≡ some re =
        λ eq. (let paths_eq : path ≡ key = (eq_iff path key).0 eq in rw paths_eq c) in
      elim (Option-cases (compile (anchored path))) [
        | inl broken ↦ rw broken (elim h [
          | inl eq ↦ (let clash : none ≡ some re = sym broken ∙ same eq in cc)
          | inr found ↦ found
        ])
        | inr (re', compiled) ↦
            rw (compiled, lookup-insert path key re' rules)
              (elim (Bool-cases (str_eq path key)) [
                | inl eq ↦ rw eq (sym compiled ∙ same eq)
                | inr ne ↦
                    rw ne (elim h [ inl eq ↦ absurd (ground (arith, eq, ne)) | inr found ↦ found ])
              ])
      ]

  lookup-register_all :
      (routes : Dict RoutingRules) (key : String) (re : R) (rules : Dict R)
      → compile (anchored key) ≡ some re
      → lookup key rules ≡ some re
      → lookup key (register_all compile routes rules) ≡ some re
  unfolding register_all
  lookup-register_all [] key re rules c h = h
  lookup-register_all (e ∷ rest) key re rules c h =
      lookup-register_all rest key re (register_rule compile e.0 rules) c
        (lookup-register_rule e.0 key re rules c (inr h))

  -- A route whose pattern compiles is registered.
  register_all-All :
      (routes : Dict RoutingRules) (rules : Dict R)
      → All
          (λ e.
            (re : R)
            → compile (anchored e.0) ≡ some re
            → lookup e.0 (register_all compile routes rules) ≡ some re)
          routes
  unfolding register_all
  register_all-All [] rules = tt
  register_all-All (e ∷ rest) rules = (
    λ re c.
        lookup-register_all rest e.0 re (register_rule compile e.0 rules) c
          (lookup-register_rule e.0 e.0 re rules c (inl (eq_refl e.0))),
    register_all-All rest (register_rule compile e.0 rules),
  )

abbrev pub paths_of : Dict RoutingRules → List String
paths_of routes = map (λ e. e.0) routes

match_from-some :
    {R : Type 0} (matches : R → String → Bool) (rules : Dict R) (path : String)
    (cfg_rules : Dict RoutingRules) (found : RoutingRules)
    → match_from matches rules path cfg_rules ≡ some found
    → (e : String × R) × Elem e rules
      × (matches e.1 path ≡ true)
      × (found ≡ rules_of (lookup e.0 cfg_rules))
unfolding match_from
match_from-some matches [] path cfg_rules found h = cc
match_from-some matches (e ∷ rest) path cfg_rules found h = elim (Bool-cases (matches e.1 path)) [
  | inl hit ↦
      let first : some (rules_of (lookup e.0 cfg_rules)) ≡ some found = rw hit at h in
      (e, inl refl, hit, ground arith)
  | inr miss ↦
      let (e', m, hit, same) = match_from-some matches rest path cfg_rules found (rw miss at h) in
      (e', inr m, hit, same)
]

match_from-none :
    {R : Type 0} (matches : R → String → Bool) (rules : Dict R) (path : String)
    (cfg_rules : Dict RoutingRules)
    → match_from matches rules path cfg_rules ≡ none
    → All (λ e. matches e.1 path ≡ false) rules
unfolding match_from
match_from-none matches [] path cfg_rules h = tt
match_from-none matches (e ∷ rest) path cfg_rules h = elim (Bool-cases (matches e.1 path)) [
  | inl hit ↦ let first : some (rules_of (lookup e.0 cfg_rules)) ≡ none = rw hit at h in cc
  | inr miss ↦ (miss, match_from-none matches rest path cfg_rules (rw miss at h))
]

All-Elem_at :
    {R : Type 0} (P : String × R → Type 0) (e : String × R) (rules : Dict R)
    → All P rules
    → Elem e rules
    → P e
All-Elem_at P e [] h m = elim m [ ]
All-Elem_at P e (x ∷ rest) h m = elim m [
  | inl same ↦ rw same h.0
  | inr later ↦ All-Elem_at P e rest h.1 later
]

All-paths_of : (routes : Dict RoutingRules) → All (λ e. Elem e.0 (paths_of routes)) routes
All-paths_of [] = tt
All-paths_of (e ∷ rest) = (inl refl, All-map (λ x m. inr m) rest (All-paths_of rest))

module _ {R : Type 0} (compile : String → Option R) (matches : R → String → Bool) where
  abbrev compiled_matches : Option R → String → Bool
  compiled_matches none path = false
  compiled_matches (some re) path = matches re path

  -- The pattern compiles and matches the path.
  abbrev pub pattern_matches : String → String → Bool
  pattern_matches pattern path = compiled_matches (compile (anchored pattern)) path

  -- What an answer for a path means: configured rules of an HTTP route whose pattern matches, or no HTTP
  -- route with such a pattern.
  abbrev pub IsAnswer : Dict RoutingRules → String → Option RoutingRules → Type 0
  IsAnswer rules path none = All (λ e. pattern_matches e.0 path ≡ false) (get_http_rules rules)
  IsAnswer rules path (some found) =
      (pattern : String) × Elem pattern (paths_of (get_http_rules rules))
      × (pattern_matches pattern path ≡ true)
      × (found ≡ rules_of (lookup pattern rules))

  none_matches :
      (pattern path : String)
      → ((re : R) → compile (anchored pattern) ≡ some re → matches re path ≡ false)
      → pattern_matches pattern path ≡ false
  none_matches pattern path h = elim (Option-cases (compile (anchored pattern))) [
    | inl broken ↦ rw broken refl
    | inr (re, compiled) ↦ rw compiled (h re compiled)
  ]

  -- A path that is found has the configured rules of an HTTP route whose pattern compiles and matches
  -- it; when none is found, no HTTP route has a pattern that compiles and matches.
  pub match_path_lem :
      (rules : Dict RoutingRules) (path : String)
      → IsAnswer rules path (match_path matches (new_regexp_router compile rules) path)
  unfolding match_path new_regexp_router
  match_path_lem rules path =
      let http = get_http_rules rules in
      let registered = register_all compile http [] in
      elim (Option-cases (match_from matches registered path rules)) [
        | inr (found, h) ↦
            let (e, m, hit, same) = match_from-some matches registered path rules found h in
            let (route, compiled) =
              All-Elem_at (IsRoute compile (paths_of http)) e registered
                (register_all-IsRoute compile (paths_of http) http [] (All-paths_of http) tt) m in
            rw h (e.0, route, rw compiled hit, same)
        | inl h ↦ rw h (
            All-map
              (λ e at. none_matches e.0 path (λ re c.
                All-lookup (λ r. matches r path ≡ false) e.0 re registered
                  (match_from-none matches registered path rules h) (at re c)))
              http (register_all-All compile http []))
      ]
