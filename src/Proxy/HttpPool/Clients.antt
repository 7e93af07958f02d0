-- ===== src/Proxy/HttpPool/Clients.antt =====
-- The clients of the pool: one to a host, and never replaced.
use mini_gateway.Common.{
  ℕ, suc, ◌≡◌, String, inl, inr, Bool, true, false, List, [], ◌∷◌, Option, none, some, Dict, lookup,
  insert, lookup-insert, lookup-insert_self, eq_iff, Option-cases, if◌then◌else◌, refl, ap, ◌∙◌,
  arith,
}
use mini_gateway.Config.{RoutingRules, get_http_rules}
use mini_gateway.Proxy.HttpPool.{
  HostClient, HttpPool, new_host_client, load_or_store, normalize_target, load_host, get_client,
  get_all, initialize_host, initialize_rules, initialize_routes, new_http_pool, initialize_pool,
}

-- Every client is for the host under which it is kept, with the configured limit, and one of those made.
pub record IsPool (p : HttpPool) : Type 0 where
  pub kept :
      (host : String) (c : HostClient)
      → lookup host p.clients ≡ some c
      → (c.addr ≡ host) × (c.max_conns ≡ p.max_conns_per_host)

-- The clients that were there stay.
abbrev pub Extends : HttpPool → HttpPool → Type 0
Extends p q =
    (host : String) (c : HostClient)
    → lookup host p.clients ≡ some c
    → lookup host q.clients ≡ some c

module _ (p : HttpPool) (host : String) (client : HostClient) where
  abbrev with_client : HttpPool
  with_client = record p { made = suc p.made; clients = insert host client p.clients }

  with_client-IsPool :
      client.addr ≡ host → client.max_conns ≡ p.max_conns_per_host → IsPool p → IsPool with_client
  with_client-IsPool a m v = record {
    kept = λ h c e.
        ground (arith, e, lookup-insert host h client p.clients, eq_iff host h, v.kept h c);
  }

  with_client-Extends : lookup host p.clients ≡ none → Extends p with_client
  with_client-Extends missing h c e =
      ground (arith, e, missing, lookup-insert host h client p.clients, eq_iff host h)

-- What one call of LoadOrStore gives.
load_or_store_lem :
    (p : HttpPool) (host : String)
    → IsPool p
    → IsPool (load_or_store p host).1
      × Extends p (load_or_store p host).1
      × (lookup host (load_or_store p host).1.clients ≡ some (load_or_store p host).0)
unfolding load_or_store new_host_client
load_or_store_lem p host v = elim (Option-cases (lookup host p.clients)) [
  | inl missing ↦
      let client = new_host_client p host in
      rw missing (
        with_client-IsPool p host client refl refl v,
        with_client-Extends p host client missing,
        lookup-insert_self host client p.clients,
      )
  | inr (old, found) ↦ rw found (record { kept = v.kept }, λ h c e. e, found)
]

module _ (host_of : String → Option String) where
  load_host_lem :
      (p : HttpPool) (host : String)
      → IsPool p
      → IsPool (load_host host_of p host (lookup host p.clients)).1
        × Extends p (load_host host_of p host (lookup host p.clients)).1
        × (lookup host (load_host host_of p host (lookup host p.clients)).1.clients
            ≡ some (load_host host_of p host (lookup host p.clients)).0)
  unfolding load_host
  load_host_lem p host v = elim (Option-cases (lookup host p.clients)) [
    | inl missing ↦ rw missing (load_or_store_lem p host v)
    | inr (old, found) ↦ rw found (v, λ h c e. e, found)
  ]

  get_client-some :
      (target host : String) (p : HttpPool)
      → normalize_target host_of target ≡ some host
      → get_client host_of target p ≡ (
        some (load_host host_of p host (lookup host p.clients)).0,
        (load_host host_of p host (lookup host p.clients)).1,
      )
  unfolding get_client
  get_client-some target host p e = rw e refl

  get_client-known :
      (target host : String) (p : HttpPool) (c : HostClient)
      → normalize_target host_of target ≡ some host
      → lookup host p.clients ≡ some c
      → get_client host_of target p ≡ (some c, p)
  unfolding load_host
  get_client-known target host p c e found = get_client-some target host p e ∙ λ j.
      (let (k, p') = load_host host_of p host (found j) in (some k, p'))

  get_client_lem :
      (target : String) (p : HttpPool)
      → IsPool p
      → IsPool (get_client host_of target p).1 × Extends p (get_client host_of target p).1
  unfolding get_client
  get_client_lem target p v = elim (Option-cases (normalize_target host_of target)) [
    | inl bad ↦ rw bad (v, λ h c e. e)
    | inr (host, e) ↦ rw e (let (v', more, found) = load_host_lem p host v in (v', more))
  ]

  get_all_lem :
      (targets : List String) (p : HttpPool)
      → IsPool p
      → IsPool (get_all host_of targets p) × Extends p (get_all host_of targets p)
  unfolding get_all
  get_all_lem [] p v = (v, λ h c e. e)
  get_all_lem (target ∷ targets) p v =
      let (v', more) = get_client_lem target p v in
      let (v'', even_more) = get_all_lem targets (get_client host_of target p).1 v' in
      (v'', λ h c e. even_more h c (more h c e))

  initialize_rules-IsPool :
      (rules : RoutingRules) (p : HttpPool) → IsPool p → IsPool (initialize_rules host_of rules p)
  unfolding initialize_rules initialize_host
  initialize_rules-IsPool [] p v = v
  initialize_rules-IsPool (rule ∷ rules) p v =
      initialize_rules-IsPool rules
        (initialize_host host_of p (normalize_target host_of rule.target))
        (one (normalize_target host_of rule.target))
    where
      one : (host : Option String) → IsPool (initialize_host host_of p host)
      one none = v
      one (some host) = (load_or_store_lem p host v).0

  initialize_routes-IsPool :
      (routes : Dict RoutingRules) (p : HttpPool)
      → IsPool p
      → IsPool (initialize_routes host_of routes p)
  unfolding initialize_routes
  initialize_routes-IsPool [] p v = v
  initialize_routes-IsPool (route ∷ routes) p v =
      initialize_routes-IsPool routes (initialize_rules host_of route.1 p)
        (initialize_rules-IsPool route.1 p v)

  abbrev empty_pool : ℕ → HttpPool
  empty_pool max_conns = record { clients = []; max_conns_per_host = max_conns; made = 0 }

  new_http_pool-IsPool :
      (enabled : Bool) (max_conns : ℕ) (rules : Dict RoutingRules)
      → IsPool (new_http_pool host_of enabled max_conns rules)
  unfolding new_http_pool initialize_pool
  new_http_pool-IsPool enabled max_conns rules = by_switch enabled
    where
      empty : IsPool (empty_pool max_conns)
      empty = record { kept = λ h c e. absurd (nothing h c e) }
        where
          nothing : (h : String) (c : HostClient) → ¬ (lookup h [] ≡ some c)
          nothing h c e = cc

      by_switch :
          (b : Bool)
          → IsPool (
              if b
              then initialize_pool host_of rules (empty_pool max_conns)
              else empty_pool max_conns)
      by_switch true = initialize_routes-IsPool (get_http_rules rules) (empty_pool max_conns) empty
      by_switch false = empty

  -- In every state of the pool: a target with a host gets a client for that host; and from then on,
  -- whatever targets are asked for in between, each target with the same host gets that same client,
  -- and the pool does not change.
  pub get_client-stable :
      (enabled : Bool) (max_conns : ℕ) (rules : Dict RoutingRules) (before : List String)
      (target host : String)
      → normalize_target host_of target ≡ some host
      → (c : HostClient) × ((get_client host_of target
            (get_all host_of before (new_http_pool host_of enabled max_conns rules))).0
          ≡ some c)
        × (c.addr ≡ host)
        × ((later : List String) (other : String)
            → normalize_target host_of other ≡ some host
            → get_client host_of other (
                get_all host_of later
                  (get_client host_of target
                    (get_all host_of before (new_http_pool host_of enabled max_conns rules))).1)
              ≡ (
                some c,
                get_all host_of later
                    (get_client host_of target
                      (get_all host_of before (new_http_pool host_of enabled max_conns rules))).1,
              ))
  get_client-stable enabled max_conns rules before target host e =
      let p = get_all host_of before (new_http_pool host_of enabled max_conns rules) in
      let v = (get_all_lem before _ (new_http_pool-IsPool enabled max_conns rules)).0 in
      let (v', more, found) = load_host_lem p host v in
      let got = get_client-some target host p e in
      let c = (load_host host_of p host (lookup host p.clients)).0 in
      (
        c,
        ap (λ q. q.0) got,
        (v'.kept host c found).0,
        λ later other e'. rw got (
            get_client-known other host _ c e' (
              (get_all_lem later (load_host host_of p host (lookup host p.clients)).1 v').1 host c
                found)),
      )
