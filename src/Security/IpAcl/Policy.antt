-- ===== src/Security/IpAcl/Policy.antt =====
-- What the access check answers after the lists have been written.
use mini_gateway.Common.{
  ◌≡◌, refl, String, Bool, true, false, ◌||◌, ◌&&◌, not, List, [], ◌∷◌, some, length, any, ◌==◌,
  str_eq, if◌then◌else◌, arith, eq_iff, Bool-cases, inl, inr,
}
use mini_gateway.Security.IpAcl.{
  Redis, value, nil, IpConfig, blacklist_key, whitelist_key, check_ip_access, set_all, cleared,
  init_ip_rules,
}

-- What Redis documents of its hashes: a field that was set to "true" reads as true and no other field
-- changes; a deleted key has no fields.
pub record IsRedis {S : Type 0} (redis : Redis S) : Type 0 where
  pub hget-hset :
      (s : S) (key field key' field' : String)
      → redis.hget_bool (redis.hset s key field "true") key' field' ≡ (
          if str_eq key key' && str_eq field field'
          then value true
          else redis.hget_bool s key' field')
  pub hget-del :
      (s : S) (a b key field : String)
      → redis.hget_bool (redis.del s a b) key field
        ≡ (if str_eq a key || str_eq b key then nil else redis.hget_bool s key field)

abbrev pub listed : String → List String → Bool
listed ip ips = any (λ i. str_eq i ip) ips

no_listed : (ip : String) (ips : List String) → (length ips == 0) ≡ true → listed ip ips ≡ false
no_listed ip [] h = refl
no_listed ip (i ∷ ips) h = absurd (ground (arith, h))

module _ {S : Type 0} (redis : Redis S) (laws : IsRedis redis) where
  hget-set_all :
      (key : String) (ips : List String) (s : S) (key' ip : String)
      → redis.hget_bool (set_all redis key ips s) key' ip
        ≡ (if str_eq key key' && listed ip ips then value true else redis.hget_bool s key' ip)
  unfolding set_all
  hget-set_all key [] s key' ip = ground arith
  hget-set_all key (i ∷ ips) s key' ip =
      let ih = hget-set_all key ips (redis.hset s key i "true") key' ip in
      let first = laws.hget-hset s key i key' ip in rw (ih, first) (ground arith)

  cleared-override :
      (cfg : IpConfig) (s : S) (key ip : String)
      → str_eq blacklist_key key || str_eq whitelist_key key ≡ true
      → redis.hget_bool (cleared redis cfg s) key ip
        ≡ (if str_eq cfg.ip_update_mode "override" then nil else redis.hget_bool s key ip)
  unfolding cleared
  cleared-override cfg s key ip named = elim (Bool-cases (str_eq cfg.ip_update_mode "override")) [
    | inl override ↦ rw (override, laws.hget-del s blacklist_key whitelist_key key ip, named) refl
    | inr append ↦ rw append refl
  ]

  -- The flags that are read after the lists were written.
  hget-whitelist :
      (cfg : IpConfig) (s : S) (ip : String)
      → redis.hget_bool (init_ip_rules redis cfg s) whitelist_key ip ≡ (
          if listed ip cfg.ip_whitelist
          then value true
          else if str_eq cfg.ip_update_mode "override"
          then nil
          else redis.hget_bool s whitelist_key ip)
  unfolding init_ip_rules
  hget-whitelist cfg s ip =
      let c = cleared redis cfg s in
      rw
        (
          hget-set_all blacklist_key cfg.ip_blacklist
              (set_all redis whitelist_key cfg.ip_whitelist c) whitelist_key ip,
          hget-set_all whitelist_key cfg.ip_whitelist c whitelist_key ip,
          cleared-override cfg s whitelist_key ip refl,
        )
        refl

  hget-blacklist :
      (cfg : IpConfig) (s : S) (ip : String)
      → redis.hget_bool (init_ip_rules redis cfg s) blacklist_key ip ≡ (
          if listed ip cfg.ip_blacklist
          then value true
          else if str_eq cfg.ip_update_mode "override"
          then nil
          else redis.hget_bool s blacklist_key ip)
  unfolding init_ip_rules
  hget-blacklist cfg s ip =
      let c = cleared redis cfg s in
      rw
        (
          hget-set_all blacklist_key cfg.ip_blacklist
              (set_all redis whitelist_key cfg.ip_whitelist c) blacklist_key ip,
          hget-set_all whitelist_key cfg.ip_whitelist c blacklist_key ip,
          cleared-override cfg s blacklist_key ip refl,
        )
        refl

  -- In override mode, when the writes to Redis succeed, and whatever Redis held before: with a whitelist exactly its
  -- addresses may access, without one all but those of the blacklist may.
  pub check_ip_access-override :
      (cfg : IpConfig) (s : S) (ip : String)
      → cfg.ip_update_mode ≡ "override"
      → check_ip_access redis (init_ip_rules redis cfg s) ip cfg
        ≡ some (
            if length cfg.ip_whitelist == 0
            then not (listed ip cfg.ip_blacklist)
            else listed ip cfg.ip_whitelist)
  unfolding check_ip_access
  check_ip_access-override cfg s ip mode =
      let override : str_eq cfg.ip_update_mode "override" ≡ true = (eq_iff _ _).1 mode in
      let white = hget-whitelist cfg s ip in
      let black = hget-blacklist cfg s ip in
      ground (arith, override, white, black, no_listed ip cfg.ip_blacklist)

  -- In any other mode the new addresses are added to what Redis held: those listed now are answered by
  -- the lists, and the others as before.
  pub check_ip_access-append :
      (cfg : IpConfig) (s : S) (ip : String)
      → str_eq cfg.ip_update_mode "override" ≡ false
      → check_ip_access redis (init_ip_rules redis cfg s) ip cfg ≡ (
          if length cfg.ip_whitelist == 0
          then if listed ip cfg.ip_blacklist then some false else check_ip_access redis s ip cfg
          else if listed ip cfg.ip_whitelist
          then some true
          else check_ip_access redis s ip cfg)
  unfolding check_ip_access
  check_ip_access-append cfg s ip mode =
      let white = hget-whitelist cfg s ip in
      let black = hget-blacklist cfg s ip in
      ground (arith, mode, white, black, no_listed ip cfg.ip_blacklist)
