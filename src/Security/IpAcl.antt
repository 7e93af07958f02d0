-- ===== src/Security/IpAcl.antt =====
-- internal/core/security/ip_acl.go: the lists of addresses in Redis. The Redis client is a record of
-- the three commands that the code sends, each with the store's state before and after.
pub mod Policy
use mini_gateway.Common.{
  ℕ, String, Bool, true, false, ◌||◌, ◌&&◌, List, [], ◌∷◌, Option, none, some, length, ◌==◌, str_eq,
  if◌then◌else◌, ◌≡◌,
}
use mini_gateway.Security.{Handled, next, abort}

-- The answer of `HGet(...).Bool()`: a value, `redis.Nil` for a missing field, or another error.
pub data BoolReply : Type 0 where
  value : Bool → BoolReply
  nil failed : BoolReply

pub record Redis (S : Type 0) : Type 0 where
  pub hget_bool : S → String → String → BoolReply
  pub hset : S → String → String → String → S
  pub del : S → String → String → S

pub record IpConfig : Type 0 where
  pub ip_whitelist : List String
  pub ip_blacklist : List String
  pub ip_update_mode : String

abbrev pub blacklist_key : String
blacklist_key = "mg:ip_blacklist"

abbrev pub whitelist_key : String
whitelist_key = "mg:ip_whitelist"

-- A membership flag that was read; `none` is an error.
abbrev flag_of : BoolReply → Option Bool
flag_of (value b) = some b
flag_of nil = some false
flag_of failed = none

abbrev negate : Option Bool → Option Bool
negate none = none
negate (some true) = some false
negate (some false) = some true

module _ {S : Type 0} (redis : Redis S) where
  -- Whether an address may access; `none` is the error that Redis gave.
  unfoldable pub check_ip_access : S → String → IpConfig → Option Bool
  check_ip_access s ip cfg =
      if length cfg.ip_whitelist == 0
      then if length cfg.ip_blacklist == 0
        then some true
        else negate (flag_of (redis.hget_bool s blacklist_key ip))
      else flag_of (redis.hget_bool s whitelist_key ip)

  abbrev respond : Option Bool → Handled
  respond none = abort 500
  respond (some false) = abort 403
  respond (some true) = next none

  unfoldable pub ip_acl : S → String → IpConfig → Handled
  unfolding check_ip_access
  ip_acl s client_ip cfg = respond (check_ip_access s client_ip cfg)

  unfoldable pub set_all : String → List String → S → S
  set_all key [] s = s
  set_all key (ip ∷ ips) s = set_all key ips (redis.hset s key ip "true")

  cleared : IpConfig → S → S
  cleared cfg s =
      if str_eq cfg.ip_update_mode "override" then redis.del s blacklist_key whitelist_key else s

  -- The errors of the writes are only logged; here the writes succeed.
  unfoldable pub init_ip_rules : IpConfig → S → S
  unfolding set_all cleared
  init_ip_rules cfg s =
      set_all blacklist_key cfg.ip_blacklist
        (set_all whitelist_key cfg.ip_whitelist (cleared cfg s))
