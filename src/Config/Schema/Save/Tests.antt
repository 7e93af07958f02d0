-- ===== src/Config/Schema/Save/Tests.antt =====
-- A configuration whose fields are their own names, and the defaults that no field reads.
use mini_gateway.Common.{◌≡◌, refl, not, List, [], ◌∷◌, map, select, any, Elem-get_elem?}
use mini_gateway.Config.Schema.{Field, field, config_fields}
use mini_gateway.Config.Schema.Defaults.{
  Key, Value, text, key_of, same_key, load_field, default_values,
}
use mini_gateway.Config.Schema.Save.{save_config_to_file, load_field-save}

abbrev defaults : List (Key × Value)
defaults = map (λ d. (key_of d.0, d.1)) default_values

abbrev ip_limits : Field
ip_limits = field "traffic.RateLimit.IPLimits" "traffic.rateLimit.ip_limits"

load_field-save_example :
    load_field (λ v. v) (text "") defaults (save_config_to_file (λ v. v) text) ip_limits
    ≡ load_field {W = Value} (λ v. v) (text "") defaults [] ip_limits
load_field-save_example =
    load_field-save (λ v. v) (λ v. v) (text "") defaults text ip_limits
      (Elem-get_elem? config_fields 53 ip_limits refl)

-- Each of the others is the default of a field.
unread_defaults :
    map
      (λ d. d.0)
      (select
        (λ d. not (any (λ f. same_key (key_of f.tag) (key_of d.0)) config_fields))
        default_values)
    ≡ "redis.addr" ∷ "redis.password" ∷ "redis.db" ∷ []
unfolding same_key key_of
unread_defaults = refl
