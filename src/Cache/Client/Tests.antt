-- ===== src/Cache/Client/Tests.antt =====
-- A Redis whose numbers are a function, written as strokes: one for each unit.
use mini_gateway.Common.{
  ℕ, zero, suc, ◌+◌, ◌≡◌, refl, ap, sym, String, map, Option, none, some, str_eq, if◌then◌else◌,
  some-injective,
}
use mini_gateway.Common.Int.{ℤ, pos}
use mini_gateway.Cache.Client.{Commands, missing, text}
use mini_gateway.Cache.Client.Increments.{IsRedis}

abbrev Store : Type 0
Store = String → ℕ

abbrev strokes : ℕ → String
strokes zero = ""
strokes (suc n) = String.◌∷◌ "|" (strokes n)

abbrev stroke_count : String → ℕ
stroke_count String.[] = 0
stroke_count (String.◌∷◌ c s) = suc (stroke_count s)

abbrev pub parse_int : String → Option ℤ
parse_int s = some (pos (stroke_count s))

pub stroke_count-strokes : (n : ℕ) → stroke_count (strokes n) ≡ n
stroke_count-strokes zero = refl
stroke_count-strokes (suc n) = ap suc (stroke_count-strokes n)

abbrev pub client : Commands Store
client = record {
  get = λ s key. missing;
  set = λ s key value ttl. none;
  incr = λ s key. some (s key + 1, λ other. if str_eq key other then s other + 1 else s other);
  expire = λ s key ttl. some s;
  del = λ s key. some s;
  mget = λ s keys. some (map (λ key. text (strokes (s key))) keys);
}

abbrev pub client-IsRedis : IsRedis parse_int client
client-IsRedis = record {
  number = λ s key. s key;
  incr-number =
      λ s key. ((λ other. if str_eq key other then s other + 1 else s other), refl, λ other. refl);
  expire-number = λ s s' key ttl e other. λ j. sym (some-injective e) j other;
  mget-number = λ s keys.
      ((λ key. text (strokes (s key))), refl, λ key. ap pos (stroke_count-strokes (s key)));
}

abbrev pub empty : Store
empty key = 0
