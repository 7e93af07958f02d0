-- ===== src/Cache/Client/Increments.antt =====
-- Requests that are counted are found by the batch read.
use mini_gateway.Common.{
  ℕ, zero, suc, ◌+◌, ◌≡◌, String, List, [], ◌∷◌, map, Option, none, some, returns, str_eq, ◌==◌,
  if◌then◌else◌, Bool-cases, inl, inr, refl, ap, ◌∙◌, arith,
}
use mini_gateway.Common.Int.{ℤ, pos}
use mini_gateway.Cache.{req_count_key}
use mini_gateway.Cache.Client.{
  Commands, MgetReply, counted, written, increment_request_count, value_of, fill, filled,
  batch_get_path_req_count,
}

-- What Redis documents of these commands: INCR adds one to the number at a key and answers with it, EXPIRE
-- changes no value, and MGET gives for each key the decimal text of its number, or nil if it has none.
-- `number` is the number at a key, 0 if it has none; nothing expires in between.
pub record IsRedis {S : Type 0} (parse_int : String → Option ℤ) (client : Commands S) : Type 0 where
  pub number : S → String → ℕ
  pub incr-number :
      (s : S) (key : String)
      → (s' : S) × (client.incr s key ≡ some (number s key + 1, s'))
        × ((other : String)
            → number s' other ≡ (if str_eq key other then number s other + 1 else number s other))
  pub expire-number :
      (s s' : S) (key : String) (ttl : ℕ)
      → client.expire s key ttl ≡ some s'
      → (other : String) → number s' other ≡ number s other
  pub mget-number :
      (s : S) (keys : List String)
      → (reply_at : String → MgetReply) × (client.mget s keys ≡ some (map reply_at keys))
        × ((key : String) → value_of parse_int (reply_at key) ≡ pos (number s key))

-- Requests that are counted one after the other.
abbrev pub increments : {S : Type 0} → Commands S → String → ℕ → ℕ → S → S
increments client path ttl zero s = s
increments client path ttl (suc n) s =
    increments client path ttl n (increment_request_count (some client) path ttl s).1

module _ {S : Type 0} (parse_int : String → Option ℤ) (client : Commands S)
    (law : IsRedis parse_int client) where
  abbrev at : S → String → ℕ
  at s key = law.number s key

  written-number :
      (s : S) (key : String) (ttl : ℕ) (o : Option S)
      → client.expire s key ttl ≡ o
      → (other : String) → at (written s o).1 other ≡ at s other
  written-number s key ttl none e other = refl
  written-number s key ttl (some s') e other = law.expire-number s s' key ttl e other

  counted-number :
      (key : String) (ttl count : ℕ) (s s' : S)
      → ((counted client key ttl s (some (count, s'))).0 ≡ count)
        × ((other : String)
            → at (counted client key ttl s (some (count, s'))).1 other ≡ at s' other)
  counted-number key ttl count s s' = elim (Bool-cases (count == 1)) [
    | inl e ↦ rw e (refl, λ other. written-number s' key ttl (client.expire s' key ttl) refl other)
    | inr e ↦ rw e (refl, λ other. refl)
  ]

  -- One request: its count, and the numbers after it.
  increment_request_count_lem :
      (path : String) (ttl : ℕ) (s : S)
      → ((increment_request_count (some client) path ttl s).0 ≡ at s (req_count_key path) + 1)
        × ((other : String)
            → at (increment_request_count (some client) path ttl s).1 other
              ≡ (if str_eq (req_count_key path) other then at s other + 1 else at s other))
  unfolding increment_request_count
  increment_request_count_lem path ttl s =
      let (s', incremented, others) = law.incr-number s (req_count_key path) in
      let (count_of, same) =
        counted-number (req_count_key path) ttl (at s (req_count_key path) + 1) s s' in
      rw incremented (count_of, λ other. same other ∙ others other)

  increments_lem :
      (path : String) (ttl n : ℕ) (s : S) (other : String)
      → at (increments client path ttl n s) other
        ≡ (if str_eq (req_count_key path) other then at s other + n else at s other)
  increments_lem path ttl zero s other = elim (Bool-cases (str_eq (req_count_key path) other)) [
    | inl e ↦ rw e (omega arith)
    | inr e ↦ rw e refl
  ]
  increments_lem path ttl (suc n) s other =
      let s1 = (increment_request_count (some client) path ttl s).1 in
      let one = (increment_request_count_lem path ttl s).1 other in
      let rest = increments_lem path ttl n s1 other in
      elim (Bool-cases (str_eq (req_count_key path) other)) [
        | inl e ↦ ground (arith, one, rest, e)
        | inr e ↦ ground (arith, one, rest, e)
      ]

  fill-map :
      (reply_at : String → MgetReply) (paths : List String)
      → fill parse_int paths (map reply_at (map req_count_key paths))
        ≡ returns (
            map
              (λ path. record {
                path = path;
                count = value_of parse_int (reply_at (req_count_key path));
              })
              paths)
  unfolding fill
  fill-map reply_at [] = refl
  fill-map reply_at (path ∷ paths) = rw (fill-map reply_at paths) refl

  -- Requests that are counted are found: after `n` requests for `path`, with Redis at hand, the batch read
  -- of any paths succeeds and gives in their order the number that each had before, and `n` more for
  -- each that has the counter of `path`.
  pub batch_get_path_req_count-increments :
      (path : String) (ttl n : ℕ) (s : S) (paths : List String)
      → batch_get_path_req_count parse_int (some client) paths (increments client path ttl n s)
        ≡ returns (
            some (
              map
                (λ p. record {
                  path = p;
                  count = pos (
                      if str_eq (req_count_key path) (req_count_key p)
                      then at s (req_count_key p) + n
                      else at s (req_count_key p));
                })
                paths))
  unfolding batch_get_path_req_count filled
  batch_get_path_req_count-increments path ttl n s paths =
      let s' = increments client path ttl n s in
      let (reply_at, answered, values) = law.mget-number s' (map req_count_key paths) in
      rw (answered, fill-map reply_at paths)
        (λ j. returns (
          some (
            map
              (λ p. record {
                path = p;
                count =
                    (values (req_count_key p)
                        ∙ ap pos (increments_lem path ttl n s (req_count_key p)))
                      j;
              })
              paths)))
