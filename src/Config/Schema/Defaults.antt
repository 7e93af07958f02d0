-- ===== src/Config/Schema/Defaults.antt =====
-- config/config.go: setDefaultValues, and what a key of a file that is read stands for. Keys are compared without
-- regard to case.
use mini_gateway.Common.{
  ℕ, ◌+◌, String, Bool, true, false, ◌&&◌, List, [], ◌∷◌, map, Option, none, some, codes, leb, ◌==◌,
  if◌then◌else◌,
}
use mini_gateway.Config.Schema.{Field}

-- A value of the defaults; a duration is its nanoseconds.
pub data Value : Type 0 where
  text : String → Value
  number : ℕ → Value
  flag : Bool → Value
  ratio : ℕ → ℕ → Value
  texts : List String → Value

abbrev pub Key : Type 0
Key = List ℕ

abbrev pub lower : ℕ → ℕ
lower c = if leb b'A' c && leb c b'Z' then c + 32 else c

unfoldable pub key_of : String → Key
key_of s = map lower (codes s)

unfoldable pub same_key : Key → Key → Bool
same_key [] [] = true
same_key [] (y ∷ ys) = false
same_key (x ∷ xs) [] = false
same_key (x ∷ xs) (y ∷ ys) = if x == y then same_key xs ys else false

-- The entry of a key, if there is one.
unfoldable pub value_at : {V : Type 0} → Key → List (Key × V) → Option V
unfolding same_key
value_at key [] = none
value_at key (entry ∷ rest) =
    let later = value_at key rest in if same_key entry.0 key then some entry.1 else later

abbrev or_else : {V : Type 0} → V → Option V → V
or_else zero none = zero
or_else zero (some v) = v

-- The value that a field gets from a file: the file's, or else the default, or else the zero value.
abbrev from_defaults : {V : Type 0} → V → List (Key × V) → Key → Option V → V
unfolding value_at
from_defaults zero defaults key (some v) = v
from_defaults zero defaults key none = or_else zero (value_at key defaults)

abbrev read_as : {V W : Type 0} → (W → V) → Option W → Option V
read_as reads none = none
read_as reads (some w) = some (reads w)

-- `reads` is what viper gives for a value of the file; it changes the keys of a map, for example.
unfoldable pub load_field :
    {V W : Type 0} → (W → V) → V → List (Key × V) → List (Key × W) → Field → V
unfolding value_at key_of from_defaults
load_field reads zero defaults file f =
    from_defaults zero defaults (key_of f.tag) (read_as reads (value_at (key_of f.tag) file))

abbrev pub default_values : List (String × Value)
default_values =
    ("server.port", text "8080")
    ∷ ("server.ginMode", text "release")
    ∷ ("server.pprofenabled", flag false)
    ∷ ("plugin.dir", text "bin/plugins")
    ∷ ("plugin.plugins", texts ("log" ∷ []))
    ∷ ("routing.engine", text "gin")
    ∷ ("routing.loadBalancer", text "round-robin")
    ∷ ("routing.heartbeatInterval", number 30)
    ∷ ("middleware.rateLimit", flag true)
    ∷ ("middleware.ipAcl", flag true)
    ∷ ("middleware.antiInjection", flag true)
    ∷ ("middleware.auth", flag true)
    ∷ ("middleware.breaker", flag true)
    ∷ ("redis.addr", text "localhost:6379")
    ∷ ("redis.password", text "")
    ∷ ("redis.db", number 0)
    ∷ ("consul.enabled", flag false)
    ∷ ("consul.addr", text "localhost:8500")
    ∷ ("security.jwt.secret", text "default-secret-key")
    ∷ ("security.jwt.expiresIn", number 3600)
    ∷ ("security.authMode", text "none")
    ∷ ("security.rbac.enabled", flag false)
    ∷ ("security.rbac.modelPath", text "config/data/rbac_model.conf")
    ∷ ("security.rbac.policyPath", text "config/data/rbac_policy.csv")
    ∷ ("security.ipUpdateMode", text "override")
    ∷ ("traffic.rateLimit.enabled", flag true)
    ∷ ("traffic.rateLimit.qps", number 1000)
    ∷ ("traffic.rateLimit.burst", number 2000)
    ∷ ("traffic.rateLimit.algorithm", text "token_bucket")
    ∷ ("traffic.breaker.enabled", flag true)
    ∷ ("traffic.breaker.errorRate", ratio 1 2)
    ∷ ("traffic.breaker.timeout", number 1000)
    ∷ ("traffic.breaker.minRequests", number 20)
    ∷ ("traffic.breaker.sleepWindow", number 5000)
    ∷ ("traffic.breaker.maxConcurrent", number 100)
    ∷ ("traffic.breaker.windowSize", number 100)
    ∷ ("traffic.breaker.windowDuration", number 10)
    ∷ ("observability.prometheus.enabled", flag true)
    ∷ ("observability.prometheus.path", text "/metrics")
    ∷ ("observability.jaeger.enabled", flag false)
    ∷ ("observability.jaeger.endpoint", text "http://localhost:14268/api/traces")
    ∷ ("observability.jaeger.sampler", text "always")
    ∷ ("observability.jaeger.sampleRatio", ratio 1 1)
    ∷ ("logger.level", text "info")
    ∷ ("logger.filePath", text "logs/gateway.log")
    ∷ ("logger.maxSize", number 100)
    ∷ ("logger.maxBackups", number 10)
    ∷ ("logger.maxAge", number 30)
    ∷ ("logger.compress", flag true)
    ∷ ("grpc.enabled", flag true)
    ∷ ("grpc.healthCheckPath", text "/grpc/health")
    ∷ ("grpc.reflection", flag false)
    ∷ ("grpc.allowedOrigins", texts ("*" ∷ []))
    ∷ ("grpc.prefix", text "/grpc")
    ∷ ("websocket.enabled", flag true)
    ∷ ("websocket.maxIdleConns", number 100)
    ∷ ("websocket.idleTimeout", number 60000000000)
    ∷ ("websocket.prefix", text "/websocket")
    ∷ ("performance.memoryPool.enabled", flag false)
    ∷ ("performance.memoryPool.targetsCapacity", number 100)
    ∷ ("performance.memoryPool.rulesCapacity", number 100)
    ∷ ("performance.maxConnsPerHost", number 512)
    ∷ ("performance.httpPoolEnabled", flag true)
    ∷ ("fileServer.staticFilePath", text "./data")
    ∷ ("fileServer.enabledFastHttp", flag true)
    ∷ []
