-- ===== src/Config/Schema.antt =====
-- config/config.go: the structs of a configuration, as the list of their fields. A field has its name in Go and the
-- key of its `mapstructure` tag, with those of the structs around it. A map or a slice is one field.
pub mod Defaults
pub mod Save
use Prim.Native.String.{◌++◌ as str_append}
use mini_gateway.Common.{ℕ, String, List, [], ◌∷◌, ◌++◌, map}

pub record Field : Type 0 where
  pub name : String
  pub tag : String

abbrev pub field : String → String → Field
field name tag = record { name = name; tag = tag }

-- The fields of a struct that is itself a field.
abbrev pub under : String → String → List Field → List Field
under name tag fields =
    map
      (λ f. field (str_append name (str_append "." f.name)) (str_append tag (str_append "." f.tag)))
      fields

abbrev pub server_fields : List Field
server_fields =
    field "Port" "port" ∷ field "GinMode" "ginMode" ∷ field "PprofEnabled" "pprofenabled" ∷ []

abbrev pub logger_fields : List Field
logger_fields =
    field "Level" "level"
    ∷ field "FilePath" "filePath"
    ∷ field "MaxSize" "maxSize"
    ∷ field "MaxBackups" "maxBackups"
    ∷ field "MaxAge" "maxAge"
    ∷ field "Compress" "compress"
    ∷ []

abbrev pub middleware_fields : List Field
middleware_fields =
    field "RateLimit" "rateLimit"
    ∷ field "IPAcl" "ipAcl"
    ∷ field "AntiInjection" "antiInjection"
    ∷ field "Auth" "auth"
    ∷ field "Breaker" "breaker"
    ∷ field "Tracing" "tracing"
    ∷ []

abbrev pub grpc_config_fields : List Field
grpc_config_fields =
    field "Enabled" "enabled"
    ∷ field "Prefix" "prefix"
    ∷ field "HealthCheckPath" "healthCheckPath"
    ∷ field "Reflection" "reflection"
    ∷ field "AllowedOrigins" "allowedOrigins"
    ∷ []

abbrev pub web_socket_fields : List Field
web_socket_fields =
    field "Enabled" "enabled"
    ∷ field "MaxIdleConns" "maxIdleConns"
    ∷ field "IdleTimeout" "idleTimeout"
    ∷ field "Prefix" "prefix"
    ∷ []

abbrev pub grayscale_fields : List Field
grayscale_fields =
    field "Enabled" "enabled"
    ∷ field "WeightedRandom" "weightedRandom"
    ∷ field "DefaultEnv" "defaultEnv"
    ∷ field "CanaryEnv" "canaryEnv"
    ∷ []

abbrev pub routing_fields : List Field
routing_fields =
    (field "Rules" "rules"
      ∷ field "Engine" "engine"
      ∷ field "LoadBalancer" "loadBalancer"
      ∷ field "HeartbeatInterval" "heartbeatInterval"
      ∷ [])
    ++ (under "Grayscale" "grayscale" grayscale_fields)

abbrev pub jwt_fields : List Field
jwt_fields =
    field "Secret" "secret" ∷ field "ExpiresIn" "expiresIn" ∷ field "Enabled" "enabled" ∷ []

abbrev pub rbac_fields : List Field
rbac_fields =
    field "Enabled" "enabled" ∷ field "ModelPath" "modelPath" ∷ field "PolicyPath" "policyPath" ∷ []

abbrev pub security_fields : List Field
security_fields =
    (field "AuthMode" "authMode" ∷ [])
    ++ (under "JWT" "jwt" jwt_fields
        ++ (under "RBAC" "rbac" rbac_fields
            ++ ((field "IPBlacklist" "ipBlacklist"
                ∷ field "IPWhitelist" "ipWhitelist"
                ∷ field "IPUpdateMode" "ipUpdateMode"
                ∷ []))))

abbrev pub cache_fields : List Field
cache_fields = field "Addr" "addr" ∷ field "Password" "password" ∷ field "DB" "db" ∷ []

abbrev pub caching_fields : List Field
caching_fields = field "Enabled" "enabled" ∷ field "Rules" "rules" ∷ []

abbrev pub consul_fields : List Field
consul_fields = field "Enabled" "enabled" ∷ field "Addr" "addr" ∷ []

abbrev pub traffic_rate_limit_fields : List Field
traffic_rate_limit_fields =
    field "Enabled" "enabled"
    ∷ field "QPS" "qps"
    ∷ field "Burst" "burst"
    ∷ field "Algorithm" "algorithm"
    ∷ field "IPLimits" "ip_limits"
    ∷ field "RouteLimits" "route_limits"
    ∷ []

abbrev pub traffic_breaker_fields : List Field
traffic_breaker_fields =
    field "Enabled" "enabled"
    ∷ field "ErrorRate" "errorRate"
    ∷ field "Timeout" "timeout"
    ∷ field "MinRequests" "minRequests"
    ∷ field "SleepWindow" "sleepWindow"
    ∷ field "MaxConcurrent" "maxConcurrent"
    ∷ field "WindowSize" "windowSize"
    ∷ field "WindowDuration" "windowDuration"
    ∷ []

abbrev pub traffic_fields : List Field
traffic_fields =
    under "RateLimit" "rateLimit" traffic_rate_limit_fields
    ++ (under "Breaker" "breaker" traffic_breaker_fields)

abbrev pub prometheus_fields : List Field
prometheus_fields =
    field "Enabled" "enabled" ∷ field "Path" "path" ∷ field "HttpEndpoint" "httpEndpoint" ∷ []

abbrev pub grafana_fields : List Field
grafana_fields = field "HttpEndpoint" "httpEndpoint" ∷ []

abbrev pub jaeger_fields : List Field
jaeger_fields =
    field "Enabled" "enabled"
    ∷ field "Endpoint" "endpoint"
    ∷ field "HttpEndpoint" "httpEndpoint"
    ∷ field "Sampler" "sampler"
    ∷ field "SampleRatio" "sampleRatio"
    ∷ []

abbrev pub observability_fields : List Field
observability_fields =
    under "Prometheus" "prometheus" prometheus_fields
    ++ (under "Grafana" "grafana" grafana_fields ++ (under "Jaeger" "jaeger" jaeger_fields))

abbrev pub plugin_fields : List Field
plugin_fields = field "Dir" "dir" ∷ field "Plugins" "plugins" ∷ []

abbrev pub memory_pool_fields : List Field
memory_pool_fields =
    field "Enabled" "enabled"
    ∷ field "TargetsCapacity" "targetsCapacity"
    ∷ field "RulesCapacity" "rulesCapacity"
    ∷ []

abbrev pub performance_fields : List Field
performance_fields =
    under "MemoryPool" "memoryPool" memory_pool_fields
    ++ ((field "MaxConnsPerHost" "maxConnsPerHost"
        ∷ field "HttpPoolEnabled" "httpPoolEnabled"
        ∷ []))

abbrev pub file_server_fields : List Field
file_server_fields =
    field "StaticFilePath" "staticFilePath" ∷ field "EnabledFastHttp" "enabledFastHttp" ∷ []

-- The fields of a configuration, in the order in which they are saved, with the keys of the sections.
abbrev pub config_fields : List Field
config_fields =
    under "server" "server" server_fields
    ++ (under "logger" "logger" logger_fields
        ++ (under "middleware" "middleware" middleware_fields
            ++ (under "grpc" "grpc" grpc_config_fields
                ++ (under "websocket" "websocket" web_socket_fields
                    ++ (under "routing" "routing" routing_fields
                        ++ (under "security" "security" security_fields
                            ++ (under "cache" "cache" cache_fields
                                ++ (under "caching" "caching" caching_fields
                                    ++ (under "consul" "consul" consul_fields
                                        ++ (under "traffic" "traffic" traffic_fields
                                            ++ (under "observability" "observability"
                                                  observability_fields
                                                ++ (under "plugin" "plugin" plugin_fields
                                                    ++ (under "performance" "performance"
                                                          performance_fields
                                                        ++ (under "fileServer" "fileServer"
                                                            file_server_fields))))))))))))))
