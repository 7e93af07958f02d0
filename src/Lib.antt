-- ===== src/Lib.antt =====
-- mini-gateway: an HTTP gateway in Go. A request passes through the middleware (access lists, rate
-- limits, breaker, authentication), is mapped to routing rules by one of the routing engines, and is
-- forwarded to the target that grayscale filtering and a load balancer choose; the health checker
-- counts how it ended. Administrative requests change the routes at run time.
--
-- Each module models a part of the program, under the names of the code in snake case:
-- - Config: config/config.go. RoutingRule, RoutingRules, Grayscale, CachingRule; the views
--   GetHTTPRules, GetGrpcRules, GetWebSocketRules (Config), the checks validateWebSocketConfig and
--   validateGRPCConfig (Config.Validate), the fields, the defaults and SaveConfigToFile (Config.Schema),
--   InitConfig with its OnConfigChange (Config.Init).
-- - Plugins: plugins/loader.go, which plugins a directory gives.
-- - Logger: pkg/logger/zap.go, the logger of the process.
-- - LoadBalancer: internal/core/loadbalancer. The interface of interface.go is a record over a
--   balancer's state; RoundRobin is round_robin.go, Weighted is weighted_round_robin.go, Ketama is
--   ketame.go, Consul is consul.go, and Factory is factory.go with initializeLoadBalancer.
-- - Router: internal/core/routing. Node has the nodes of the two tries, Trie, TrieRegexp and Regexp
--   are router/trie.go, router/trie_regexp.go and router/regexp.go, Setup is setup.go.
-- - Proxy: internal/core/routing/proxy. Selection is selectTarget of http_proxy.go and what it calls, with
--   the object pools off; Pools is filterRules with the pools of pkg/util/pool.go on, and Pools.Targets
--   extractTargets with the nodes that Ketama keeps; Forward is the status and the count of a request
--   that is forwarded, Director the address it is sent to; HttpPool, WebSocket, WebSocketPool and Grpc
--   are http_pool.go, websocket_proxy.go, websocket_pool.go and grpc_proxy.go.
-- - Traffic: internal/core/traffic. LeakyBucket is leaky_bucket.go, TokenBucket is token_bucket.go;
--   Breaker is the window of statistics of breaker.go, and Breaker.Middleware the code around Hystrix.
-- - Security: internal/core/security and internal/middleware/auth. IpAcl is ip_acl.go, Injection is
--   anti_injection.go, Jwt is jwt.go; Auth is auth_interface.go, auth_jwt.go, auth_rbac.go and the token
--   store of rbac.go.
-- - Health: internal/core/health/health_checker.go, the statistics of targets; Targets has the keys
--   under which they are kept, Checker the paths, the probes and the heartbeat, and Checker.Start what
--   starting it clears.
-- - Cache: internal/middleware/cache.go, the responses kept in Redis; Client is pkg/cache/redis.go.
-- - Gateway: cmd/gateway/main.go. Server is the set-up of the engines at the start and after each new
--   configuration, with the exits over a configuration, Refresh the lock and the channel of config.go's ConfigManager with the goroutine that
--   reads it, Routes the handlers that change the routes (Routes.Edits has what a sequence of them makes of a path), Login is handleLogin, Status what the status
--   page counts, and Status.Page the page with the reset that a request for it asks for.
-- - Util: pkg/util/math.go.
-- - Common: shared names of the libraries, lists and dictionaries over the native numbers, Go's int,
--   and Outcome, by which a call returns or panics.
--
-- The parts meet where the code's do: the routers and the administration read the views of Config; the
-- HTTP proxy takes any LoadBalancer with the law Offers (Proxy.Selection.Canary), which the Ketama
-- balancer's theorem fills (Proxy.Selection.Balancers); the factory's balancers are the four modules';
-- Proxy.Forward counts with the health checker, whose statistics Gateway.Status reads together with the
-- counts of Cache.Client; Gateway.Login hands out the tokens of Security.Jwt, which the authenticators
-- of Security.Auth check; Proxy.WebSocket dials through WebSocketPool; Gateway.Server makes its balancer
-- by the factory; Config.Init makes the logger of Logger.
--
-- State is passed on explicitly: a method gives its result and the next state, also when it panics,
-- since the HTTP server recovers. A lock makes a method one step; where steps of different goroutines
-- interleave (requests and the ticks of limiters, requests and clean-ups, heartbeats) they are
-- sequences of events, or a step relation (Gateway.Refresh), in any order. A Go map is an association
-- list, and the theorems hold for every order of it. int is 64 bits wide with its wrap-around, the
-- round-robin counter 32, the health checker's counters are 64-bit patterns; limits of the rate limiter
-- are natural numbers; the nanoseconds of a token's lifetime wrap in 64 bits. The binary search of Ketama runs on fuel, the length of the ring, which its
-- lemma shows to be enough; the decimal digits of a replica number run on fuel n + 1 for n, which has
-- no more digits than that; the loop of GCDTwo runs on fuel, the size of its second argument and one,
-- which gcd_lem shows to be enough.
--
-- Code that is not under the repository is a parameter: the MD5 hash, Go's regexp and url packages
-- (the injection filter's own expressions are written out), Redis (a record of commands, with its
-- documented laws as a record of hypotheses), Consul, Casbin, the JWT library, go.uber.org/ratelimit,
-- Hystrix, grpc-gateway's mux, gin's BindJSON, what viper reads, Go's plugin package, the clients that
-- the health checker's probes use, the clock and rand.Intn's draws.
--
-- Not modelled: what the log messages say, metrics and traces, which keep no state of the program; the
-- network input and output of the proxies; the files that the file server sends, which are library
-- calls, and what the plugins do when they run; the shutdown; generated code and the test services. Of
-- the program's own logic: the pages that only print the configuration.
pub mod Cache
pub mod Common
pub mod Config
pub mod Gateway
pub mod Health
pub mod LoadBalancer
pub mod Logger
pub mod Plugins
pub mod Proxy
pub mod Router
pub mod Security
pub mod Traffic
pub mod Util
