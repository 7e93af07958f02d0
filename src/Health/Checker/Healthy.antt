-- ===== src/Health/Checker/Healthy.antt =====
-- When the probe of a target succeeds, from what the clients answer.
use Prim.Native.String.{◌++◌ as str_append}
use mini_gateway.Common.{
  ℕ, ◌<◌, ◌≡◌, ◌⊎◌, ◌↔◌, refl, sym, ap, ◌∙◌, arith, String, Bool, true, false, true-ne-false,
  if◌then◌else◌, Option, none, some, none-ne-some, some-injective, Dict, lookup, str_eq, eq_iff,
  Bool-cases, inl, inr,
}
use mini_gateway.Health.{TargetStatus, is_probed}
use mini_gateway.Health.Checker.{
  Probes, probe, is_below_400, is_serving, service_name, check_http, check_grpc,
}

module _ (probes : Probes) (host path : String) where
  -- A HEAD request for the path is answered with a status below 400.
  abbrev pub IsAnswered : Type 0
  IsAnswered =
      (code : ℕ) × (probes.head (str_append "http://" (str_append host path)) ≡ some code)
      × (code < 400)

  -- The service that is asked for: the whole server for "/health", and else the path.
  abbrev pub IsService : String → Type 0
  IsService service =
      ((path ≡ "/health") × (service ≡ "")) ⊎ ((str_eq path "/health" ≡ false) × (service ≡ path))

  abbrev pub IsServing : Type 0
  IsServing =
      (probes.grpc_dial host ≡ true)
      × ((service : String) × IsService service × (probes.grpc_check host service ≡ some true))

  -- By the protocol of the status.
  abbrev pub IsHealthy : TargetStatus → Type 0
  IsHealthy stat =
      (((stat.protocol ≡ "http") ⊎ (stat.protocol ≡ "")) × IsAnswered)
      ⊎ ((stat.protocol ≡ "grpc") × IsServing)
      ⊎ ((stat.protocol ≡ "websocket") × (probes.web_socket_dial (str_append stat.url path) ≡ true))

abbrev pub HasProbe : TargetStatus → Type 0
HasProbe stat =
    (stat.protocol ≡ "http")
    ⊎ (stat.protocol ≡ "")
    ⊎ (stat.protocol ≡ "grpc")
    ⊎ (stat.protocol ≡ "websocket")

below_400_iff :
    (o : Option ℕ) → (is_below_400 o ≡ true) ↔ ((code : ℕ) × (o ≡ some code) × (code < 400))
below_400_iff none =
    (λ e. absurd (true-ne-false (sym e)), λ (code, e, below). absurd (none-ne-some e))
below_400_iff (some code) = (
  λ e. (code, refl, ground (arith, e)),
  λ (other, e, below). let same : code ≡ other = some-injective e in ground (arith, same, below),
)

serving-true : (o : Option Bool) → is_serving o ≡ true → o ≡ some true
serving-true none e = absurd (true-ne-false (sym e))
serving-true (some b) e = ap some e

service_name-IsService :
    (probes : Probes) (host path : String) → IsService probes host path (service_name path)
service_name-IsService probes host path = elim (Bool-cases (str_eq path "/health")) [
  | inl whole ↦ rw whole (inl ((eq_iff path "/health").0 whole, refl))
  | inr other ↦ inr (other, rw other refl)
]

IsService-service_name :
    (probes : Probes) (host path service : String)
    → IsService probes host path service
    → service_name path ≡ service
IsService-service_name probes host path service (inl (whole, e)) =
    rw ((eq_iff path "/health").1 whole) (sym e)
IsService-service_name probes host path service (inr (other, e)) = rw other (sym e)

grpc_iff :
    (probes : Probes) (paths : Dict String) (host path : String)
    → lookup host paths ≡ some path
    → (check_grpc probes paths host ≡ true) ↔ IsServing probes host path
unfolding check_grpc
grpc_iff probes paths host path at = (
  λ e. elim (Bool-cases (probes.grpc_dial host)) [
    | inl dialled ↦
        let answer : is_serving (probes.grpc_check host (service_name path)) ≡ true =
          rw (at, dialled) at e in
        (
          dialled,
          (
            service_name path,
            service_name-IsService probes host path,
            serving-true (probes.grpc_check host (service_name path)) answer,
          ),
        )
    | inr failed ↦ absurd (true-ne-false (sym e ∙ rw failed refl))
  ],
  λ (dialled, (service, named, answer)).
      rw (dialled, at, IsService-service_name probes host path service named, answer) refl,
)

-- The choice of a probe by the protocol, for what the probes stand for.
chosen_iff :
    {A G : Type 0} (p : String) (answered serving connected : Bool)
    → (answered ≡ true) ↔ A
    → (serving ≡ true) ↔ G
    → ((if str_eq p "http"
          then answered
          else if str_eq p ""
          then answered
          else if str_eq p "grpc"
          then serving
          else if str_eq p "websocket"
          then connected
          else false)
        ≡ true)
      ↔ ((((p ≡ "http") ⊎ (p ≡ "")) × A)
          ⊎ ((p ≡ "grpc") × G)
          ⊎ ((p ≡ "websocket") × (connected ≡ true)))
chosen_iff p answered serving connected by_a by_g = (
  λ e. elim (Bool-cases (str_eq p "http")) [
    | inl http ↦ inl (inl ((eq_iff p "http").0 http), by_a.0 (rw http at e))
    | inr not_http ↦ elim (Bool-cases (str_eq p "")) [
      | inl unset ↦ inl (inr ((eq_iff p "").0 unset), by_a.0 (rw (not_http, unset) at e))
      | inr set ↦ elim (Bool-cases (str_eq p "grpc")) [
        | inl grpc ↦ inr (inl ((eq_iff p "grpc").0 grpc, by_g.0 (rw (not_http, set, grpc) at e)))
        | inr not_grpc ↦ elim (Bool-cases (str_eq p "websocket")) [
          | inl socket ↦
              inr (inr ((eq_iff p "websocket").0 socket, rw (not_http, set, not_grpc, socket) at e))
          | inr other ↦ absurd (true-ne-false (sym e ∙ rw (not_http, set, not_grpc, other) refl))
        ]
      ]
    ]
  ],
  λ h. elim h [
    | inl (inl http, a) ↦ rw http (by_a.1 a)
    | inl (inr unset, a) ↦ rw unset (by_a.1 a)
    | inr (inl (grpc, g)) ↦ rw grpc (by_g.1 g)
    | inr (inr (socket, ok)) ↦ rw socket ok
  ],
)

pub probe_iff :
    (probes : Probes) (paths : Dict String) (host path : String) (stat : TargetStatus)
    → lookup host paths ≡ some path
    → (probe probes paths host path stat ≡ true) ↔ IsHealthy probes host path stat
unfolding probe
probe_iff probes paths host path stat at =
    chosen_iff stat.protocol (check_http probes host path) (check_grpc probes paths host)
      (probes.web_socket_dial (str_append stat.url path))
      (below_400_iff (probes.head (str_append "http://" (str_append host path))))
      (grpc_iff probes paths host path at)

pub is_probed_iff : (stat : TargetStatus) → (is_probed stat.protocol ≡ true) ↔ HasProbe stat
is_probed_iff stat = ground (
  arith,
  eq_iff stat.protocol "http",
  eq_iff stat.protocol "",
  eq_iff stat.protocol "grpc",
  eq_iff stat.protocol "websocket",
)
