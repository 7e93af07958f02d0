-- ===== src/Gateway/Refresh.antt =====
-- config/config.go, ConfigManager, with the refresh goroutine of cmd/gateway/main.go: who holds the lock,
-- what the channel of new configurations holds, and how far a refresh has come. The goroutines
-- interleave in any order. A read by `GetConfig` is one step, which waits while a writer has the lock.
pub mod Progress
mod Tests
use mini_gateway.Common.{ℕ, zero, suc, ◌<◌, List, [], ◌∷◌, ◌++◌, Option, none, some, length, ◌≡◌}

-- `refreshing c n`: the configuration `c` was received, and setting up its middleware and its routes
-- has `n` calls of `GetConfig` to go.
pub data Refresher (C : Type 0) : Type 0 where
  waiting : Refresher C
  refreshing : C → ℕ → Refresher C

-- `writer` is the configuration of an `UpdateConfig` that has the lock and has not sent it yet, and
-- `watcher` that of a changed file between its write and its notification. `sent` and `refreshed`
-- record what the channel took and what was refreshed.
pub record State (C : Type 0) : Type 0 where
  pub config : C
  pub writer : Option C
  pub watcher : Option C
  pub channel : List C
  pub refresher : Refresher C
  pub sent : List C
  pub refreshed : List C

abbrev pub capacity : ℕ
capacity = 1

-- Right after `InitConfig`.
abbrev pub started : {C : Type 0} → C → State C
started c = record {
  config = c;
  writer = none;
  watcher = none;
  channel = [];
  refresher = waiting;
  sent = [];
  refreshed = [];
}

-- `reads c`: the calls of `GetConfig` that a refresh with `c` makes.
pub data Step {C : Type 0} (reads : C → ℕ) (s : State C) : State C → Type 0 where
  update_locked :
      (c : C) → s.writer ≡ none → Step reads s (record s { config = c; writer = some c })
  update_sent :
      (c : C)
      → s.writer ≡ some c
      → length s.channel < capacity
      → Step reads s
          (record s { writer = none; channel = s.channel ++ c ∷ []; sent = s.sent ++ c ∷ [] })
  reload_written :
      (c : C)
      → s.writer ≡ none
      → s.watcher ≡ none
      → Step reads s (record s { config = c; watcher = some c })
  reload_sent :
      (c : C)
      → s.watcher ≡ some c
      → length s.channel < capacity
      → Step reads s
          (record s { watcher = none; channel = s.channel ++ c ∷ []; sent = s.sent ++ c ∷ [] })
  reload_skipped :
      (c : C)
      → s.watcher ≡ some c
      → length s.channel ≡ capacity
      → Step reads s (record s { watcher = none })
  received :
      (c : C) (rest : List C)
      → s.refresher ≡ waiting
      → s.channel ≡ c ∷ rest
      → Step reads s (record s { refresher = refreshing c (reads c); channel = rest })
  config_read :
      (c : C) (n : ℕ)
      → s.refresher ≡ refreshing c (suc n)
      → s.writer ≡ none
      → Step reads s (record s { refresher = refreshing c n })
  finished :
      (c : C)
      → s.refresher ≡ refreshing c 0
      → Step reads s (record s { refresher = waiting; refreshed = s.refreshed ++ c ∷ [] })

pub data Reach {C : Type 0} (reads : C → ℕ) (s : State C) : State C → Type 0 where
  here : Reach reads s s
  next : {t u : State C} → Reach reads s t → Step reads t u → Reach reads s u
