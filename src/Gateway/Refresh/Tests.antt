-- ===== src/Gateway/Refresh/Tests.antt =====
-- Configurations named by numbers; a refresh reads the configuration three times.
use mini_gateway.Common.{ℕ, ◌≤◌, ◌≡◌, ◌↔◌, ◌++◌, [], ◌∷◌, none, some, length, refl, arith}
use mini_gateway.Gateway.Refresh.{
  State, started, refreshing, Reach, here, next, update_locked, update_sent, received,
}
use mini_gateway.Gateway.Refresh.Progress.{
  in_hand, IsStuck, refreshed_in_order, released_iff_not-IsStuck, three_updates-IsStuck,
}

abbrev reads : ℕ → ℕ
reads c = 3

-- An update was sent and received, and a second one has the lock.
abbrev second_update : State ℕ
second_update = record (started 1) {
  config = 5;
  writer = some 5;
  refresher = refreshing 4 3;
  sent = 4 ∷ [];
}

second_update_reached : Reach reads (started 1) second_update
second_update_reached =
    next
      (next (next (next here (update_locked 4 refl)) (update_sent 4 refl (omega arith)))
        (received 4 [] refl refl))
      (update_locked 5 refl)

refreshed_in_order_example :
    (second_update.sent
      ≡ second_update.refreshed ++ (in_hand second_update.refresher ++ second_update.channel))
    × (length second_update.channel ≤ 1)
refreshed_in_order_example = refreshed_in_order 1 second_update_reached

released_iff_not-IsStuck_example :
    ((t : State ℕ) × Reach reads second_update t × (t.writer ≡ none)) ↔ (¬ IsStuck second_update)
released_iff_not-IsStuck_example = released_iff_not-IsStuck 1 second_update_reached

three_updates-IsStuck_example :
    (t : State ℕ) × Reach reads (started 1) t × IsStuck t × (t.config ≡ 7) × (t.refreshed ≡ [])
three_updates-IsStuck_example = three_updates-IsStuck (started 1) refl refl refl 5 6 7 (omega arith)
