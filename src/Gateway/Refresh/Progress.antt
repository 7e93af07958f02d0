-- ===== src/Gateway/Refresh/Progress.antt =====
-- The updates of the configuration: in what order they are refreshed, and when they wait for ever.
use mini_gateway.Common.{
  none-ne-some, ℕ, zero, suc, ◌-◌, ◌<◌, ◌≤◌, List, [], ◌∷◌, ◌++◌, Option, none, some, length, ◌≡◌,
  ◌↔◌, refl, arith, append_assoc, length-append, ap, sym, ◌∙◌,
}
use mini_gateway.Gateway.Refresh.{
  Refresher, waiting, refreshing, State, capacity, started, Step, update_locked, update_sent,
  reload_written, reload_sent, reload_skipped, received, config_read, finished, Reach, here, next,
}

module _ {C : Type 0} where
  -- The configuration that is being refreshed.
  abbrev pub in_hand : Refresher C → List C
  in_hand waiting = []
  in_hand (refreshing c n) = c ∷ []

  waiting-ne : {c : C} {n : ℕ} → ¬ (waiting ≡ refreshing c n)
  waiting-ne e = cc

  done-ne : {c d : C} {n : ℕ} → ¬ (refreshing c 0 ≡ refreshing d (suc n))
  done-ne e = ground arith

  -- The lock is held by an update that waits for room in the channel, and the only goroutine that
  -- makes room waits for the lock.
  pub record IsStuck (s : State C) : Type 0 where
    pub update : C
    pub held : s.writer ≡ some update
    pub full : length s.channel ≡ capacity
    pub current : C
    pub left : ℕ
    pub reading : s.refresher ≡ refreshing current (suc left)

  pub record InOrder (s : State C) : Type 0 where
    pub bounded : length s.channel ≤ capacity
    pub ordered : s.sent ≡ s.refreshed ++ (in_hand s.refresher ++ s.channel)

  abbrev OrderedAt : List C → List C → Refresher C → List C → Type 0
  OrderedAt sent refreshed refresher channel = sent ≡ refreshed ++ (in_hand refresher ++ channel)

  -- A notification goes to the end of the channel.
  sent-ordered :
      (sent refreshed channel : List C) (refresher : Refresher C) (c : C)
      → OrderedAt sent refreshed refresher channel
      → OrderedAt (sent ++ c ∷ []) refreshed refresher (channel ++ c ∷ [])
  sent-ordered sent refreshed channel refresher c h = rw h (simp append_assoc)

started-InOrder : {C : Type 0} (c : C) → InOrder (started c)
started-InOrder c = record { bounded = omega arith; ordered = refl }

module _ {C : Type 0} {reads : C → ℕ} where
  Step-InOrder : {s t : State C} → Step reads s t → InOrder s → InOrder t
  Step-InOrder (update_locked c w) i = record { bounded = i.bounded; ordered = i.ordered }
  Step-InOrder {s} (update_sent c w room) i = record {
    bounded = omega (arith, length-append s.channel (c ∷ []));
    ordered = sent-ordered s.sent s.refreshed s.channel s.refresher c i.ordered;
  }
  Step-InOrder (reload_written c w v) i = record { bounded = i.bounded; ordered = i.ordered }
  Step-InOrder {s} (reload_sent c w room) i = record {
    bounded = omega (arith, length-append s.channel (c ∷ []));
    ordered = sent-ordered s.sent s.refreshed s.channel s.refresher c i.ordered;
  }
  Step-InOrder (reload_skipped c w full) i = record { bounded = i.bounded; ordered = i.ordered }
  Step-InOrder {s} (received c rest idle ch) i = record {
    bounded = omega (arith, i.bounded, ap length ch);
    ordered = i.ordered ∙ λ j. s.refreshed ++ (in_hand (idle j) ++ ch j);
  }
  Step-InOrder {s} (config_read c n r w) i = record {
    bounded = i.bounded;
    ordered = i.ordered ∙ λ j. s.refreshed ++ (in_hand (r j) ++ s.channel);
  }
  Step-InOrder {s} (finished c r) i = record {
    bounded = i.bounded;
    ordered =
        i.ordered
        ∙ (λ j. s.refreshed ++ (in_hand (r j) ++ s.channel))
        ∙ sym (append_assoc s.refreshed (c ∷ []) s.channel);
  }

  Reach-InOrder : {s t : State C} → InOrder s → Reach reads s t → InOrder t
  Reach-InOrder i here = i
  Reach-InOrder i (next r st) = Step-InOrder st (Reach-InOrder i r)

  -- After any interleaving from the start: the configurations that the channel took are those that were
  -- refreshed, then the one in hand, then the one that the channel holds, in the order in which they
  -- were sent, so none is lost or refreshed twice; and the channel holds one at most.
  pub refreshed_in_order :
      (c : C) {t : State C}
      → Reach reads (started c) t
      → (t.sent ≡ t.refreshed ++ (in_hand t.refresher ++ t.channel)) × (length t.channel ≤ 1)
  refreshed_in_order c r = let i = Reach-InOrder (started-InOrder c) r in (i.ordered, i.bounded)

  Step-IsStuck : {s t : State C} → Step reads s t → IsStuck s → IsStuck t
  Step-IsStuck (update_locked c w) k = absurd (none-ne-some (sym w ∙ k.held))
  Step-IsStuck (update_sent c w room) k = absurd (omega (arith, k.full))
  Step-IsStuck (reload_written c w v) k = absurd (none-ne-some (sym w ∙ k.held))
  Step-IsStuck (reload_sent c w room) k = absurd (omega (arith, k.full))
  Step-IsStuck (reload_skipped c w full) k = record {
    update = k.update;
    held = k.held;
    full = k.full;
    current = k.current;
    left = k.left;
    reading = k.reading;
  }
  Step-IsStuck (received c rest idle ch) k = absurd (waiting-ne (sym idle ∙ k.reading))
  Step-IsStuck (config_read c n r w) k = absurd (none-ne-some (sym w ∙ k.held))
  Step-IsStuck (finished c r) k = absurd (done-ne (sym r ∙ k.reading))

  Reach-IsStuck : {s t : State C} → IsStuck s → Reach reads s t → IsStuck t
  Reach-IsStuck k here = k
  Reach-IsStuck k (next r st) = Step-IsStuck st (Reach-IsStuck k r)

  -- What the goroutines do without a new update until the lock is free.
  release :
      (s : State C) (writer : Option C) (channel : List C) (refresher : Refresher C)
      → s.writer ≡ writer
      → s.channel ≡ channel
      → s.refresher ≡ refresher
      → length s.channel ≤ 1
      → ¬ IsStuck s
      → (t : State C) × Reach reads s t × (t.writer ≡ none)
  release s none channel refresher w ch r bounded free = (s, here, w)
  release s (some c) [] refresher w ch r bounded free =
      (_, next here (update_sent c w (omega (arith, ap length ch))), refl)
  release s (some c) (x ∷ []) waiting w ch r bounded free =
      (_, next (next here (received x [] r ch)) (update_sent c w (omega arith)), refl)
  release s (some c) (x ∷ []) (refreshing d zero) w ch r bounded free = (
    _,
    next (next (next here (finished d r)) (received x [] refl ch)) (update_sent c w (omega arith)),
    refl,
  )
  release s (some c) (x ∷ []) (refreshing d (suc n)) w ch r bounded free = absurd (
      free record { update = c; held = w; full = ap length ch; current = d; left = n; reading = r })
  release s (some c) (x ∷ y ∷ rest) refresher w ch r bounded free =
      absurd (omega (arith, ap length ch))

  -- In every state that the gateway reaches: the goroutines can go on until no update holds the lock,
  -- exactly when the state is not stuck.
  pub released_iff_not-IsStuck :
      (c : C) {s : State C}
      → Reach reads (started c) s
      → ((t : State C) × Reach reads s t × (t.writer ≡ none)) ↔ (¬ IsStuck s)
  released_iff_not-IsStuck c {s} reached = (
    λ free stuck. none-ne-some (sym free.2 ∙ (Reach-IsStuck stuck free.1).held),
    release s s.writer s.channel s.refresher refl refl refl (refreshed_in_order c reached).1,
  )

  -- Three updates and one refresh can stop the gateway: from a state where nobody holds the lock, the
  -- channel is empty and the refresh goroutine waits, if the refresh with the first update reads the
  -- configuration at all, there is an interleaving that ends with the third update in force and the
  -- gateway stuck, with nothing more refreshed.
  pub three_updates-IsStuck :
      (s : State C)
      → s.writer ≡ none
      → s.channel ≡ []
      → s.refresher ≡ waiting
      → (a b c : C) → 0 < reads a
      → (t : State C) × Reach reads s t × IsStuck t × (t.config ≡ c) × (t.refreshed ≡ s.refreshed)
  three_updates-IsStuck s w ch r a b c h = (
    _,
    next
        (next
          (next
            (next
              (next (next here (update_locked a w))
                (update_sent a refl (omega (arith, ap length ch))))
              (received a [] r (ap (λ l. l ++ a ∷ []) ch)))
            (update_locked b refl))
          (update_sent b refl (omega arith)))
        (update_locked c refl),
    record {
      update = c;
      held = refl;
      full = refl;
      current = a;
      left = reads a - 1;
      reading = ap (refreshing a) (omega arith);
    },
    refl,
    refl,
  )
