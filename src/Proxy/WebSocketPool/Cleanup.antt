-- ===== src/Proxy/WebSocketPool/Cleanup.antt =====
-- What the clean-up leaves.
use mini_gateway.Common.{
  ℕ, ◌≤◌, ◌≡◌, refl, sym, subst, String, true, false, List, [], ◌∷◌, some, Dict, lookup,
  lookup-delete, delete, length, All, Elem, eq_iff, str_eq, arith, Bool-cases, inl, inr,
}
use mini_gateway.Common.Int.{ℤ, pos, ltb_ℤ}
use mini_gateway.Proxy.WebSocketPool.{WebSocketPool, close_idle, cleanup}

module _ {C : Type 0} where
  -- Without an entry for a target, the keys that are left are among the other targets.
  delete-All :
      (target : String) (targets : List String) (pool : Dict C)
      → All (λ e. Elem e.0 (target ∷ targets)) pool
      → All (λ e. Elem e.0 targets) (delete target pool)
  unfolding delete
  delete-All target targets [] h = tt
  delete-All target targets (e ∷ rest) h = elim (Bool-cases (str_eq e.0 target)) [
    | inl gone ↦ rw gone (delete-All target targets rest h.1)
    | inr kept ↦ rw kept (
      elim h.0 [
        | inl same ↦ absurd (ground (arith, (eq_iff e.0 target).1 same, kept))
        | inr later ↦ later
      ],
      delete-All target targets rest h.1,
    )
  ]

  close_idle-le :
      (most : ℕ) (targets : List String) (pool : Dict C)
      → All (λ e. Elem e.0 targets) pool
      → length (close_idle (pos most) targets pool) ≤ most
  unfolding close_idle
  close_idle-le most [] [] h = omega arith
  close_idle-le most [] (e ∷ rest) h = elim h.0 [ ]
  close_idle-le most (target ∷ targets) pool h =
      elim (Bool-cases (ltb_ℤ (pos most) (pos (length pool)))) [
        | inl many ↦
            rw many
              (close_idle-le most targets (delete target pool) (delete-All target targets pool h))
        | inr few ↦ rw few (ground (arith, few))
      ]

  -- No connection is new: a target has the connection that it had, or none.
  close_idle-kept :
      (max_idle : ℤ) (targets : List String) (pool : Dict C) (target : String) (conn : C)
      → lookup target (close_idle max_idle targets pool) ≡ some conn
      → lookup target pool ≡ some conn
  unfolding close_idle
  close_idle-kept max_idle [] pool target conn h = h
  close_idle-kept max_idle (t ∷ targets) pool target conn h =
      elim (Bool-cases (ltb_ℤ max_idle (pos (length pool)))) [
        | inr few ↦ rw few at h
        | inl many ↦
            let later : lookup target (close_idle max_idle targets (delete t pool)) ≡ some conn =
              rw many at h in
            let still = close_idle-kept max_idle targets (delete t pool) target conn later in
            ground (arith, lookup-delete t target pool, still)
      ]

  -- A round over all targets leaves at most `max_idle` connections, each of them the one that its target
  -- had, and changes nothing when there are no more than that.
  pub cleanup_lem :
      (p : WebSocketPool C) (targets : List String) (most : ℕ)
      → p.max_idle ≡ pos most
      → All (λ e. Elem e.0 targets) p.pool
      → (length (cleanup targets p).pool ≤ most)
        × ((target : String) (conn : C)
            → lookup target (cleanup targets p).pool ≡ some conn
            → lookup target p.pool ≡ some conn)
        × (length p.pool ≤ most → cleanup targets p ≡ p)
  unfolding cleanup
  cleanup_lem p targets most idle h = elim (Bool-cases (ltb_ℤ p.max_idle (pos (length p.pool)))) [
    | inl many ↦
        let over : ltb_ℤ (pos most) (pos (length p.pool)) ≡ true = rw idle at many in
        let left : length (close_idle p.max_idle targets p.pool) ≤ most =
          subst (λ m. length (close_idle m targets p.pool) ≤ most) (sym idle)
            (close_idle-le most targets p.pool h) in
        rw many (
          left,
          λ target conn. close_idle-kept p.max_idle targets p.pool target conn,
          λ few. absurd (ground (arith, over, few)),
        )
    | inr few ↦
        let under : ltb_ℤ (pos most) (pos (length p.pool)) ≡ false = rw idle at few in
        rw few (ground (arith, under), λ target conn same. same, λ e. refl)
  ]
