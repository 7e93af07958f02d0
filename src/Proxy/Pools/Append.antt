-- ===== src/Proxy/Pools/Append.antt =====
-- What appending to a slice leaves in memory.
use mini_gateway.Common.{
  ℕ, suc, ◌+◌, ◌≤◌, ◌<◌, ◌≡◌, refl, sym, ap, ◌∙◌, true, false, List, [], ◌∷◌, ◌++◌, length, take,
  drop, leb, ◌==◌, arith, append_assoc, append-nil, length-append, length-drop, length-take,
  Bool-cases, inl, inr,
}
use mini_gateway.Proxy.Pools.{Slice, Memory, contents, append_items, append_each}

module _ {A : Type 0} where
  -- The slice lies in an array that exists and has room for it.
  abbrev pub IsHeld : Slice → Memory A → Type 0
  IsHeld s m = (s.len ≤ length (m.cells s.array)) × (s.array < m.next)

  take_front : (xs ys : List A) → take (length xs) (xs ++ ys) ≡ xs
  take_front [] ys = refl
  take_front (x ∷ xs) ys = ap (◌∷◌ x) (take_front xs ys)

  -- The slice has the values after what it had, and the pool is as it was.
  pub record IsAppended (s : Slice) (m : Memory A) (values : List A) (r : Slice × Memory A)
      : Type 0 where
    pub held : IsHeld r.0 r.1
    pub len : r.0.len ≡ s.len + length values
    pub filled : contents r.1 r.0 ≡ contents m s ++ values
    pub pool : r.1.pool ≡ m.pool

  written-IsAppended :
      (s : Slice) (m : Memory A) (values rest : List A) (r : Slice × Memory A)
      → s.len ≤ length (m.cells s.array)
      → r.0.len ≡ s.len + length values
      → r.1.cells r.0.array ≡ (contents m s ++ values) ++ rest
      → r.0.array < r.1.next
      → r.1.pool ≡ m.pool
      → IsAppended s m values r
  written-IsAppended s m values rest r short len e old kept =
      let whole = contents m s ++ values in
      let whole_len : length whole ≡ s.len + length values =
        omega
          (arith, length-append (contents m s) values, length-take s.len (m.cells s.array) short) in
      let cut : contents r.1 r.0 ≡ take (length whole) (whole ++ rest) =
        rw (e, len, ← whole_len) refl in
      let room : r.0.len ≤ length (r.1.cells r.0.array) =
        rw e (omega (arith, len, whole_len, length-append whole rest)) in
      record { held = (room, old); len = len; filled = cut ∙ take_front whole rest; pool = kept }

  append_items-fits :
      (s : Slice) (values : List A) (m : Memory A)
      → leb (s.len + length values) (length (m.cells s.array)) ≡ true
      → ((append_items s values m).0.array ≡ s.array)
        × ((append_items s values m).0.len ≡ s.len + length values)
        × ((append_items s values m).1.next ≡ m.next)
        × ((append_items s values m).1.pool ≡ m.pool)
        × ((append_items s values m).1.cells s.array
            ≡ (contents m s ++ values) ++ drop (s.len + length values) (m.cells s.array))
  unfolding append_items
  append_items-fits s values m fits =
      let own : (s.array == s.array) ≡ true = ground arith in
      rw (fits, own) (refl, refl, refl, refl, refl)

  append_items-grows :
      (s : Slice) (values : List A) (m : Memory A)
      → leb (s.len + length values) (length (m.cells s.array)) ≡ false
      → ((append_items s values m).0.array ≡ m.next)
        × ((append_items s values m).0.len ≡ s.len + length values)
        × ((append_items s values m).1.next ≡ suc m.next)
        × ((append_items s values m).1.pool ≡ m.pool)
        × ((append_items s values m).1.cells m.next ≡ (contents m s ++ values) ++ [])
  unfolding append_items
  append_items-grows s values m grows =
      let own : (m.next == m.next) ≡ true = ground arith in
      rw (grows, own) (refl, refl, refl, refl, sym (append-nil (contents m s ++ values)))

  append_items-IsAppended :
      (s : Slice) (values : List A) (m : Memory A)
      → IsHeld s m
      → IsAppended s m values (append_items s values m)
  append_items-IsAppended s values m (short, old) =
      elim (Bool-cases (leb (s.len + length values) (length (m.cells s.array)))) [
        | inl fits ↦
            let (array, len, next, pool, cells) = append_items-fits s values m fits in
            written-IsAppended s m values (drop (s.len + length values) (m.cells s.array))
              (append_items s values m) short len (rw array cells) (rw (array, next) old) pool
        | inr grows ↦
            let (array, len, next, pool, cells) = append_items-grows s values m grows in
            written-IsAppended s m values [] (append_items s values m) short len (rw array cells)
              (rw (array, next) (omega arith)) pool
      ]

  pub append_each-IsAppended :
      (s : Slice) (values : List A) (m : Memory A)
      → IsHeld s m
      → IsAppended s m values (append_each s values m)
  unfolding append_each
  append_each-IsAppended s [] m held = record {
    held = held;
    len = omega arith;
    filled = sym (append-nil (contents m s));
    pool = refl;
  }
  append_each-IsAppended s (v ∷ vs) m held =
      let one = append_items-IsAppended s (v ∷ []) m held in
      let (s', m') = append_items s (v ∷ []) m in
      let more =
        append_each-IsAppended (append_items s (v ∷ []) m).0 vs (append_items s (v ∷ []) m).1
          one.held in
      record {
        held = more.held;
        len = omega (arith, more.len, one.len);
        filled =
            more.filled ∙ ap (λ c. c ++ vs) one.filled ∙ append_assoc (contents m s) (v ∷ []) vs;
        pool = more.pool ∙ one.pool;
      }

  overwritten_long :
      (n : ℕ) (values xs : List A)
      → n + length values ≤ length xs
      → length ((take n xs ++ values) ++ drop (n + length values) xs) ≡ length xs
  overwritten_long n values xs room = omega (
    arith,
    length-append (take n xs ++ values) (drop (n + length values) xs),
    length-append (take n xs) values,
    length-take n xs (omega arith),
    length-drop (n + length values) xs,
  )

  -- With room in its array, a slice stays there.
  pub append_each-array :
      (s : Slice) (values : List A) (m : Memory A)
      → s.len + length values ≤ length (m.cells s.array)
      → (append_each s values m).0.array ≡ s.array
  unfolding append_each
  append_each-array s [] m room = refl
  append_each-array s (v ∷ vs) m room =
      let (array, len, next, pool, cells) = append_items-fits s (v ∷ []) m (ground arith) in
      let r = append_items s (v ∷ []) m in
      let long : length (r.1.cells r.0.array) ≡ length (m.cells s.array) =
        rw (array, cells) (overwritten_long s.len (v ∷ []) (m.cells s.array) (omega arith)) in
      let left : r.0.len + length vs ≤ length (r.1.cells r.0.array) =
        omega (arith, long, len, room) in
      append_each-array r.0 vs r.1 left ∙ array
