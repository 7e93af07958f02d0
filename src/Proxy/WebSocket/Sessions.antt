-- ===== src/Proxy/WebSocket/Sessions.antt =====
-- What the sessions count, and which connections they are given.
use mini_gateway.Common.{
  none-ne-some, some-injective, ◌≡◌, String, Bool, true, false, List, [], ◌∷◌, ◌++◌, map, select,
  Option, none, some, lookup, insert, lookup-insert, lookup-insert_self, str_eq, eq_iff, eq_refl,
  Bool-cases, Option-cases, inl, inr, refl, sym, ap, ◌∙◌, arith,
}
use mini_gateway.Proxy.WebSocketPool.{WebSocketPool, get_conn}
use mini_gateway.Proxy.WebSocket.{
  Urls, Direction, to_backend, to_client, Session, full_target, count_of, is_websocket_scheme,
  forward_messages, serve_connection, serve_session, serve_sessions,
}

module _ {C : Type 0} where
  get_conn-reused :
      (target : String) (dialed : Option C) (p : WebSocketPool C) (c : C)
      → lookup target p.pool ≡ some c
      → get_conn target dialed p ≡ (some c, p)
  unfolding get_conn
  get_conn-reused target dialed p c e = rw e refl

  get_conn-fails :
      (target : String) (p : WebSocketPool C)
      → lookup target p.pool ≡ none
      → get_conn target none p ≡ (none, p)
  unfolding get_conn
  get_conn-fails target p e = rw e refl

  get_conn-dials :
      (target : String) (conn : C) (p : WebSocketPool C)
      → lookup target p.pool ≡ none
      → get_conn target (some conn) p ≡ (some conn, record p { pool = insert target conn p.pool })
  unfolding get_conn
  get_conn-dials target conn p e = rw e refl

  -- The pool's connection of a target stays whatever is asked for.
  get_conn-kept :
      (target other : String) (dialed : Option C) (p : WebSocketPool C) (c : C)
      → lookup target p.pool ≡ some c
      → lookup target (get_conn other dialed p).1.pool ≡ some c
  get_conn-kept target other none p c e = elim (Option-cases (lookup other p.pool)) [
    | inr (old, found) ↦ rw (get_conn-reused other none p old found) e
    | inl missing ↦ rw (get_conn-fails other p missing) e
  ]
  get_conn-kept target other (some conn) p c e = elim (Option-cases (lookup other p.pool)) [
    | inr (old, found) ↦ rw (get_conn-reused other (some conn) p old found) e
    | inl missing ↦
        rw (get_conn-dials other conn p missing)
          (ground (arith, e, missing, lookup-insert other target conn p.pool, eq_iff other target))
  ]

  -- The connection that was given is in the pool.
  get_conn-stored :
      (target : String) (dialed : Option C) (p : WebSocketPool C) (c : C)
      → (get_conn target dialed p).0 ≡ some c
      → lookup target (get_conn target dialed p).1.pool ≡ some c
  get_conn-stored target none p c e = elim (Option-cases (lookup target p.pool)) [
    | inr (old, found) ↦
        let given = get_conn-reused target none p old found in
        rw given (found ∙ sym (ap (λ g. g.0) given) ∙ e)
    | inl missing ↦
        absurd (none-ne-some (sym (ap (λ g. g.0) (get_conn-fails target p missing)) ∙ e))
  ]
  get_conn-stored target (some conn) p c e = elim (Option-cases (lookup target p.pool)) [
    | inr (old, found) ↦
        let given = get_conn-reused target (some conn) p old found in
        rw given (found ∙ sym (ap (λ g. g.0) given) ∙ e)
    | inl missing ↦
        let given = get_conn-dials target conn p missing in
        rw given (lookup-insert_self target conn p.pool ∙ sym (ap (λ g. g.0) given) ∙ e)
  ]

module _ {A : Type 0} (keep : A → Bool) where
  select-append : (xs ys : List A) → select keep (xs ++ ys) ≡ select keep xs ++ select keep ys
  select-append [] ys = refl
  select-append (x ∷ xs) ys = ground (arith, select-append xs ys)

module _ {C : Type 0} (urls : Urls) (prefix : String) (local_addr : C → String) where
  -- A session that is good enough to reach the pool.
  pub record Reaches (r : Session C) : Type 0 where
    pub upgraded : r.upgraded ≡ true
    pub chosen : str_eq r.chosen "" ≡ false
    pub scheme : is_websocket_scheme (urls.scheme_of r.chosen) ≡ true

  serve_session-Reaches :
      (r : Session C) (p : WebSocketPool C)
      → Reaches r
      → serve_session urls prefix local_addr r p
        ≡ serve_connection urls prefix local_addr r
            (get_conn (full_target urls prefix r.chosen r.path) r.dialed p)
  unfolding serve_session
  serve_session-Reaches r p v = rw (v.upgraded, v.chosen, v.scheme) refl

  refused-kept :
      (r : Session C) (p : WebSocketPool C) (target : String) (c : C)
      → lookup target p.pool ≡ some c
      → lookup target (serve_session urls prefix local_addr r p).1.pool ≡ some c
  unfolding serve_session
  refused-kept r p target c e = elim (Bool-cases r.upgraded) [
    | inr no_upgrade ↦ rw no_upgrade e
    | inl upgraded ↦ elim (Bool-cases (str_eq r.chosen "")) [
      | inl no_choice ↦ rw (upgraded, no_choice) e
      | inr chosen ↦ elim (Bool-cases (is_websocket_scheme (urls.scheme_of r.chosen))) [
        | inr no_scheme ↦ rw (upgraded, chosen, no_scheme) e
        | inl scheme ↦
            let v : Reaches r = record { upgraded = upgraded; chosen = chosen; scheme = scheme } in
            let kept =
              get_conn-kept target (full_target urls prefix r.chosen r.path) r.dialed p c e in
            rw (serve_session-Reaches r p v)
              (served-kept (get_conn (full_target urls prefix r.chosen r.path) r.dialed p) kept)
      ]
    ]
  ]
    where
      served-kept :
          (g : Option C × WebSocketPool C)
          → lookup target g.1.pool ≡ some c
          → lookup target (serve_connection urls prefix local_addr r g).1.pool ≡ some c
      served-kept (none, q) k = k
      served-kept (some conn, q) k = k

  serve_sessions-kept :
      (rs : List (Session C)) (p : WebSocketPool C) (target : String) (c : C)
      → lookup target p.pool ≡ some c
      → lookup target (serve_sessions urls prefix local_addr rs p).pool ≡ some c
  unfolding serve_sessions
  serve_sessions-kept [] p target c e = e
  serve_sessions-kept (r ∷ rs) p target c e =
      serve_sessions-kept rs (serve_session urls prefix local_addr r p).1 target c
        (refused-kept r p target c e)

  connection-pool :
      (r : Session C) (g : Option C × WebSocketPool C)
      → (serve_connection urls prefix local_addr r g).1 ≡ g.1
  connection-pool r (none, q) = refl
  connection-pool r (some conn, q) = refl

  connection-counts :
      (r : Session C) (g : Option C × WebSocketPool C) (c : C)
      → g.0 ≡ some c
      → (serve_connection urls prefix local_addr r g).0.counts
        ≡ forward_messages urls prefix local_addr r c
  connection-counts r (none, q) c e = absurd (none-ne-some e)
  connection-counts r (some conn, q) c e =
      ap (forward_messages urls prefix local_addr r) (some-injective e)

  carried-others :
      (r : Session C) (c : C) (carried : List Direction)
      → str_eq (local_addr c) r.chosen ≡ false
      → str_eq r.client_addr r.chosen ≡ false
      → select
          (λ count. str_eq count.0 r.chosen)
          (map (count_of urls prefix local_addr r c) carried)
        ≡ []
  carried-others r c [] backend client = refl
  carried-others r c (to_backend ∷ carried) backend client =
      rw backend (carried-others r c carried backend client)
  carried-others r c (to_client ∷ carried) backend client =
      rw client (carried-others r c carried backend client)

  -- A connection is never given up: once a session was given a connection for what it dials, every later
  -- session that dials the same, after any sessions in between and whatever a new dial would give, is
  -- given that same connection, also if an error on it has ended the first session. No clean-up of the
  -- pool runs in between.
  pub serve_session-reuses :
      (p : WebSocketPool C) (r : Session C) (c : C)
      → Reaches r
      → (get_conn (full_target urls prefix r.chosen r.path) r.dialed p).0 ≡ some c
      → (rs : List (Session C)) (later : Session C) → Reaches later
      → full_target urls prefix later.chosen later.path ≡ full_target urls prefix r.chosen r.path
      → (serve_session urls prefix local_addr later (
          serve_sessions urls prefix local_addr rs
            (serve_session urls prefix local_addr r p).1)).0.connection
        ≡ some c
  serve_session-reuses p r c v e rs later w same =
      let target = full_target urls prefix r.chosen r.path in
      let g = get_conn target r.dialed p in
      let p' = (serve_session urls prefix local_addr r p).1 in
      let pool : p' ≡ g.1 = ap (λ t. t.1) (serve_session-Reaches r p v) ∙ connection-pool r g in
      let stored : lookup target p'.pool ≡ some c =
        ap (λ q. lookup target q.pool) pool ∙ get_conn-stored target r.dialed p c e in
      let p'' = serve_sessions urls prefix local_addr rs p' in
      let kept : lookup target p''.pool ≡ some c = serve_sessions-kept rs p' target c stored in
      let again : get_conn (full_target urls prefix later.chosen later.path) later.dialed p''
          ≡ (some c, p'') =
        ap (λ t. get_conn t later.dialed p'') same
        ∙ get_conn-reused target later.dialed p'' c kept in
      ap (λ t. t.0.connection)
        (serve_session-Reaches later p'' w
          ∙ ap (serve_connection urls prefix local_addr later) again)

  -- A session that is given a connection counts one request of its target, and counts it as a failure,
  -- however many messages it carried: the messages count for the local addresses of the connections,
  -- which are not the target here.
  pub serve_session-counts :
      (p : WebSocketPool C) (r : Session C) (c : C)
      → Reaches r
      → (get_conn (full_target urls prefix r.chosen r.path) r.dialed p).0 ≡ some c
      → str_eq (local_addr c) r.chosen ≡ false
      → str_eq r.client_addr r.chosen ≡ false
      → select
          (λ count. str_eq count.0 r.chosen)
          (serve_session urls prefix local_addr r p).0.counts
        ≡ (r.chosen, false) ∷ []
  serve_session-counts p r c v e backend client =
      let keep = λ (count : String × Bool). str_eq count.0 r.chosen in
      let g = get_conn (full_target urls prefix r.chosen r.path) r.dialed p in
      let before = carried-others r c r.carried backend client in
      let after = carried-others r c r.carried_after backend client in
      ap (λ t. select keep t.0.counts) (serve_session-Reaches r p v)
      ∙ ap (select keep) (connection-counts r g c e)
      ∙ select-append keep (map (count_of urls prefix local_addr r c) r.carried) _
      ∙ (λ i.
          before i
          ++ select keep
              ((r.chosen, false) ∷ map (count_of urls prefix local_addr r c) r.carried_after))
      ∙ rw (eq_refl r.chosen, after) refl
