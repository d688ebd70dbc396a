-- ===== src/Backend/Restart.antt =====
-- cmd/server/main.go: the server can be started and stopped again and again.
use synurang.Common.{
  ℕ, zero, suc, ◌+◌, ◌≡◌, ◌∙◌, refl, ap₂, ◌⊎◌, inl, inr, length, length-append, Bool, true, false,
  Bytes, List, [], ◌∷◌, ◌++◌, Option, none, some, arith, if◌then◌else◌, bytes_beq,
}
use mathlib.Core.List.{append-nil}
use synurang.Backend.Lifecycle.{
  CoreArgument, Settings, settings, Listener, unix, tcp, Effect, removed, listens, closes,
  core_closed, server_stopped, Backend, Machine, listen_unix, listen_tcp, open_listeners,
  close_listeners, close_served, pick, serves, serve, serve_each, start_grpc_server,
  stop_grpc_server,
}

-- The listeners that effects open, and those that they close.
abbrev pub opened : List Effect → List Listener
opened [] = []
opened (listens l ∷ es) = l ∷ opened es
opened (e ∷ es) = opened es

abbrev pub closed : List Effect → List Listener
closed [] = []
closed (closes l ∷ es) = l ∷ closed es
closed (e ∷ es) = closed es

opened-append : (es fs : List Effect) → opened (es ++ fs) ≡ opened es ++ opened fs
opened-append [] fs = refl
opened-append (listens l ∷ es) fs = ap₂ ◌∷◌ refl (opened-append es fs)
opened-append (removed p ∷ es) fs = opened-append es fs
opened-append (serves l ∷ es) fs = opened-append es fs
opened-append (closes l ∷ es) fs = opened-append es fs
opened-append (core_closed ∷ es) fs = opened-append es fs
opened-append (server_stopped ∷ es) fs = opened-append es fs

closed-append : (es fs : List Effect) → closed (es ++ fs) ≡ closed es ++ closed fs
closed-append [] fs = refl
closed-append (closes l ∷ es) fs = ap₂ ◌∷◌ refl (closed-append es fs)
closed-append (removed p ∷ es) fs = closed-append es fs
closed-append (serves l ∷ es) fs = closed-append es fs
closed-append (listens l ∷ es) fs = closed-append es fs
closed-append (core_closed ∷ es) fs = closed-append es fs
closed-append (server_stopped ∷ es) fs = closed-append es fs

-- Effects that open exactly these listeners and close none.
abbrev Opens : List Listener × List Effect → Type 0
Opens (ls, es) = (opened es ≡ ls) × (closed es ≡ [])

listen_unix-Opens : (m : Machine) (path : Bytes) → Opens (listen_unix m path)
unfolding listen_unix
listen_unix-Opens m path = ground arith

listen_tcp-Opens : (m : Machine) (port : Bytes) → Opens (listen_tcp m port)
unfolding listen_tcp
listen_tcp-Opens m port = ground arith

open_listeners-Opens :
    (m : Machine) (unix_first : Bool) (s : Settings) → Opens (open_listeners m unix_first s)
unfolding open_listeners
open_listeners-Opens m unix_first s =
    let (ls, es) = listen_unix m s.engine_socket_path in
    let (ks, fs) = listen_tcp m s.engine_tcp_port in
    ground (
      arith,
      opened-append es fs,
      opened-append fs es,
      closed-append es fs,
      closed-append fs es,
      listen_unix-Opens m s.engine_socket_path,
      listen_tcp-Opens m s.engine_tcp_port,
    )

close_listeners-closed :
    (ls : List Listener) → (closed (close_listeners ls) ≡ ls) × (opened (close_listeners ls) ≡ [])
unfolding close_listeners
close_listeners-closed [] = (refl, refl)
close_listeners-closed (unix p ∷ ls) = ground (arith, close_listeners-closed ls)
close_listeners-closed (tcp p ∷ ls) = ground (arith, close_listeners-closed ls)

Pick-cases :
    (o : Option (Listener × List Listener))
    → (o ≡ none) ⊎ ((l : Listener) × (ls : List Listener) × (o ≡ some (l, ls)))
Pick-cases none = inl refl
Pick-cases (some (l, ls)) = inr (l, ls, refl)

close_served-closed :
    (ls : List Listener) → (closed (close_served ls) ≡ ls) × (opened (close_served ls) ≡ [])
close_served-closed [] = (refl, refl)
close_served-closed (l ∷ ls) = ground (arith, close_served-closed ls)

pick-length :
    (i : ℕ) (ls ks : List Listener) (l : Listener)
    → pick i ls ≡ some (l, ks)
    → length ls ≡ suc (length ks)
pick-length i [] ks l e = absurd (ground arith)
pick-length zero (k ∷ ls) ks l e = ground arith
pick-length (suc i) (k ∷ ls) ks l e = elim (Pick-cases (pick i ls)) [
  | inl missing ↦ absurd (ground (arith, missing))
  | inr (l', ks', found) ↦ ground (arith, found, pick-length i ls ks' l' found)
]

module _ {ℓ κ} {K : Type ℓ} {C : Type κ} where
  -- What serving leaves alone, and how many listeners it moves.
  record Keeps (b c : Backend K C) : Type (ℓ ⊔ κ) where
    running : c.running ≡ true
    listeners : c.listeners ≡ b.listeners
    number : length c.served + length c.pending ≡ length b.served + length b.pending
    opens : opened c.effects ≡ opened b.effects
    closes : closed c.effects ≡ closed b.effects

  serve-Keeps :
      (i : ℕ) (b : Backend K C)
      → b.running ≡ true
      → (c : Backend K C) × (serve i b ≡ some c) × Keeps b c
  unfolding serve
  serve-Keeps i b r = elim (Pick-cases (pick i b.pending)) [
    | inl missing ↦ (
      b,
      ground (arith, missing),
      record { running = r; listeners = refl; number = refl; opens = refl; closes = refl },
    )
    | inr (l, ls, found) ↦ (
      record b { pending = ls; served = b.served ++ l ∷ []; effects = b.effects ++ serves l ∷ [] },
      ground (arith, found),
      record {
        running = r;
        listeners = refl;
        number =
            ground (arith, pick-length i b.pending ls l found, length-append b.served (l ∷ []));
        opens =
            ground (arith, opened-append b.effects (serves l ∷ []), append-nil (opened b.effects));
        closes =
            ground (arith, closed-append b.effects (serves l ∷ []), append-nil (closed b.effects));
      },
    )
  ]

  serve_each-Keeps :
      (picks : List ℕ) (b : Backend K C)
      → b.running ≡ true
      → (c : Backend K C) × (serve_each picks b ≡ some c) × Keeps b c
  unfolding serve_each
  serve_each-Keeps [] b r = (
    b,
    refl,
    record { running = r; listeners = refl; number = refl; opens = refl; closes = refl },
  )
  serve_each-Keeps (i ∷ is) b r =
      let (c, e, k) = serve-Keeps i b r in
      let (d, f, k') = serve_each-Keeps is c k.running in
      (
        d,
        ground (arith, e, f),
        record {
          running = k'.running;
          listeners = k'.listeners ∙ k.listeners;
          number = k'.number ∙ k.number;
          opens = k'.opens ∙ k.opens;
          closes = k'.closes ∙ k.closes;
        },
      )

  stop_lem :
      (order : List Listener → List Listener) (c : Backend K C)
      → c.running ≡ true
      → opened c.effects ≡ c.listeners
      → closed c.effects ≡ []
      → let b2 = stop_grpc_server order c in
        (b2.running ≡ false)
        × (b2.impl ≡ none)
        × (b2.listeners ≡ [])
        × (stop_grpc_server order b2 ≡ b2)
        × (closed b2.effects ≡ order c.served ++ opened b2.effects)
        × ((c.pending ≡ []) ⊎ (serve 0 b2 ≡ none))
  unfolding stop_grpc_server serve
  stop_lem order c r o k =
      let ends = close_served (order c.served) ++ close_listeners c.listeners in
      ground (
        arith,
        opened-append c.effects (core_closed ∷ server_stopped ∷ ends),
        closed-append c.effects (core_closed ∷ server_stopped ∷ ends),
        opened-append c.effects (server_stopped ∷ ends),
        closed-append c.effects (server_stopped ∷ ends),
        opened-append (close_served (order c.served)) (close_listeners c.listeners),
        closed-append (close_served (order c.served)) (close_listeners c.listeners),
        close_listeners-closed c.listeners,
        close_served-closed (order c.served),
        append-nil c.listeners,
      )

module _ {ℓ κ} {K : Type ℓ} {C : Type κ} (open_cache : Bytes → Option K) (dial : Bytes → Option C)
    (m : Machine) where
  -- A stopped server that has done nothing starts, whatever the arguments and whichever listeners fail. Any
  -- of the goroutines of its listeners may then serve, in any order, one listener each; a second start
  -- changes nothing and reports -1. A stop takes it back to a stopped server without a service or listeners,
  -- which a second stop leaves alone. The listeners that have been closed are then those served, by the
  -- `Stop` of gRPC in its order, and after them all that have been opened, each once, in the order of
  -- opening; and a goroutine that had not come to its `Serve` by then dereferences nil.
  pub stop-start :
      (order : List Listener → List Listener) (unix_first : Bool) (a a' : CoreArgument)
      (picks : List ℕ) (b : Backend K C)
      → b.running ≡ false
      → b.effects ≡ []
      → let (b1, ok) = start_grpc_server open_cache dial m unix_first a b in
        (ok ≡ true)
        × ((c : Backend K C) × (serve_each picks b1 ≡ some c)
            × (length c.served + length c.pending ≡ length b1.listeners + length b.pending)
            × (start_grpc_server open_cache dial m unix_first a' c ≡ (c, false))
            × (let b2 = stop_grpc_server order c in
                (b2.running ≡ false)
                × (b2.impl ≡ none)
                × (b2.listeners ≡ [])
                × (stop_grpc_server order b2 ≡ b2)
                × (closed b2.effects ≡ order c.served ++ opened b2.effects)
                × ((c.pending ≡ []) ⊎ (serve 0 b2 ≡ none))))
  unfolding start_grpc_server
  stop-start order unix_first a a' picks b r e =
      let (ls, es) = open_listeners m unix_first (settings a) in
      let b1 = (start_grpc_server open_cache dial m unix_first a b).0 in
      let (c, g, k) = serve_each-Keeps picks b1 (ground arith) in
      (
        ground arith,
        (
          c,
          g,
          ground (arith, k.number, length-append b.pending ls),
          ground (arith, k.running),
          stop_lem order c k.running
              (ground (arith, k.opens, k.listeners, open_listeners-Opens m unix_first (settings a)))
              (ground (arith, k.closes, open_listeners-Opens m unix_first (settings a))),
        ),
      )

  -- Without a path for the engine's socket, the storage path is taken for it: whatever stands there is
  -- removed, and the server listens there.
  storage_path_removed :
      (unix_first : Bool) (a : CoreArgument) (c : ℕ) (cs : Bytes) (b : Backend K C)
      → a.storage_path ≡ some (c ∷ cs)
      → a.engine_socket_path ≡ none
      → a.engine_tcp_port ≡ none
      → m.exists (c ∷ cs) ≡ true
      → b.running ≡ false
      → (start_grpc_server open_cache dial m unix_first a b).0.effects
        ≡ b.effects
          ++ removed (c ∷ cs)
            ∷ (if m.can_listen (unix (c ∷ cs)) then listens (unix (c ∷ cs)) ∷ [] else [])
  unfolding start_grpc_server bytes_beq
  storage_path_removed unix_first a c cs b p e t x r = ground arith
