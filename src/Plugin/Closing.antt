-- ===== src/Plugin/Closing.antt =====
-- pkg/synurang/plugin.go: what `Close` guarantees to the calls that run beside it.
use synurang.Common.{
  ℕ, ◌+◌, ◌≤◌, ◌≡◌, ◌≢◌, refl, Bool, true, false, Bytes, List, [], ◌∷◌, none, some, arith, bytes_eq,
  if◌then◌else◌,
}
use synurang.Plugin.Errors.{Result, ok}
use synurang.Common.Counting.{count, keys}
use synurang.Plugin.Library.{
  Plugin, load_plugin, release, acquire, acquire_for_stream_op, load_invoker, load_stream_opener,
  ensure_stream_funcs, track, stream_close, close_begin, close_end,
}
use synurang.Plugin.Balance.{Step-Inv}
use synurang.Plugin.Unloading.{
  System, Step, enter, enter_stream, move, leave, invoker, opener, open_one, close_one, close_all,
  close_next, unload, after_end, Reach, done, more, Inv,
}

-- A plugin that `LoadPlugin` has just returned.
abbrev pub start : Plugin → System
start p = record {
  plugin = p;
  calls = [];
  closing = none;
  loaded = true;
  opened_log = [];
  closed_log = [];
}

module _ (sym : ℕ → Bytes → Result ℕ) where
  start-Inv :
      (open_library : Bytes → Result ℕ) (path : Bytes) (p : Plugin)
      → load_plugin sym open_library path ≡ (ok p, [])
      → Inv (start p)
  unfolding load_plugin count
  start-Inv open_library path p e = record {
    counted = ground arith;
    gone = λ g. absurd (ground arith);
    begun = λ hs g. absurd (ground arith);
    ready = record { without = ground arith; close_ptr = ground arith; emptied = ground arith };
    once = λ h. ground arith;
    tally = λ h. ground arith;
  }

  Reach-Inv : {x y : System} → Reach sym x y → Inv x → Inv y
  Reach-Inv done v = v
  Reach-Inv (more r s) v = Step-Inv sym s (Reach-Inv r v)

  -- Once `Close` has unloaded the library of a loaded plugin, no call is left that could run code in it,
  -- and none ever gets in again, whatever goroutines call the plugin and in whatever order.
  pub Reach-unloaded :
      (open_library : Bytes → Result ℕ) (path : Bytes) (p : Plugin) {x : System}
      → load_plugin sym open_library path ≡ (ok p, [])
      → Reach sym (start p) x
      → x.loaded ≡ false
      → (x.calls ≡ []) × (x.plugin.running ≡ 0) × (x.plugin.closed ≡ true)
  Reach-unloaded open_library path p e r g =
      let v = Reach-Inv r (start-Inv open_library path p e) in ground (arith, v.gone, v.counted)

  -- Every stream of a loaded plugin whose library never answers the same handle twice is handed to
  -- `platformStreamClose` at most once, by `StreamClose`, by `Close` or by an `OpenStream` that comes too late;
  -- and once `Close` has begun, every stream that was ever opened has been handed to exactly one closing.
  pub Reach-closed_once :
      (open_library : Bytes → Result ℕ) (path : Bytes) (p : Plugin) {x : System} (h : ℕ)
      → load_plugin sym open_library path ≡ (ok p, [])
      → Reach sym (start p) x
      → (count h x.closed_log ≤ 1)
        × (count h x.closed_log
              + (if x.plugin.closed then 0 else count h (keys x.plugin.active_streams))
            ≡ count h x.opened_log)
  unfolding count
  Reach-closed_once open_library path p {x} h e r =
      let v = Reach-Inv r (start-Inv open_library path p e) in
      ground (arith, v.once h, v.tally h, v.ready.emptied)

  cons : {x y z : System} → Step sym x y → Reach sym y z → Reach sym x z
  cons s done = more done s
  cons s (more r t) = more (cons s r) t

  -- Unloaded, with no handle left.
  abbrev Ends : System → Type 0
  Ends x = (y : System) × Reach sym x y × (y.loaded ≡ false) × (y.plugin.handle ≡ 0)

  via : {x y : System} → Step sym x y → Ends y → Ends x
  via s (z, r, g, k) = (z, cons s r, g, k)

  -- The handle that `LoadPlugin` stored stays until the library is unloaded.
  abbrev Holds : ℕ → System → Type 0
  Holds n x = x.loaded ≡ true → x.plugin.handle ≡ n

  Step-Holds : {n : ℕ} {x y : System} → Step sym x y → Holds n x → Holds n y
  unfolding acquire acquire_for_stream_op release load_invoker load_stream_opener
      ensure_stream_funcs track stream_close close_begin close_end
  Step-Holds (enter e) h = ground (arith, h)
  Step-Holds (enter_stream e) h = ground (arith, h)
  Step-Holds (move before rest inside e) h = h
  Step-Holds (leave before rest e) h = h
  Step-Holds (invoker service) h = ground (arith, h)
  Step-Holds (opener service) h = ground (arith, h)
  Step-Holds (open_one service ptr k before rest held known fresh) h = ground (arith, h)
  Step-Holds (close_one k) h = ground (arith, h)
  Step-Holds close_all h = ground (arith, h)
  Step-Holds (close_next e) h = h
  Step-Holds (unload e none_run) h = ground (arith, h)

  Reach-Holds : {n : ℕ} {x y : System} → Reach sym x y → Holds n x → Holds n y
  Reach-Holds done h = h
  Reach-Holds (more r s) h = Step-Holds s (Reach-Holds r h)

  unload_now :
      (n : ℕ) (x : System) → n ≢ 0 → x.closing ≡ some [] → x.calls ≡ [] → Inv x → Holds n x → Ends x
  unfolding close_end
  unload_now n x present c e v h =
      let s : Step sym x (after_end x (close_end x.plugin)) =
        unload c (ground (arith, v.counted)) in
      via s (_, done, ground (arith, v.gone, h), ground (arith, v.gone, h))

  module _ (n : ℕ) (present : n ≢ 0) where
    -- The calls come out of the library and return, one after the other; then the wait is over.
    drain :
        (calls : List Bool) (x : System)
        → x.calls ≡ calls
        → x.closing ≡ some []
        → Inv x
        → Holds n x
        → Ends x
    drain [] x e c v k = unload_now n x present c e v k
    drain (false ∷ rest) x e c v k =
        let left : System = record x { plugin = release x.plugin; calls = rest } in
        let s : Step sym x left = leave [] rest e in
        via s (drain rest left refl c (Step-Inv sym s v) (Step-Holds s k))
    drain (true ∷ rest) x e c v k =
        let out : System = record x { calls = false ∷ rest } in
        let left : System = record x { plugin = release x.plugin; calls = rest } in
        let s : Step sym x out = move [] rest true e in
        let t : Step sym out left = leave [] rest refl in
        let r : Reach sym x left = more (more done s) t in
        via s (via t (drain rest left refl c (Reach-Inv r v) (Reach-Holds r k)))

    closes : (hs : List ℕ) (x : System) → x.closing ≡ some hs → Inv x → Holds n x → Ends x
    closes [] x c v k = drain x.calls x refl c v k
    closes (h ∷ hs) x c v k =
        let next : System = record x {
          plugin = record x.plugin { running = x.plugin.running + 1 };
          calls = false ∷ x.calls;
          closing = some hs;
        } in
        let s : Step sym x next = close_next c in
        via s (closes hs next refl (Step-Inv sym s v) (Step-Holds s k))

  -- A `Close` that has begun can always finish, when the loader gave the plugin a handle that is not nil:
  -- from every state of a loaded plugin in which it still has handles to close or calls to wait for, the
  -- calls can return, and `Close` then unloads the library and clears the handle.
  pub Reach-unloads :
      (open_library : Bytes → Result ℕ) (path : Bytes) (p : Plugin) {x : System} (hs : List ℕ)
      → load_plugin sym open_library path ≡ (ok p, [])
      → p.handle ≢ 0
      → Reach sym (start p) x
      → x.closing ≡ some hs
      → (y : System) × Reach sym x y × (y.loaded ≡ false) × (y.plugin.handle ≡ 0)
  Reach-unloads open_library path p {x} hs e present r c =
      closes p.handle present hs x c (Reach-Inv r (start-Inv open_library path p e))
        (Reach-Holds r (λ g. refl))
