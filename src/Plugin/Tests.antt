-- ===== src/Plugin/Tests.antt =====
-- A plugin that is loaded, used by one call and one stream, and closed.
use synurang.Common.{
  ℕ, ◌+◌, ◌≡◌, refl, true, false, Bytes, [], ◌∷◌, none, some, arith, str, lookup, ◌⊎◌, ◌≤◌,
  if◌then◌else◌, insert, bytes_eq, bytes_beq,
}
use synurang.Plugin.Errors.{Result, ok}
use synurang.Plugin.Wire.{Received}
use synurang.Common.Counting.{count, keys}
use synurang.Plugin.Library.{
  Plugin, load_plugin, load_stream_opener, ensure_stream_funcs, acquire, release, track,
  close_begin, close_end, call_plugin, open_stream, stream_send, stream_recv, stream_close_send,
  stream_close_call, crashed,
}
use synurang.Plugin.Unloading.{
  System, Reach, done, more, enter, opener, open_one, leave, close_all, close_next, unload,
  after_open, after_begin, after_end, IsReady,
}
use synurang.Plugin.Closing.{start, Reach-unloaded, Reach-unloads, Reach-closed_once}
use synurang.Plugin.Calls.{calls_balanced}

program : Unit {0}
unfolding load_plugin load_stream_opener ensure_stream_funcs acquire release track close_begin
    close_end count lookup insert bytes_beq
program = tt

abbrev sym : ℕ → Bytes → Result ℕ
sym h name = ok 7

abbrev open_library : Bytes → Result ℕ
open_library path = ok 3

abbrev loaded_plugin : Plugin
loaded_plugin = record {
  handle = 3;
  free_ptr = 7;
  invokers = [];
  stream_openers = [];
  stream_funcs = none;
  active_streams = [];
  running = 0;
  closed = false;
}

loads : load_plugin sym open_library (str "x.so") ≡ (ok loaded_plugin, [])
unfolding program
loads = refl

abbrev entered : System
entered = record (start loaded_plugin) {
  plugin = record loaded_plugin { running = 1 };
  calls = false ∷ [];
}

abbrev known : System
known = record entered { plugin = (load_stream_opener sym (str "S") entered.plugin).0 }

abbrev streaming : System
streaming = after_open known 5 (track 5 known.plugin)

abbrev left : System
left = record streaming { plugin = release streaming.plugin; calls = [] }

abbrev begun : System
begun = after_begin left (close_begin left.plugin)

abbrev closing : System
closing = record begun {
  plugin = record begun.plugin { running = begun.plugin.running + 1 };
  calls = false ∷ begun.calls;
  closing = some [];
}

abbrev waited : System
waited = record closing { plugin = release closing.plugin; calls = [] }

abbrev unloaded : System
unloaded = after_end waited (close_end waited.plugin)

begins : Reach sym (start loaded_plugin) begun
unfolding program
begins =
    more {y = left}
      (more {y = streaming}
        (more {y = known}
          (more {y = entered} (more {y = start loaded_plugin} done (enter refl)) (opener (str "S")))
          (open_one (str "S") 7 5 [] [] refl refl refl))
        (leave [] [] refl))
      close_all

ends : Reach sym (start loaded_plugin) unloaded
unfolding program
ends =
    more {y = waited}
      (more {y = closing} (more {y = begun} begins (close_next {h = 5} {hs = []} refl))
        (leave [] [] refl))
      (unload refl refl)

Reach-unloaded_example :
    (unloaded.calls ≡ []) × (unloaded.plugin.running ≡ 0) × (unloaded.plugin.closed ≡ true)
unfolding program
Reach-unloaded_example = Reach-unloaded sym open_library (str "x.so") loaded_plugin loads ends refl

Reach-closed_once_example :
    (count 5 unloaded.closed_log ≤ 1)
    × (count 5 unloaded.closed_log
          + (if unloaded.plugin.closed then 0 else count 5 (keys unloaded.plugin.active_streams))
        ≡ count 5 unloaded.opened_log)
Reach-closed_once_example =
    Reach-closed_once sym open_library (str "x.so") loaded_plugin 5 loads ends

begun-closing : begun.closing ≡ some (5 ∷ [])
unfolding program
begun-closing = refl

Reach-unloads_example :
    (y : System) × Reach sym begun y × (y.loaded ≡ false) × (y.plugin.handle ≡ 0)
Reach-unloads_example =
    Reach-unloads sym open_library (str "x.so") loaded_plugin (5 ∷ []) loads (ground arith) begins
      begun-closing

abbrev same : Plugin → Plugin
same q = q

abbrev invoke : ℕ → ℕ → Bytes → Bytes → Result Bytes
invoke fn free method d = ok (0 ∷ d)

abbrev stream_open : ℕ → Bytes → ℕ
stream_open fn method = 5

abbrev send : ℕ → ℕ → Bytes → ℕ
send fn h d = 0

abbrev recv : ℕ → ℕ → ℕ → Received
recv fn free h = record { bytes = 0 ∷ []; resp_len = 1; status = 0 }

abbrev shut : Plugin
shut = record loaded_plugin { closed = true }

calls_balanced_example :
    ((call_plugin sym invoke same (str "S") (str "/S/M") [] loaded_plugin).0.running ≡ 0)
    × (((open_stream sym stream_open same same (str "S") (str "/S/M") loaded_plugin).0.running ≡ 0)
        ⊎ ((open_stream sym stream_open same same (str "S") (str "/S/M") loaded_plugin).1
            ≡ crashed))
    × ((stream_send send 5 [] loaded_plugin).0.running ≡ 0)
    × ((stream_recv recv 5 loaded_plugin).0.running ≡ 0)
    × ((stream_close_send loaded_plugin).0.running ≡ 0)
    × ((stream_close_call 5 loaded_plugin).0.running ≡ 0)
calls_balanced_example =
    calls_balanced sym invoke stream_open send recv same same (str "S") (str "/S/M") [] 5
      loaded_plugin (λ q. refl) (λ q. refl)

loaded-IsReady : IsReady loaded_plugin
loaded-IsReady = record { without = ground arith; close_ptr = ground arith; emptied = ground arith }
