-- ===== src/Plugin/Unloading.antt =====
-- pkg/synurang/plugin.go: the goroutines that use one plugin while another closes it, interleaved at the
-- lock and the wait group.
use synurang.Common.{
  ℕ, zero, suc, ◌+◌, ◌≤◌, ◌≡◌, ◌≢◌, Bool, true, false, Bytes, List, [], ◌∷◌, ◌++◌, Option, none,
  some, length, lookup, bytes_eq, if◌then◌else◌, nat_eq,
}
use synurang.Plugin.Errors.{Result, ok}
use synurang.Common.Counting.{count, keys}
use synurang.Plugin.Library.{
  Plugin, Funcs, Opened, opened, refused, closed_again, crashed, acquire, acquire_for_stream_op,
  release, load_invoker, load_stream_opener, track, stream_close, close_begin, close_end,
}

-- `calls` are the calls that hold the wait group, with true for one that is inside the library; a call
-- may go in and come out at any time. A call that opens a stream holds the wait group, and a second time
-- while it closes the stream again. `closing` are the handles that `Close` still has to close.
-- `opened` and `closed` record the handles of the streams that were opened, and those that were handed
-- to `platformStreamClose`.
pub record System : Type 0 where
  pub plugin : Plugin
  pub calls : List Bool
  pub closing : Option (List ℕ)
  pub loaded : Bool
  pub opened_log : List ℕ
  pub closed_log : List ℕ

abbrev pub after_open : System → ℕ → Plugin × Opened → System
after_open x h (p, opened n) = record x { plugin = p; opened_log = n ∷ x.opened_log }
after_open x h (p, refused e) = x
after_open x h (p, closed_again f n) = record x {
  plugin = p;
  calls = false ∷ x.calls;
  opened_log = n ∷ x.opened_log;
  closed_log = n ∷ x.closed_log;
}
after_open x h (p, crashed) = record x {
  plugin = p;
  calls = false ∷ x.calls;
  opened_log = h ∷ x.opened_log;
}

abbrev pub after_close : System → ℕ → Plugin × Option ℕ → System
after_close x h (p, none) = record x { plugin = p }
after_close x h (p, some f) = record x {
  plugin = p;
  calls = false ∷ x.calls;
  closed_log = h ∷ x.closed_log;
}

abbrev pub after_begin : System → Plugin × Option (List ℕ × ℕ) → System
after_begin x (p, none) = record x { plugin = p }
after_begin x (p, some (hs, zero)) = record x { plugin = p; closing = some [] }
after_begin x (p, some (hs, suc f)) = record x {
  plugin = p;
  closing = some hs;
  closed_log = hs ++ x.closed_log;
}

abbrev pub after_end : System → Plugin × Option ℕ → System
after_end x (p, none) = record x { plugin = p; closing = none }
after_end x (p, some h) = record x { plugin = p; closing = none; loaded = false }

module _ (sym : ℕ → Bytes → Result ℕ) where
  pub data Step (x : System) : System → Type 0 where
    enter :
        {p : Plugin}
        → acquire x.plugin ≡ ok p
        → Step x (record x { plugin = p; calls = false ∷ x.calls })
    enter_stream :
        {p : Plugin} {fs : Funcs}
        → acquire_for_stream_op x.plugin ≡ ok (p, fs)
        → Step x (record x { plugin = p; calls = false ∷ x.calls })
    move :
        (before rest : List Bool) (inside : Bool)
        → x.calls ≡ before ++ inside ∷ rest
        → Step x (record x { calls = before ++ (if inside then false else true) ∷ rest })
    leave :
        (before rest : List Bool)
        → x.calls ≡ before ++ false ∷ rest
        → Step x (record x { plugin = release x.plugin; calls = before ++ rest })
    invoker :
        (service : Bytes) → Step x (record x { plugin = (load_invoker sym service x.plugin).0 })
    opener :
        (service : Bytes)
        → Step x (record x { plugin = (load_stream_opener sym service x.plugin).0 })
    open_one :
        (service : Bytes) (ptr h : ℕ) (before rest : List Bool)
        → x.calls ≡ before ++ false ∷ rest
        → lookup service x.plugin.stream_openers ≡ some ptr
        → count h x.opened_log ≡ 0
        → Step x (after_open x h (track h x.plugin))
    close_one : (h : ℕ) → Step x (after_close x h (stream_close h x.plugin))
    close_all : Step x (after_begin x (close_begin x.plugin))
    close_next :
        {h : ℕ} {hs : List ℕ}
        → x.closing ≡ some (h ∷ hs)
        → Step x (record x {
          plugin = record x.plugin { running = x.plugin.running + 1 };
          calls = false ∷ x.calls;
          closing = some hs;
        })
    unload : x.closing ≡ some [] → x.plugin.running ≡ 0 → Step x (after_end x (close_end x.plugin))

  pub data Reach (x : System) : System → Type 0 where
    done : Reach x x
    more : {y z : System} → Reach x y → Step y z → Reach x z

abbrev close_of : Option Funcs → ℕ
close_of none = 1
close_of (some fs) = fs.close

-- The stream functions are there before the first stream is opened.
pub record IsReady (p : Plugin) : Type 0 where
  pub without : p.stream_funcs ≡ none → (p.stream_openers ≡ []) × (p.active_streams ≡ [])
  pub close_ptr : close_of p.stream_funcs ≢ 0
  pub emptied : p.closed ≡ true → p.active_streams ≡ []

pub record Inv (x : System) : Type 0 where
  pub counted : x.plugin.running ≡ length x.calls
  pub gone : x.loaded ≡ false → (x.plugin.closed ≡ true) × (x.calls ≡ []) × (x.closing ≡ none)
  pub begun : (hs : List ℕ) → x.closing ≡ some hs → x.plugin.closed ≡ true
  pub ready : IsReady x.plugin
  pub once : (h : ℕ) → count h x.opened_log ≤ 1
  pub tally :
      (h : ℕ) → count h x.opened_log ≡ count h x.closed_log + count h (keys x.plugin.active_streams)
