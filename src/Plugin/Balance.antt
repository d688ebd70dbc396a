-- ===== src/Plugin/Balance.antt =====
-- pkg/synurang/plugin.go: each step of a goroutine keeps the wait group and the streams in balance.
use synurang.Common.{
  ℕ, ◌≡◌, refl, Bool, true, false, Bytes, List, [], ◌∷◌, ◌++◌, some, arith, length, length-append,
  lookup, bytes_eq, if◌then◌else◌, nat_eq,
}
use synurang.Plugin.Errors.{Result}
use synurang.Common.Counting.{count, keys, count-append, count-insert, count-remove, count-lookup}
use synurang.Plugin.Library.{
  Plugin, acquire, acquire_for_stream_op, release, load_invoker, load_stream_opener,
  ensure_stream_funcs, track, stream_close, close_begin, close_end,
}
use synurang.Plugin.Unloading.{
  System, Step, enter, enter_stream, move, leave, invoker, opener, open_one, close_one, close_all,
  close_next, unload, after_open, after_close, after_begin, after_end, IsReady, Inv,
}

open-Inv :
    (x : System) (service : Bytes) (ptr h : ℕ) (before rest : List Bool)
    → x.calls ≡ before ++ false ∷ rest
    → lookup service x.plugin.stream_openers ≡ some ptr
    → count h x.opened_log ≡ 0
    → Inv x
    → Inv (after_open x h (track h x.plugin))
unfolding count track lookup
open-Inv x service ptr h before rest held known fresh v = record {
  counted = ground (arith, v.counted);
  gone = λ g. absurd (ground (arith, v.gone, length-append before (false ∷ rest)));
  begun = λ hs e. ground (arith, v.begun hs);
  ready = record {
    without = ground (arith, v.ready.without);
    close_ptr = ground (arith, v.ready.close_ptr);
    emptied = ground (arith, v.ready.emptied);
  };
  once = λ k. ground (arith, v.once k, v.tally k, v.ready.without);
  tally = λ k. ground (
    arith,
    v.tally k,
    v.tally h,
    v.ready.without,
    count-insert k h true x.plugin.active_streams,
    v.ready.emptied,
  );
}

close-Inv : (x : System) (h : ℕ) → Inv x → Inv (after_close x h (stream_close h x.plugin))
unfolding count stream_close lookup
close-Inv x h v = record {
  counted = ground (arith, v.counted);
  gone = ground (arith, v.gone);
  begun = λ hs e. ground (arith, v.begun hs);
  ready = record {
    without = ground (arith, v.ready.without);
    close_ptr = ground (arith, v.ready.close_ptr);
    emptied = ground (arith, v.ready.emptied);
  };
  once = λ k. ground (arith, v.once k);
  tally = λ k. ground (
    arith,
    v.tally k,
    v.tally h,
    v.once h,
    v.ready.without,
    count-remove k h x.plugin.active_streams,
    count-lookup h true x.plugin.active_streams,
    count-lookup h false x.plugin.active_streams,
  );
}

begin-Inv : (x : System) → Inv x → Inv (after_begin x (close_begin x.plugin))
unfolding count close_begin
begin-Inv x v = record {
  counted = ground (arith, v.counted);
  gone = ground (arith, v.gone);
  begun = λ hs e. ground (arith, v.begun hs);
  ready = record {
    without = ground (arith, v.ready.without);
    close_ptr = ground (arith, v.ready.close_ptr);
    emptied = ground (arith, v.ready.emptied);
  };
  once = λ k. ground (arith, v.once k);
  tally = λ k. ground (
    arith,
    v.tally k,
    v.ready.without,
    v.ready.emptied,
    v.ready.close_ptr,
    count-append k (keys x.plugin.active_streams) x.closed_log,
  );
}

-- A step that leaves the streams and the flags alone.
calls-Inv :
    (x : System) (p : Plugin) (calls : List Bool)
    → Inv x
    → p.running ≡ length calls
    → (x.loaded ≡ false → calls ≡ [])
    → p.closed ≡ x.plugin.closed
    → p.active_streams ≡ x.plugin.active_streams
    → IsReady p
    → Inv (record x { plugin = p; calls = calls })
calls-Inv x p calls v counted unused flag streams ready = record {
  counted = counted;
  gone = ground (arith, v.gone, unused);
  begun = λ hs e. ground (arith, v.begun hs);
  ready = ready;
  once = v.once;
  tally = λ k. rw (streams, v.tally k);
}

unload-Inv :
    (x : System)
    → x.closing ≡ some []
    → x.plugin.running ≡ 0
    → Inv x
    → Inv (after_end x (close_end x.plugin))
unfolding close_end
unload-Inv x e none_run v = record {
  counted = ground (arith, v.counted);
  gone = ground (arith, v.gone, v.begun [], v.counted);
  begun = λ hs e'. ground arith;
  ready = record {
    without = ground (arith, v.ready.without);
    close_ptr = ground (arith, v.ready.close_ptr);
    emptied = ground (arith, v.ready.emptied);
  };
  once = λ k. ground (arith, v.once k);
  tally = λ k. ground (arith, v.tally k);
}

module _ (sym : ℕ → Bytes → Result ℕ) where
  invoker-Inv :
      (x : System) (service : Bytes)
      → Inv x
      → Inv (record x { plugin = (load_invoker sym service x.plugin).0 })
  unfolding load_invoker
  invoker-Inv x service v =
      calls-Inv x (load_invoker sym service x.plugin).0 x.calls v (ground (arith, v.counted))
        (λ e. ground (arith, v.gone)) (ground arith) (ground arith)
        (record {
          without = ground (arith, v.ready.without);
          close_ptr = ground (arith, v.ready.close_ptr);
          emptied = ground (arith, v.ready.emptied);
        })

  opener-Inv :
      (x : System) (service : Bytes)
      → Inv x
      → Inv (record x { plugin = (load_stream_opener sym service x.plugin).0 })
  unfolding load_stream_opener ensure_stream_funcs
  opener-Inv x service v =
      calls-Inv x (load_stream_opener sym service x.plugin).0 x.calls v (ground (arith, v.counted))
        (λ e. ground (arith, v.gone)) (ground arith) (ground arith)
        (record {
          without = ground (arith, v.ready.without);
          close_ptr = ground (arith, v.ready.close_ptr);
          emptied = ground (arith, v.ready.emptied);
        })

  -- Every step of a goroutine that uses the plugin or closes it keeps the wait group equal to the number
  -- of calls, and every handle that was opened either active or handed to one closing.
  pub Step-Inv : {x y : System} → Step sym x y → Inv x → Inv y
  unfolding acquire acquire_for_stream_op release
  Step-Inv {x} (enter {p} e) v =
      calls-Inv x p (false ∷ x.calls) v (ground (arith, v.counted)) (λ g. ground (arith, v.gone))
        (ground arith) (ground arith)
        (record {
          without = ground (arith, v.ready.without);
          close_ptr = ground (arith, v.ready.close_ptr);
          emptied = ground (arith, v.ready.emptied);
        })
  Step-Inv {x} (enter_stream {p} e) v =
      calls-Inv x p (false ∷ x.calls) v (ground (arith, v.counted)) (λ g. ground (arith, v.gone))
        (ground arith) (ground arith)
        (record {
          without = ground (arith, v.ready.without);
          close_ptr = ground (arith, v.ready.close_ptr);
          emptied = ground (arith, v.ready.emptied);
        })
  Step-Inv {x} (move before rest inside e) v =
      let moved = if inside then false else true in
      calls-Inv x x.plugin (before ++ moved ∷ rest) v
        (ground (
          arith,
          v.counted,
          length-append before (inside ∷ rest),
          length-append before (moved ∷ rest),
        ))
        (λ g. absurd (ground (arith, v.gone, length-append before (inside ∷ rest)))) refl refl
        v.ready
  Step-Inv {x} (leave before rest e) v =
      calls-Inv x (release x.plugin) (before ++ rest) v
        (ground (arith, v.counted, length-append before (false ∷ rest), length-append before rest))
        (λ g. absurd (ground (arith, v.gone, length-append before (false ∷ rest)))) refl refl
        (record {
          without = v.ready.without;
          close_ptr = v.ready.close_ptr;
          emptied = v.ready.emptied;
        })
  Step-Inv {x} (invoker service) v = invoker-Inv x service v
  Step-Inv {x} (opener service) v = opener-Inv x service v
  Step-Inv {x} (open_one service ptr h before rest held known fresh) v =
      open-Inv x service ptr h before rest held known fresh v
  Step-Inv {x} (close_one h) v = close-Inv x h v
  Step-Inv {x} close_all v = begin-Inv x v
  Step-Inv {x} (close_next {h} {hs} e) v = record {
    counted = ground (arith, v.counted);
    gone = ground (arith, v.gone);
    begun = λ ks e'. ground (arith, v.begun (h ∷ hs));
    ready = record {
      without = v.ready.without;
      close_ptr = v.ready.close_ptr;
      emptied = v.ready.emptied;
    };
    once = v.once;
    tally = v.tally;
  }
  Step-Inv {x} (unload e none_run) v = unload-Inv x e none_run v
