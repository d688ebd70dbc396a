-- ===== src/Plugin/Conn/Tests.antt =====
-- A live stream with one message and an error, read by the client.
use synurang.Common.{◌≡◌, refl, true, false, Bytes, List, [], ◌∷◌, none, some, arith, str, lookup}
use synurang.Common.Counting.{count}
use synurang.Plugin.Errors.{Result, ok, err, eof, plugin_error, context_cancelled}
use synurang.Plugin.Library.{Plugin, Funcs}
use synurang.Plugin.Conn.{World}
use synurang.Plugin.Conn.Closing.{Call, sends, recvs, closes, calls, IsTracked, calls-IsTracked}
use synurang.Plugin.Conn.Delivery.{platform, recv_msgs, IsLive, recv_msgs-delivers}
use synurang.PluginServer.Streams.{Stream, Table, error_case}

abbrev funcs : Funcs
funcs = record { send = 1; recv = 2; close_send = 3; close = 4 }

abbrev loaded : Plugin
loaded = record {
  handle = 3;
  free_ptr = 7;
  invokers = [];
  stream_openers = (str "S", 9) ∷ [];
  stream_funcs = some funcs;
  active_streams = (5, true) ∷ [];
  running = 0;
  closed = false;
}

abbrev finished : Stream
finished = record {
  method = str "/S/M";
  send_ch = record { buf = []; cap = 16; closed = false };
  recv_ch = record { buf = str "hi" ∷ []; cap = 16; closed = true };
  err_ch = record { buf = str "no" ∷ []; cap = 1; closed = false };
  cancelled = false;
  close_send = false;
  close_recv = true;
}

abbrev world : World Table
world = record {
  plugin = loaded;
  handle = 5;
  closed = false;
  library = record { streams = (5, finished) ∷ []; counter = 5 };
  closes = [];
}

abbrev unmarshal : Bytes → Result Bytes
unmarshal d = ok d

world-IsLive : IsLive unmarshal error_case world finished
unfolding lookup
world-IsLive = record { loaded = refl; has_funcs = ground arith; live = refl; found = refl }

recv_msgs-delivers_example :
    recv_msgs unmarshal error_case 3 world
    ≡ ok (str "hi") ∷ err (plugin_error (str "no")) ∷ err eof ∷ []
recv_msgs-delivers_example =
    recv_msgs-delivers unmarshal error_case 1 (str "hi" ∷ []) (str "no" ∷ []) world finished
      world-IsLive refl refl refl (omega arith, tt) (omega arith, tt)

world-IsTracked : IsTracked 5 world
unfolding lookup count
world-IsTracked = record {
  named = refl;
  loaded = ground arith;
  has_funcs = ground arith;
  active = ground arith;
  once = refl;
}

abbrev history : List (Call Bytes)
history = sends none none (some (str "x")) ∷ recvs none (some context_cancelled) true ∷ closes ∷ []

calls-IsTracked_example :
    IsTracked 5 (calls (platform error_case) unmarshal unmarshal history world)
calls-IsTracked_example =
    calls-IsTracked (platform error_case) unmarshal unmarshal 5 history world world-IsTracked
