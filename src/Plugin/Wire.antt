-- ===== src/Plugin/Wire.antt =====
-- pkg/synurang/plugin.go: how the answers of a plugin are read, and pkg/synurang/plugin_unix.go: the
-- bytes that the C interface hands over.
use synurang.Common.{
  ℕ, ◌^◌, Bytes, [], ◌∷◌, Option, none, some, nat_beq, ltb, if◌then◌else◌, take, length, ◌&&◌,
}
use synurang.PluginServer.Streams.{Response}
use synurang.Plugin.Errors.{
  Error, Result, ok, err, eof, empty_response, empty_stream_response, plugin_error, stream_error,
  stream_error_status,
}

-- The first byte says what the rest is.
unfoldable pub read_frame : Error → Bytes → Result Bytes
read_frame when_empty [] = err when_empty
read_frame when_empty (tag ∷ payload) =
    if nat_beq tag 1 then err (plugin_error payload) else ok payload

-- `Plugin.Invoke`, from the raw result of the call on.
unfoldable pub invoke_result : Bytes → Result Bytes → Result Bytes
unfolding read_frame
invoke_result method (err e) = err e
invoke_result method (ok raw) = read_frame (empty_response method) raw

-- `unixStreamRecv`: the length is a C int. With a pointer, `GoBytes` copies that many bytes, and
-- panics on a negative length (`none`). No content stands for the nil pointer.
pub record Received : Type 0 where
  pub bytes : Bytes
  pub resp_len : ℕ
  pub status : ℕ

abbrev pub is_nil : Bytes → ℕ
is_nil [] = 1
is_nil (b ∷ bs) = 0

unfoldable pub unix_stream_recv : Response → Option Received
unix_stream_recv r =
    if nat_beq (is_nil r.content) 1
    then some (record { bytes = []; resp_len = r.resp_len; status = r.status })
    else if ltb r.resp_len (2 ^ 31)
    then some
        (record { bytes = take r.resp_len r.content; resp_len = r.resp_len; status = r.status })
    else none

-- `Plugin.StreamRecv`, from the platform's answer on.
unfoldable pub stream_recv_result : Received → Result Bytes
unfolding read_frame
stream_recv_result r =
    if nat_beq r.status 0
    then read_frame empty_stream_response r.bytes
    else if nat_beq r.status 1
    then err eof
    else if ltb 0 r.resp_len && ltb 0 (length r.bytes)
    then err (stream_error r.bytes)
    else err (stream_error_status r.status)

-- The host reads a response of the plugin; `none` is the panic above.
unfoldable pub host_read : Response → Option (Result Bytes)
unfolding unix_stream_recv stream_recv_result
host_read r = elim (unix_stream_recv r) [ none ↦ none | some x ↦ some (stream_recv_result x) ]
