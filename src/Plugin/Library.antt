-- ===== src/Plugin/Library.antt =====
-- pkg/synurang/plugin.go: a loaded plugin. The platform's functions are arguments. A function that takes
-- the lock, releases it and takes it again has the work of other goroutines in between as an argument.
use synurang.Common.{
  ℕ, zero, suc, ◌+◌, ◌-◌, ◌^◌, Bool, true, false, Bytes, Map, List, [], ◌∷◌, ◌++◌, Option, none,
  some, insert, lookup, remove, nat_eq, bytes_eq, str, nat_beq, if◌then◌else◌, ◌||◌, length, ltb,
  map,
}
use synurang.Plugin.Errors.{
  Error, Result, ok, err, plugin_closed, data_too_large, no_stream_functions, incomplete_streaming,
  service_not_found, streaming_not_supported, open_failed, send_failed, not_loaded, missing_free,
}
use synurang.Plugin.Wire.{Received, invoke_result, stream_recv_result}

pub record Funcs : Type 0 where
  pub send : ℕ
  pub recv : ℕ
  pub close_send : ℕ
  pub close : ℕ

-- `streams` are the keys of `activeStreams`, all with the value true; `running` is the wait group.
pub record Plugin : Type 0 where
  pub handle : ℕ
  pub free_ptr : ℕ
  pub invokers : Map Bytes ℕ
  pub stream_openers : Map Bytes ℕ
  pub stream_funcs : Option Funcs
  pub active_streams : Map ℕ Bool
  pub running : ℕ
  pub closed : Bool

-- `err != nil || ptr == 0`.
abbrev pub found : Result ℕ → Option ℕ
found (ok zero) = none
found (ok (suc n)) = some (suc n)
found (err e) = none

-- A pointer whose error is ignored: 0 on an error.
abbrev pub pointer : Result ℕ → ℕ
pointer (ok n) = n
pointer (err e) = 0

abbrev pub max_int32 : ℕ
max_int32 = 2 ^ 31 - 1

-- `p.closed || p.handle == 0`.
abbrev pub is_gone : Plugin → Bool
is_gone p = p.closed || nat_beq p.handle 0

-- `wg.Done()`.
unfoldable pub release : Plugin → Plugin
release p = record p { running = p.running - 1 }

-- The check at the start of `invokeInternal` and of `OpenStream`.
unfoldable pub acquire : Plugin → Result Plugin
acquire p = if p.closed then err plugin_closed else ok (record p { running = p.running + 1 })

unfoldable pub acquire_for_stream_op : Plugin → Result (Plugin × Funcs)
acquire_for_stream_op p = if p.closed then err plugin_closed else elim p.stream_funcs [
  | none ↦ err no_stream_functions
  | some fs ↦ ok (record p { running = p.running + 1 }, fs)
]

-- What `OpenStream` ends in: the stream's handle; an error; an error with the stream closed again,
-- by the function and handle shown; or a nil pointer for the function to close it by.
pub data Opened : Type 0 where
  opened : ℕ → Opened
  refused : Error → Opened
  closed_again : ℕ → ℕ → Opened
  crashed : Opened

-- The second critical section, and on a closed plugin `wg.Add(1)` and the call by `streamFuncs.close`.
unfoldable pub track : ℕ → Plugin → Plugin × Opened
track h p =
    if p.closed
    then (
      record p { running = p.running + 1 },
      elim p.stream_funcs [ none ↦ crashed | some fs ↦ closed_again fs.close h ],
    )
    else (record p { active_streams = insert h true p.active_streams }, opened h)

-- The `wg.Done()` after that call; a nil dereference does not come to it.
unfoldable pub track_done : Opened → Plugin → Plugin
unfolding release
track_done (opened h) p = p
track_done (refused e) p = p
track_done (closed_again f h) p = release p
track_done crashed p = p

module _ (sym : ℕ → Bytes → Result ℕ) where
  -- The answer, and the libraries that were closed again.
  unfoldable pub load_plugin : (Bytes → Result ℕ) → Bytes → Result Plugin × List ℕ
  load_plugin open_library path = elim (open_library path) [
    | err e ↦ (err not_loaded, [])
    | ok h ↦ elim (found (sym h (str "Synurang_Free"))) [
      | none ↦ (err missing_free, h ∷ [])
      | some f ↦ (
        ok (record {
          handle = h;
          free_ptr = f;
          invokers = [];
          stream_openers = [];
          stream_funcs = none;
          active_streams = [];
          running = 0;
          closed = false;
        }),
        [],
      )
    ]
  ]

  -- `getInvoker` under the write lock.
  unfoldable pub load_invoker : Bytes → Plugin → Plugin × Result ℕ
  load_invoker service p =
      if is_gone p then (p, err plugin_closed) else elim (lookup service p.invokers) [
        | some ptr ↦ (p, ok ptr)
        | none ↦ elim (found (sym p.handle (str "Synurang_Invoke_" ++ service))) [
          | none ↦ (p, err (service_not_found service))
          | some ptr ↦ (record p { invokers = insert service ptr p.invokers }, ok ptr)
        ]
      ]

  unfoldable pub get_invoker : (Plugin → Plugin) → Bytes → Plugin → Plugin × Result ℕ
  unfolding load_invoker
  get_invoker between service p = elim (lookup service p.invokers) [
    | some ptr ↦ (p, ok ptr)
    | none ↦ load_invoker service (between p)
  ]

  unfoldable pub ensure_stream_funcs : Plugin → Result Plugin
  ensure_stream_funcs p = elim p.stream_funcs [
    | some fs ↦ ok p
    | none ↦
        let send = pointer (sym p.handle (str "Synurang_Stream_Send")) in
        let recv = pointer (sym p.handle (str "Synurang_Stream_Recv")) in
        let close_send = pointer (sym p.handle (str "Synurang_Stream_CloseSend")) in
        let close = pointer (sym p.handle (str "Synurang_Stream_Close")) in
        if nat_beq send 0 || nat_beq recv 0 || nat_beq close_send 0 || nat_beq close 0
        then err incomplete_streaming
        else ok (record p {
          stream_funcs =
              some (record { send = send; recv = recv; close_send = close_send; close = close });
        })
  ]

  abbrev opener : Bytes → Plugin → Plugin × Result ℕ
  opener service p =
      elim (found (sym p.handle (str "Synurang_Stream_" ++ (service ++ str "_Open")))) [
        | none ↦ (p, err (streaming_not_supported service))
        | some ptr ↦ (record p { stream_openers = insert service ptr p.stream_openers }, ok ptr)
      ]

  unfoldable pub load_stream_opener : Bytes → Plugin → Plugin × Result ℕ
  unfolding ensure_stream_funcs
  load_stream_opener service p =
      if is_gone p then (p, err plugin_closed) else elim (lookup service p.stream_openers) [
        | some ptr ↦ (p, ok ptr)
        | none ↦ elim (ensure_stream_funcs p) [ err e ↦ (p, err e) | ok p' ↦ opener service p' ]
      ]

  unfoldable pub get_stream_opener : (Plugin → Plugin) → Bytes → Plugin → Plugin × Result ℕ
  unfolding load_stream_opener
  get_stream_opener between service p = elim (lookup service p.stream_openers) [
    | some ptr ↦ (p, ok ptr)
    | none ↦ load_stream_opener service (between p)
  ]

  -- `invoke` is `platformInvoke`, on the function, `freePtr`, the method and the data.
  unfoldable pub invoke_internal :
      (ℕ → ℕ → Bytes → Bytes → Result Bytes)
      → (Plugin → Plugin)
      → Bytes
      → Bytes
      → Bytes
      → Plugin
      → Plugin × Result Bytes
  unfolding acquire get_invoker release
  invoke_internal invoke between service method d p = elim (acquire p) [
    | err e ↦ (p, err e)
    | ok p' ↦
        let (q, r) = get_invoker between service p' in
        (
          release q,
          elim r [
            | err e ↦ err e
            | ok ptr ↦
                if ltb max_int32 (length d)
                then err data_too_large
                else invoke ptr q.free_ptr method d
          ],
        )
  ]

  unfoldable pub call_plugin :
      (ℕ → ℕ → Bytes → Bytes → Result Bytes)
      → (Plugin → Plugin)
      → Bytes
      → Bytes
      → Bytes
      → Plugin
      → Plugin × Result Bytes
  unfolding invoke_internal
  call_plugin invoke between service method d p =
      let (q, r) = invoke_internal invoke between service method d p in (q, invoke_result method r)

  unfoldable pub open_stream :
      (ℕ → Bytes → ℕ)
      → (Plugin → Plugin)
      → (Plugin → Plugin)
      → Bytes
      → Bytes
      → Plugin
      → Plugin × Opened
  unfolding acquire get_stream_opener track track_done release
  open_stream stream_open between then_ service method p = elim (acquire p) [
    | err e ↦ (p, refused e)
    | ok p' ↦
        let (q, r) = get_stream_opener between service p' in
        elim r [
          | err e ↦ (release q, refused e)
          | ok ptr ↦
              let h = stream_open ptr method in
              let (z, o) = track h (then_ q) in
              if nat_beq h 0
              then (release q, refused (open_failed method))
              else (release (track_done o z), o)
        ]
  ]

-- `platformStreamSend` answers a code.
unfoldable pub stream_send : (ℕ → ℕ → Bytes → ℕ) → ℕ → Bytes → Plugin → Plugin × Result (Unit {0})
unfolding acquire_for_stream_op release
stream_send send h d p = elim (acquire_for_stream_op p) [
  | err e ↦ (p, err e)
  | ok (q, fs) ↦ (
    release q,
    if ltb max_int32 (length d)
        then err data_too_large
        else if nat_beq (send fs.send h d) 0
        then ok tt
        else err (send_failed (send fs.send h d)),
  )
]

unfoldable pub stream_recv : (ℕ → ℕ → ℕ → Received) → ℕ → Plugin → Plugin × Result Bytes
unfolding acquire_for_stream_op release
stream_recv recv h p = elim (acquire_for_stream_op p) [
  | err e ↦ (p, err e)
  | ok (q, fs) ↦ (release q, stream_recv_result (recv fs.recv p.free_ptr h))
]

-- The answer, and the function called on the handle.
unfoldable pub stream_close_send : Plugin → Plugin × Result ℕ
unfolding acquire_for_stream_op release
stream_close_send p = elim (acquire_for_stream_op p) [
  | err e ↦ (p, err e)
  | ok (q, fs) ↦ (release q, ok fs.close_send)
]

-- The critical section of `StreamClose`, with the function that it then calls on the handle, if any; the
-- wait group is held until that call is over.
unfoldable pub stream_close : ℕ → Plugin → Plugin × Option ℕ
stream_close h p = if is_gone p then (p, none) else elim (lookup h p.active_streams) [
  | none ↦ (p, none)
  | some b ↦
      let q = record p { active_streams = remove h p.active_streams } in
      elim p.stream_funcs [
        | none ↦ (q, none)
        | some fs ↦ (record q { running = q.running + 1 }, some fs.close)
      ]
]

-- All of `StreamClose`: the function called, if any, and then its `wg.Done()`.
unfoldable pub stream_close_call : ℕ → Plugin → Plugin × Option ℕ
unfolding stream_close release
stream_close_call h p =
    let (q, r) = stream_close h p in (elim r [ none ↦ q | some f ↦ release q ], r)

-- The first critical section of `Close`: the handles to close, by which function (0: none); nothing for
-- a plugin that is closed already.
unfoldable pub close_begin : Plugin → Plugin × Option (List ℕ × ℕ)
close_begin p = if p.closed then (p, none) else (
  record p { closed = true; active_streams = [] },
  some (map (λ e. e.0) p.active_streams, elim p.stream_funcs [ none ↦ 0 | some fs ↦ fs.close ]),
)

-- The last one, which unloads the library `handle`.
unfoldable pub close_end : Plugin → Plugin × Option ℕ
close_end p = if nat_beq p.handle 0 then (p, none) else (record p { handle = 0 }, some p.handle)
