-- ===== src/Plugin/Platform.antt =====
-- pkg/synurang/plugin_unix.go and plugin_windows.go: the calls of a plugin's C functions. The system's
-- loader, its error texts and the functions of the plugin are parameters.
pub mod Agreement
mod Tests
use synurang.Common.{
  ℕ, zero, suc, ◌+◌, ◌-◌, ◌%◌, ◌^◌, Bytes, [], ◌∷◌, Option, none, some, Bool, true, false, nat_beq,
  ltb, if◌then◌else◌, length, ◌&&◌, ◌||◌, ℤ, pos, negsuc, str,
}
use synurang.Plugin.Errors.{Result, ok, err, platform_failed}
use synurang.Plugin.Wire.{Received}

-- The answer of a C function: the memory behind the pointer it returns (`none` is nil) and the 32 bits
-- of the two C ints it sets.
pub record Answer : Type 0 where
  pub memory : Option (ℕ → ℕ)
  pub resp_len : ℕ
  pub status : ℕ

-- What a call leaves: its value, where `none` is a panic, and whether the response went to the free
-- function of the plugin.
pub record Done (A : Type 0) : Type 0 where
  pub value : Option A
  pub freed : Bool

-- A C int as Go's int.
unfoldable pub int_of : ℕ → ℤ
int_of n = if ltb n (2 ^ 31) then pos n else negsuc (2 ^ 32 - n - 1)

-- What C reads of a Go string: the bytes before the first zero.
unfoldable pub c_string : Bytes → Bytes
c_string [] = []
c_string (b ∷ bs) = let rest = c_string bs in if nat_beq b 0 then [] else b ∷ rest

-- The test of `syscall.BytePtrFromString` and `UTF16PtrFromString`.
unfoldable pub has_nul : Bytes → Bool
has_nul [] = false
has_nul (b ∷ bs) = nat_beq b 0 || has_nul bs

-- `C.GoBytes`, of a length that is not negative.
unfoldable pub go_bytes : (ℕ → ℕ) → (at count : ℕ) → Bytes
go_bytes memory at zero = []
go_bytes memory at (suc n) = memory at ∷ go_bytes memory (at + 1) n

-- `make([]byte, n)`
unfoldable pub make_bytes : ℕ → Bytes
make_bytes zero = []
make_bytes (suc n) = 0 ∷ make_bytes n

unfoldable pub set_at : ℕ → ℕ → Bytes → Bytes
set_at i x [] = []
set_at zero x (b ∷ bs) = x ∷ bs
set_at (suc i) x (b ∷ bs) = b ∷ set_at i x bs

-- The loop of `windowsInvoke` and `windowsStreamRecv`: `rounds` more of them from `i` on.
unfoldable pub copy_loop : (ℕ → ℕ) → (i rounds : ℕ) → Bytes → Bytes
unfolding set_at
copy_loop memory i zero result = result
copy_loop memory i (suc n) result = copy_loop memory (i + 1) n (set_at i (memory i) result)

-- The pointer to the data of a call: nil for empty data.
unfoldable pub data_pointer : Bytes → Option Bytes
data_pointer [] = none
data_pointer (b ∷ bs) = some (b ∷ bs)

unfoldable pub unix_open : (dlopen : Bytes → ℕ) (dlerror : Bytes) → Bytes → Result ℕ
unfolding c_string
unix_open dlopen dlerror path =
    let handle = dlopen (c_string path) in
    if nat_beq handle 0 then err (platform_failed dlerror) else ok handle

unfoldable pub unix_sym : (dlsym : ℕ → Bytes → ℕ) → ℕ → Bytes → Result ℕ
unfolding c_string
unix_sym dlsym handle name =
    let ptr = dlsym handle (c_string name) in
    if nat_beq ptr 0 then err (platform_failed (str "symbol not found")) else ok ptr

unfoldable pub windows_open : (load_library : Bytes → ℕ) (last_error : Bytes) → Bytes → Result ℕ
unfolding has_nul
windows_open load_library last_error path =
    if has_nul path
    then err (platform_failed (str "invalid argument"))
    else (let handle = load_library path in
        if nat_beq handle 0 then err (platform_failed last_error) else ok handle)

unfoldable pub windows_sym : (get_proc_address : ℕ → Bytes → ℕ) → ℕ → Bytes → Result ℕ
unfolding has_nul
windows_sym get_proc_address handle name =
    if has_nul name
    then err (platform_failed (str "invalid argument"))
    else (let ptr = get_proc_address handle name in
        if nat_beq ptr 0 then err (platform_failed (str "GetProcAddress failed")) else ok ptr)

-- The C function of a call reads the method, the data, and its length as a C int.
module _ (invoke : Bytes → Option Bytes → ℕ → Answer) where
  unfoldable pub unix_invoke : (method d : Bytes) → Done (Result Bytes)
  unfolding c_string data_pointer go_bytes
  unix_invoke method d =
      let a = invoke (c_string method) (data_pointer d) (length d % 2 ^ 32) in
      elim a.memory [
        | none ↦ record {
          value = some (err (platform_failed (str "plugin returned nil")));
          freed = false;
        }
        | some memory ↦ record {
          value =
              if ltb a.resp_len (2 ^ 31) then some (ok (go_bytes memory 0 a.resp_len)) else none;
          freed = true;
        }
      ]

  unfoldable pub windows_invoke : (method d : Bytes) → Done (Result Bytes)
  unfolding c_string data_pointer copy_loop make_bytes
  windows_invoke method d =
      let a = invoke (c_string method) (data_pointer d) (length d % 2 ^ 32) in
      elim a.memory [
        | none ↦ record {
          value = some (err (platform_failed (str "plugin returned nil")));
          freed = false;
        }
        | some memory ↦
            if ltb a.resp_len (2 ^ 31)
            then record {
              value = some (ok (copy_loop memory 0 a.resp_len (make_bytes a.resp_len)));
              freed = true;
            }
            else record { value = none; freed = false }
      ]

-- The C function of a send answers in a register of 64 bits; a C int is its lower half.
module _ (send : ℕ → Option Bytes → ℕ → ℕ) where
  unfoldable pub unix_stream_send : ℕ → Bytes → ℤ
  unfolding int_of data_pointer
  unix_stream_send handle d = int_of (send handle (data_pointer d) (length d % 2 ^ 32) % 2 ^ 32)

  unfoldable pub windows_stream_send : ℕ → Bytes → ℤ
  unfolding data_pointer
  windows_stream_send handle d =
      let ret = send handle (data_pointer d) (length d % 2 ^ 32) in
      if ltb ret (2 ^ 63) then pos ret else negsuc (2 ^ 64 - ret - 1)

module _ (recv : ℕ → Answer) where
  unfoldable pub unix_recv : ℕ → Done Received
  unfolding go_bytes
  unix_recv handle =
      let a = recv handle in
      elim a.memory [
        | none ↦ record {
          value = some (record { bytes = []; resp_len = a.resp_len; status = a.status });
          freed = false;
        }
        | some memory ↦
            if ltb a.resp_len (2 ^ 31)
            then record {
              value = some (record {
                bytes = go_bytes memory 0 a.resp_len;
                resp_len = a.resp_len;
                status = a.status;
              });
              freed = true;
            }
            else record { value = none; freed = false }
      ]

  unfoldable pub windows_recv : ℕ → Done Received
  unfolding copy_loop make_bytes
  windows_recv handle =
      let a = recv handle in
      let nothing : Done Received = record {
        value = some (record { bytes = []; resp_len = a.resp_len; status = a.status });
        freed = false;
      } in
      elim a.memory [
        | none ↦ nothing
        | some memory ↦
            if ltb 0 a.resp_len && ltb a.resp_len (2 ^ 31)
            then record {
              value = some (record {
                bytes = copy_loop memory 0 a.resp_len (make_bytes a.resp_len);
                resp_len = a.resp_len;
                status = a.status;
              });
              freed = true;
            }
            else nothing
      ]
