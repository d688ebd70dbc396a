-- ===== src/Plugin/Platform/Agreement.antt =====
-- pkg/synurang/plugin_unix.go and plugin_windows.go: what the two platforms' calls have in common.
use synurang.Common.{
  ℕ, zero, suc, ◌+◌, ◌%◌, ◌^◌, ◌<◌, ◌≤◌, ◌≡◌, ◌↔◌, ◌⊎◌, refl, Bytes, [], ◌∷◌, ◌++◌, Option, none,
  ◌≢◌, inl, inr, Option-cases, is_zero, below, true, false, length, length-append, arith,
}
use synurang.Plugin.Platform.{
  Answer, go_bytes, make_bytes, set_at, copy_loop, c_string, has_nul, data_pointer, unix_invoke,
  windows_invoke, unix_recv, windows_recv, unix_sym, windows_sym, int_of, unix_stream_send,
  windows_stream_send,
}
use synurang.Plugin.Errors.{ok}

set_at-append :
    (pre post : Bytes) (x y : ℕ) → set_at (length pre) x (pre ++ (y ∷ post)) ≡ pre ++ (x ∷ post)
unfolding set_at
set_at-append [] post x y = refl
set_at-append (b ∷ pre) post x y = ground (arith, set_at-append pre post x y)

append_snoc : (pre post : Bytes) (x : ℕ) → (pre ++ (x ∷ [])) ++ post ≡ pre ++ (x ∷ post)
append_snoc [] post x = refl
append_snoc (b ∷ pre) post x = ground (arith, append_snoc pre post x)

-- The loop that copies byte by byte fills the rest of the slice with what `GoBytes` would copy.
copy_loop-rest :
    (memory : ℕ → ℕ) (n : ℕ) (pre : Bytes)
    → copy_loop memory (length pre) n (pre ++ make_bytes n) ≡ pre ++ go_bytes memory (length pre) n
unfolding copy_loop make_bytes go_bytes
copy_loop-rest memory zero pre = refl
copy_loop-rest memory (suc n) pre =
    let x = memory (length pre) in
    ground (
      arith,
      set_at-append pre (make_bytes n) x 0,
      append_snoc pre (make_bytes n) x,
      append_snoc pre (go_bytes memory (length pre + 1) n) x,
      length-append pre (x ∷ []),
      copy_loop-rest memory n (pre ++ (x ∷ [])),
    )

copy_loop-go_bytes :
    (memory : ℕ → ℕ) (n : ℕ) → copy_loop memory 0 n (make_bytes n) ≡ go_bytes memory 0 n
copy_loop-go_bytes memory n = copy_loop-rest memory n []

-- For every C function, method and data the two platforms give the same answer: the same bytes, the same
-- error for a nil response, and a panic for a negative length. They agree on whether the response is given
-- back to the plugin exactly when it is nil or its length is not negative, and Unix gives back every
-- response that is not nil.
pub invoke_agrees :
    (invoke : Bytes → Option Bytes → ℕ → Answer) (method d : Bytes)
    → ((unix_invoke invoke method d).value ≡ (windows_invoke invoke method d).value)
      × (((unix_invoke invoke method d).freed ≡ (windows_invoke invoke method d).freed) ↔ (
          ((invoke (c_string method) (data_pointer d) (length d % 2 ^ 32)).memory ≡ none)
          ⊎ ((invoke (c_string method) (data_pointer d) (length d % 2 ^ 32)).resp_len < 2 ^ 31)))
      × (((unix_invoke invoke method d).freed ≡ true)
          ↔ ((invoke (c_string method) (data_pointer d) (length d % 2 ^ 32)).memory ≢ none))
unfolding unix_invoke windows_invoke
invoke_agrees invoke method d =
    let a = invoke (c_string method) (data_pointer d) (length d % 2 ^ 32) in
    elim (Option-cases a.memory) [
      | inl e ↦ ground (arith, e)
      | inr (memory, e) ↦ ground (arith, e, copy_loop-go_bytes memory a.resp_len)
    ]

-- The two platforms hand the same data, length and status of an answer to `StreamRecv` exactly when its
-- response is nil or its length is not negative; else Unix panics, and Windows does not. Unix gives back
-- to the plugin each response that is not nil and does not panic; of these, Windows gives back exactly the
-- ones that are not empty.
pub recv_agrees :
    (recv : ℕ → Answer) (handle : ℕ)
    → (((unix_recv recv handle).value ≡ (windows_recv recv handle).value)
        ↔ (((recv handle).memory ≡ none) ⊎ ((recv handle).resp_len < 2 ^ 31)))
      × (((unix_recv recv handle).value ≡ none)
          ↔ (((recv handle).memory ≢ none) × (2 ^ 31 ≤ (recv handle).resp_len)))
      × ((windows_recv recv handle).value ≢ none)
      × (((unix_recv recv handle).freed ≡ true)
          ↔ (((recv handle).memory ≢ none) × ((recv handle).resp_len < 2 ^ 31)))
      × (((windows_recv recv handle).freed ≡ true)
          ↔ (((unix_recv recv handle).freed ≡ true) × (0 < (recv handle).resp_len)))
unfolding unix_recv windows_recv go_bytes
recv_agrees recv handle =
    let a = recv handle in
    elim (Option-cases a.memory) [
      | inl e ↦ ground (arith, e)
      | inr (memory, e) ↦ ground (arith, e, copy_loop-go_bytes memory a.resp_len)
    ]

c_string-no_nul : (s : Bytes) → has_nul s ≡ false → c_string s ≡ s
unfolding c_string has_nul
c_string-no_nul [] h = refl
c_string-no_nul (b ∷ bs) h = ground (arith, c_string-no_nul bs)

c_string-c_string : (s : Bytes) → c_string (c_string s) ≡ c_string s
unfolding c_string
c_string-c_string [] = refl
c_string-c_string (b ∷ bs) = ground (arith, c_string-c_string bs)

-- Where the two systems' loaders have the same symbols, Windows finds exactly the symbols that Unix finds
-- by a name without a zero byte. Unix looks up the bytes before the first zero.
pub sym_agrees :
    (lookup : ℕ → Bytes → ℕ) (handle : ℕ) (name : Bytes) (ptr : ℕ)
    → ((windows_sym lookup handle name ≡ ok ptr)
        ↔ ((unix_sym lookup handle name ≡ ok ptr) × (has_nul name ≡ false)))
      × (unix_sym lookup handle name ≡ unix_sym lookup handle (c_string name))
unfolding windows_sym unix_sym
sym_agrees lookup handle name ptr = ground (arith, c_string-no_nul name, c_string-c_string name)

-- A send reports success on the one platform when it does on the other, if the upper half of the register
-- is clear; then the same code is reported unless it is negative.
pub stream_send_agrees :
    (send : ℕ → Option Bytes → ℕ → ℕ) (handle : ℕ) (d : Bytes)
    → ((s : Option Bytes) (n : ℕ) → send handle s n < 2 ^ 32)
    → (is_zero (unix_stream_send send handle d) ≡ is_zero (windows_stream_send send handle d))
      × ((below (unix_stream_send send handle d) 0 ≡ false)
          ↔ (unix_stream_send send handle d ≡ windows_stream_send send handle d))
unfolding unix_stream_send windows_stream_send int_of
stream_send_agrees send handle d h = ground (arith, h (data_pointer d) (length d % 2 ^ 32))
