-- ===== src/Plugin/Errors.antt =====
-- The errors of pkg/synurang/plugin.go and plugin_conn.go. An error of another library is its text.
use synurang.Common.{ℕ, Bytes}

pub data Error : Type 0 where
  plugin_closed data_too_large stream_closed eof : Error
  empty_response : Bytes → Error
  empty_stream_response no_stream_functions incomplete_streaming : Error
  plugin_error : Bytes → Error
  service_not_found streaming_not_supported open_failed : Bytes → Error
  send_failed : ℕ → Error
  stream_error : Bytes → Error
  stream_error_status : ℕ → Error
  not_loaded missing_free not_a_message : Error
  marshal_failed unmarshal_failed platform_failed : Bytes → Error
  context_cancelled deadline_exceeded : Error

pub data Result {ℓ} (A : Type ℓ) : Type ℓ where
  ok : A → Result A
  err : Error → Result A

infixl 5 ◌>>=◌
abbrev pub ◌>>=◌ {ℓ κ} : {A : Type ℓ} {B : Type κ} → Result A → (A → Result B) → Result B
ok a >>= f = f a
err e >>= f = err e
