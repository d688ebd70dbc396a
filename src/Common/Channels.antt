-- ===== src/Common/Channels.antt =====
-- A buffered Go channel, and what each operation does to the goroutine that performs it.
use Prim.Native.Nat.{ℕ, ◌≤◌}
use mathlib.Core.Path.{◌≡◌}
use mathlib.Core.Bool.{Bool, true, false}
use mathlib.Core.List.{List, [], ◌∷◌, ◌++◌}
use native.Mathlib.Omega.{arith}
use synurang.Common.Tests.{ltb, if◌then◌else◌}
use synurang.Common.Lists.{length, length-append}

-- The oldest element is the head of `buf`.
pub record Chan {ℓ} (A : Type ℓ) : Type ℓ where
  pub buf : List A
  pub cap : ℕ
  pub closed : Bool

-- A send or a close on a closed channel panics; a full or an empty channel blocks.
pub data Sent {ℓ} (A : Type ℓ) : Type ℓ where
  accepted : Chan A → Sent A
  full : Sent A
  panics : Sent A

pub data Received {ℓ} (A : Type ℓ) : Type ℓ where
  got : A → Chan A → Received A
  drained : Received A
  empty : Received A

module _ {ℓ} {A : Type ℓ} where
  abbrev pub make_chan : ℕ → Chan A
  make_chan n = record { buf = []; cap = n; closed = false }

  abbrev pub chan_send : Chan A → A → Sent A
  chan_send c a =
      if c.closed
      then panics
      else if ltb (length c.buf) c.cap
      then accepted (record c { buf = c.buf ++ a ∷ [] })
      else full

  abbrev pub chan_recv : Chan A → Received A
  chan_recv c = elim c.buf [
    | [] ↦ if c.closed then drained else empty
    | a ∷ rest ↦ got a (record c { buf = rest })
  ]

  abbrev pub chan_shut : Chan A → Chan A
  chan_shut c = record c { closed = true }

  -- No more elements than the buffer holds.
  abbrev pub IsBounded : Chan A → Type 0
  IsBounded c = length c.buf ≤ c.cap

  chan_send-IsBounded :
      (c d : Chan A) (a : A) → chan_send c a ≡ accepted d → IsBounded c → IsBounded d
  chan_send-IsBounded c d a e h = ground (arith, length-append c.buf (a ∷ []))
