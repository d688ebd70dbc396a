-- ===== src/Session/Store/Laws.antt =====
-- The table of sessions of pkg/service/stream_handler.go: which sessions an ID finds.
use synurang.Common.{
  ℕ, ◌+◌, ◌≤◌, ◌<◌, ◌^◌, ◌≡◌, ◌≢◌, ◌⊎◌, inl, inr, ap, Option-cases, Bytes, Option, none, some,
  insert, lookup, remove, nat_eq, lookup-insert, lookup-remove, arith, nat_beq, if◌then◌else◌,
}
use synurang.Session.{Session, StreamType, new_session}
use synurang.Session.Ending.{IsSound, ended, close_session_lem}
use synurang.Session.Store.{
  Store, add_id, new_stream_session, get_stream_session, close_stream_session,
}

-- Every registered ID is that of the session at its address, the session is sound, and no ID is
-- above the counter, which has not come near the end of its 64 bits.
pub record IsValid (w : Store) : Type 0 where
  pub counted : w.next_id < 2 ^ 63
  pub named : (n p : ℕ) → lookup n w.registry ≡ some p → (p ≡ n) × (n ≤ w.next_id)
  pub stored :
      (n : ℕ) (s : Session) → lookup n w.heap ≡ some s → (s.id ≡ n) × (n ≤ w.next_id) × IsSound s
  pub present : (n : ℕ) → lookup n w.registry ≢ none → lookup n w.heap ≢ none

-- What an ID finds in a consistent table.
abbrev Missing : ℕ → Store → Type 0
Missing n w = (lookup n w.registry ≡ none) × (get_stream_session n w ≡ none)

abbrev Found : ℕ → Store → Type 0
Found n w =
    (s : Session) × (lookup n w.registry ≡ some n)
    × (lookup n w.heap ≡ some s)
    × (get_stream_session n w ≡ some s)
    × IsSound s
    × (n ≤ w.next_id)

get-cases : (n : ℕ) (w : Store) → IsValid w → Missing n w ⊎ Found n w
unfolding get_stream_session
get-cases n w v = elim (Option-cases (lookup n w.registry)) [
  | inl e ↦ inl (e, ground arith)
  | inr (p, e) ↦ elim (Option-cases (lookup n w.heap)) [
    | inl e' ↦ absurd (v.present n (λ q. ground arith) e')
    | inr (s, e') ↦
        let (here, below) = v.named n p e in
        let at : lookup n w.registry ≡ some n = rw e (ap some here) in
        inr (s, at, e', ground arith, (v.stored n s e').2, below)
  ]
]

module _ (method : Bytes) (kind : StreamType) (w : Store) (v : IsValid w) where
  abbrev fresh : Session
  fresh = new_session (w.next_id + 1) method kind w.callback w.callback_ffi

  abbrev grown : Store
  grown = record w {
    heap = insert (w.next_id + 1) fresh w.heap;
    registry = insert (w.next_id + 1) (w.next_id + 1) w.registry;
    next_id = w.next_id + 1;
  }

  new_stream_session_lem : new_stream_session method kind w ≡ (grown, w.next_id + 1)
  unfolding new_stream_session
  new_stream_session_lem =
      let e : add_id w.next_id ≡ w.next_id + 1 = omega (arith, v.counted) in rw e

  grown-IsValid : w.next_id + 1 < 2 ^ 63 → IsValid grown
  unfolding new_session
  grown-IsValid small = record {
    counted = small;
    named = λ n p e.
        ground (arith, lookup-insert (w.next_id + 1) n (w.next_id + 1) w.registry, v.named n p);
    stored = λ n s e. ground (arith, lookup-insert (w.next_id + 1) n fresh w.heap, v.stored n s);
    present = λ n e. ground (
      arith,
      lookup-insert (w.next_id + 1) n (w.next_id + 1) w.registry,
      lookup-insert (w.next_id + 1) n fresh w.heap,
      v.present n,
    );
  }

  unused : get_stream_session (w.next_id + 1) w ≡ none
  unused = ground (arith, get-cases (w.next_id + 1) w v)

  get-grown :
      (n : ℕ)
      → get_stream_session n grown
        ≡ (if nat_beq (w.next_id + 1) n then some fresh else get_stream_session n w)
  unfolding get_stream_session
  get-grown n = elim (get-cases n w v) [
    | inl (e, e') ↦ ground (
      arith,
      lookup-insert (w.next_id + 1) n (w.next_id + 1) w.registry,
      lookup-insert (w.next_id + 1) (w.next_id + 1) fresh w.heap,
    )
    | inr (s, e, e', e'', sound, below) ↦ ground (
      arith,
      lookup-insert (w.next_id + 1) n (w.next_id + 1) w.registry,
      lookup-insert (w.next_id + 1) (w.next_id + 1) fresh w.heap,
      lookup-insert (w.next_id + 1) n fresh w.heap,
    )
  ]

  -- `NewStreamSession` gives an ID that named no session, finds the new session under it, open and
  -- with the callbacks of the moment, while every other ID finds what it found, and keeps the table
  -- consistent, as long as the counter has not reached the end of its range.
  pub new_stream_session-fresh :
      w.next_id + 1 < 2 ^ 63
      → let (w', n) = new_stream_session method kind w in
        IsValid w'
        × (get_stream_session n w ≡ none)
        × ((m : ℕ)
            → get_stream_session m w' ≡ (
                if nat_beq n m
                then some (new_session n method kind w.callback w.callback_ffi)
                else get_stream_session m w))
  new_stream_session-fresh small =
      rw new_stream_session_lem (grown-IsValid small, unused, get-grown)

abbrev dropped : ℕ → Session → Store → Store
dropped n s w = record w { registry = remove n w.registry; heap = insert n (ended s) w.heap }

ended-IsSound : (s : Session) → IsSound s → IsSound (ended s)
ended-IsSound s v = ground arith

module _ (n : ℕ) (w : Store) (v : IsValid w) (s : Session) where
  dropped-IsValid : lookup n w.heap ≡ some s → IsValid (dropped n s w)
  dropped-IsValid e = record {
    counted = v.counted;
    named = λ m p q. ground (arith, lookup-remove n m w.registry, v.named m p);
    stored = λ m t q. ground (
      arith,
      lookup-insert n m (ended s) w.heap,
      v.stored m t,
      v.stored n s,
      ended-IsSound s (v.stored n s e).2,
    );
    present = λ m q.
        ground
          (arith, lookup-remove n m w.registry, lookup-insert n m (ended s) w.heap, v.present m);
  }

  get-dropped :
      (m : ℕ)
      → get_stream_session m (dropped n s w)
        ≡ (if nat_beq n m then none else get_stream_session m w)
  unfolding get_stream_session
  get-dropped m = elim (get-cases m w v) [
    | inl (e, e') ↦ ground (arith, lookup-remove n m w.registry)
    | inr (t, e, e', e'', sound, below) ↦
        ground (arith, lookup-remove n m w.registry, lookup-insert n m (ended s) w.heap)
  ]

  close-found :
      lookup n w.registry ≡ some n
      → lookup n w.heap ≡ some s
      → IsSound s
      → close_stream_session n w ≡ some (dropped n s w)
  unfolding close_stream_session
  close-found e e' sound = ground (arith, close_session_lem s sound)

-- What stands at the address of an ID that is closed.
abbrev pub ended_at : ℕ → Store → Option Session
ended_at n w = elim (get_stream_session n w) [ none ↦ lookup n w.heap | some s ↦ some (ended s) ]

-- What `CloseStreamSession` leaves of the table.
pub record Closed (n : ℕ) (w w' : Store) : Type 0 where
  pub valid : IsValid w'
  pub found :
      (m : ℕ) → get_stream_session m w' ≡ (if nat_beq n m then none else get_stream_session m w)
  pub finished : lookup n w'.heap ≡ ended_at n w

-- `CloseStreamSession` does not panic on a consistent table, whatever the ID. It takes the ID out of
-- the table and ends the session that the ID found, which goroutines still hold, it leaves every
-- other ID as it was, and the table stays consistent.
pub close_stream_session_lem :
    (n : ℕ) (w : Store)
    → IsValid w
    → (w' : Store) × (close_stream_session n w ≡ some w') × Closed n w w'
unfolding close_stream_session
close_stream_session_lem n w v = elim (get-cases n w v) [
  | inl (e, e') ↦
      (w, ground arith, record { valid = v; found = λ m. ground arith; finished = ground arith })
  | inr (s, e, e', e'', sound, below) ↦ (
    dropped n s w,
    close-found n w v s e e' sound,
    record {
      valid = dropped-IsValid n w v s e';
      found = get-dropped n w v s;
      finished = ground (arith, lookup-insert n n (ended s) w.heap);
    },
  )
]
