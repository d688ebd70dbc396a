-- ===== src/Cache/Updates.antt =====
-- pkg/service/cache.go: `accessUpdateLoop`, which batches the times of access.
use mathlib.Core.List.{append_assoc}
use synurang.Common.{
  ℕ, ◌+◌, ◌≤◌, ◌<◌, ◌≡◌, ◌≢◌, sym, Bool, true, false, Bytes, Map, List, [], ◌∷◌, ◌++◌, map, arith,
  insert, bytes_eq, bytes_beq_iff, if◌then◌else◌, leb, length, ltb, All, beq_refl,
}
use synurang.Cache.Engine.{Sqlite}
use synurang.Cache.Service.{Cache, Update, flush_updates}

-- `update.storeName + "|" + update.key`.
unfoldable pub composite_key : Update → Bytes
composite_key u = u.store_name ++ (b'|' ∷ u.key)

module _ (E : Sqlite) where
  -- The loop's variables beside the service: `timer_on` for `timerCh != nil`.
  pub record Loop : Type 0 where
    pub cache : Cache E
    pub pending : Map Bytes Update
    pub timer_on : Bool

  abbrev values : Map Bytes Update → List Update
  values = map (λ e. e.1)

  -- `order` is the order in which the runtime visits the map.
  module _ (order : Map Bytes Update → Map Bytes Update) where
    unfoldable pub flush_all : Loop → Loop
    flush_all l = record l {
      cache = flush_updates E (values (order l.pending)) l.cache;
      pending = [];
      timer_on = false;
    }

    unfoldable pub on_update : Update → Loop → Loop
    unfolding composite_key flush_all
    on_update u l =
        let l' = record l { pending = insert (composite_key u) u l.pending; timer_on = true } in
        if leb 250 (length l'.pending) then flush_all l' else l'

    unfoldable pub on_timer : Loop → Loop
    unfolding flush_all
    on_timer l = if ltb 0 (length l.pending) then flush_all l else record l { timer_on = false }

    unfoldable pub on_done : Loop → Loop
    unfolding flush_all
    on_done l = record l { cache = flush_updates E (values (order l.pending)) l.cache }

length-insert-le :
    (k : Bytes) (u : Update) (m : Map Bytes Update) → length (insert k u m) ≤ length m + 1
unfolding insert
length-insert-le k u [] = omega arith
length-insert-le k u ((j, w) ∷ m) = ground (arith, length-insert-le k u m)

-- Few updates wait, and while any waits the timer runs that will flush them.
pub record IsValid (E : Sqlite) (l : Loop E) : Type 0 where
  pub few : length l.pending < 250
  pub timed : 0 < length l.pending → l.timer_on ≡ true

-- Every round of the loop keeps fewer than 250 updates waiting, with the timer running while any
-- waits, so that none waits for ever.
on_update-IsValid :
    (E : Sqlite) (order : Map Bytes Update → Map Bytes Update) (u : Update) (l : Loop E)
    → IsValid E l
    → IsValid E (on_update E order u l) × IsValid E (on_timer E order l)
unfolding on_update on_timer
on_update-IsValid E order u l v =
    ground (arith, length-insert-le (composite_key u) u l.pending, v.timed)

abbrev pub Without : ℕ → Bytes → Type 0
Without c = All (λ b. b ≢ c)

key-inj :
    (s t k j : Bytes)
    → Without b'|' s
    → Without b'|' t
    → s ++ (b'|' ∷ k) ≡ t ++ (b'|' ∷ j)
    → (s ≡ t) × (k ≡ j)
key-inj [] [] k j hs ht e = ground arith
key-inj [] (y ∷ t) k j hs ht e = absurd (ground arith)
key-inj (x ∷ s) [] k j hs ht e = absurd (ground arith)
key-inj (x ∷ s) (y ∷ t) k j hs ht e = ground (arith, key-inj s t k j hs.1 ht.1)

-- The composite key tells two keys apart if no store's name contains the separator.
composite_key-inj :
    (u w : Update)
    → Without b'|' u.store_name
    → Without b'|' w.store_name
    → composite_key u ≡ composite_key w
    → (u.store_name ≡ w.store_name) × (u.key ≡ w.key)
unfolding composite_key
composite_key-inj u w hu hw e = key-inj u.store_name w.store_name u.key w.key hu hw e

abbrev pub update_of : Bytes → Bytes → ℕ → Update
update_of store k at = record { store_name = store; key = k; accessed_at = at }

composite_key_same :
    (s t k : Bytes) (x y : ℕ)
    → composite_key (update_of s (t ++ (b'|' ∷ k)) x)
      ≡ composite_key (update_of (s ++ (b'|' ∷ t)) k y)
unfolding composite_key
composite_key_same s t k x y = sym (append_assoc s (b'|' ∷ t) (b'|' ∷ k))

-- The composite key does not tell all keys apart: for all names s, t and k the keys t|k of the store s and k of the store s|t
-- are taken for one, and of an access to each only the later is kept and ever written.
on_update_collides :
    (E : Sqlite) (order : Map Bytes Update → Map Bytes Update) (c : Cache E) (s t k : Bytes)
    (x y : ℕ)
    → let first = update_of s (t ++ (b'|' ∷ k)) x in
      let second = update_of (s ++ (b'|' ∷ t)) k y in
      let empty : Loop E = record { cache = c; pending = []; timer_on = false } in
      on_update E order second (on_update E order first empty)
      ≡ record { cache = c; pending = (composite_key second, second) ∷ []; timer_on = true }
unfolding on_update insert
on_update_collides E order c s t k x y =
    let first = update_of s (t ++ (b'|' ∷ k)) x in
    let second = update_of (s ++ (b'|' ∷ t)) k y in
    ground (
      arith,
      composite_key_same s t k x y,
      bytes_beq_iff (composite_key second) (composite_key first),
      beq_refl (composite_key second),
    )
