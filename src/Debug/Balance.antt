-- ===== src/Debug/Balance.antt =====
-- pkg/debug/goroutine_tracker.go: what `PrintDiff` reports, against the numbers of the two dumps.
use synurang.Common.{
  ℕ, ◌+◌, ◌-◌, ◌≤◌, ◌≡◌, ◌≢◌, sym, subst, ◌↔◌, ◌⊎◌, refl, false, Bytes, Map, List, [], ◌∷◌, ◌++◌,
  Option, none, some, arith, lookup, insert, lookup-insert, bytes_eq, bytes_beq_iff, length, ltb,
  str,
}
use synurang.Debug.Text.{split, sort_strings}
use synurang.Debug.Block.{block_key}
use synurang.Debug.Tracker.{
  Tracker, Dump, Line, count_of, add_key, add_block, add_blocks, parse_dump, growth, log_changes,
  log_diff, appeared, vanished, diff_stacks, diffs, total,
}

-- Each key stands once.
unfoldable pub IsKeyed : Map Bytes ℕ → Type 0
IsKeyed [] = Unit
IsKeyed ((key, n) ∷ rest) = (lookup key rest ≡ none) × IsKeyed rest

insert-IsKeyed : (key : Bytes) (n : ℕ) (m : Map Bytes ℕ) → IsKeyed m → IsKeyed (insert key n m)
unfolding IsKeyed insert lookup
insert-IsKeyed key n [] h = (refl, tt)
insert-IsKeyed key n ((k, v) ∷ rest) (a, b) = ground (
  arith,
  insert-IsKeyed key n rest b,
  lookup-insert key k n rest,
  bytes_beq_iff k key,
  bytes_beq_iff key k,
  a,
  b,
)

add_key-IsKeyed :
    (block : Bytes) (key : Option Bytes) (d : Dump)
    → IsKeyed d.counts
    → IsKeyed (add_key block key d).counts
unfolding add_key
add_key-IsKeyed block none d h = h
add_key-IsKeyed block (some key) d h = insert-IsKeyed key (count_of key d.counts + 1) d.counts h

add_block-IsKeyed :
    (block : Bytes) (d : Dump) → IsKeyed d.counts → IsKeyed (add_block block d).counts
unfolding add_block
add_block-IsKeyed block d h = add_key-IsKeyed block (block_key (split block (str "\n"))) d h

add_blocks-IsKeyed :
    (blocks : List Bytes) (d : Dump) → IsKeyed d.counts → IsKeyed (add_blocks blocks d).counts
unfolding add_blocks
add_blocks-IsKeyed [] d h = h
add_blocks-IsKeyed (block ∷ blocks) d h = ground (
  arith,
  add_blocks-IsKeyed blocks d h,
  add_blocks-IsKeyed blocks (add_block block d) (add_block-IsKeyed block d h),
)

pub parse_dump-IsKeyed : (stacks : Bytes) → IsKeyed (parse_dump stacks).counts
unfolding parse_dump IsKeyed
parse_dump-IsKeyed stacks =
    add_blocks-IsKeyed (split stacks (str "\n\n")) (record { counts = []; stacks = [] }) tt

-- The difference of a key is what its number exceeds the other dump's by.
pub count_of-growth :
    (key : Bytes) (before now : Map Bytes ℕ)
    → IsKeyed now
    → count_of key (growth before now) ≡ count_of key now - count_of key before
unfolding growth count_of IsKeyed lookup
count_of-growth key before [] h = ground arith
count_of-growth key before ((k, n) ∷ now) (a, b) =
    ground (arith, count_of-growth key before now b, bytes_beq_iff k key, a)

growth-nil :
    (before now : Map Bytes ℕ)
    → IsKeyed now
    → ((key : Bytes) → count_of key now ≤ count_of key before)
    → growth before now ≡ []
unfolding growth count_of IsKeyed lookup
growth-nil before [] h le = refl
growth-nil before ((k, n) ∷ now) (a, b) le =
    let tail : growth before now ≡ [] =
      growth-nil before now b (λ key. ground (arith, le key, bytes_beq_iff k key, a)) in
    ground (arith, tail, le k, bytes_beq_iff k k)

append-not_nil : (xs ys : List Line) (z : Line) → xs ++ (ys ++ (z ∷ [])) ≢ []
append-not_nil [] [] z e = ground arith
append-not_nil [] (y ∷ ys) z e = ground arith
append-not_nil (x ∷ xs) ys z e = ground arith

length-nil : (m : Map Bytes ℕ) → (ltb 0 (length m) ≡ false) ↔ (m ≡ [])
length-nil [] = ground arith
length-nil (e ∷ m) = ground arith

no_changes :
    (t : Tracker) (d : Dump) (goroutines : ℕ)
    → (log_changes t d goroutines ≡ [])
      ↔ ((growth t.prev_goroutines d.counts ≡ []) × (growth d.counts t.prev_goroutines ≡ []))
unfolding log_changes
no_changes t d goroutines =
    let added = growth t.prev_goroutines d.counts in
    let removed = growth d.counts t.prev_goroutines in
    let up =
      log_diff (appeared t.tag) t.print_full_stack (diff_stacks d.stacks added [])
        (sort_strings (diffs added)) in
    let down =
      log_diff (vanished t.tag) t.print_full_stack (diff_stacks t.prev_stacks removed [])
        (sort_strings (diffs removed)) in
    ground
      (arith, append-not_nil up down (total t.tag goroutines), length-nil added, length-nil removed)

log_changes-nil :
    (t : Tracker) (d : Dump) (goroutines : ℕ)
    → IsKeyed t.prev_goroutines
    → IsKeyed d.counts
    → (log_changes t d goroutines ≡ [])
      ↔ ((key : Bytes) → count_of key t.prev_goroutines ≡ count_of key d.counts)
unfolding count_of
log_changes-nil t d goroutines a b =
    let both = no_changes t d goroutines in
    (
      λ e key. ground (
        arith,
        both.0 e,
        count_of-growth key t.prev_goroutines d.counts b,
        count_of-growth key d.counts t.prev_goroutines a,
      ),
      λ same. both.1 (
        growth-nil t.prev_goroutines d.counts b (λ key. ground (arith, same key)),
        growth-nil d.counts t.prev_goroutines a (λ key. ground (arith, same key)),
      ),
    )

-- Between two dumps, what `PrintDiff` counts as added to a key and as removed from it makes up the
-- difference of the two numbers; only one of them is not zero. It logs no change exactly when every key has
-- the same number in both.
pub changes_balanced :
    (old new : Bytes) (goroutines : ℕ) (t : Tracker)
    → t.prev_goroutines ≡ (parse_dump old).counts
    → ((key : Bytes)
        → (count_of key t.prev_goroutines
              + count_of key (growth t.prev_goroutines (parse_dump new).counts)
            ≡ count_of key (parse_dump new).counts
              + count_of key (growth (parse_dump new).counts t.prev_goroutines))
          × ((count_of key (growth t.prev_goroutines (parse_dump new).counts) ≡ 0)
              ⊎ (count_of key (growth (parse_dump new).counts t.prev_goroutines) ≡ 0)))
      × ((log_changes t (parse_dump new) goroutines ≡ [])
          ↔ ((key : Bytes) → count_of key t.prev_goroutines ≡ count_of key (parse_dump new).counts))
changes_balanced old new goroutines t h =
    let now = (parse_dump new).counts in
    let keyed : IsKeyed t.prev_goroutines = subst IsKeyed (sym h) (parse_dump-IsKeyed old) in
    let grown =
      λ (key : Bytes). count_of-growth key t.prev_goroutines now (parse_dump-IsKeyed new) in
    let shrunk = λ (key : Bytes). count_of-growth key now t.prev_goroutines keyed in
    (
      λ key. ground (arith, grown key, shrunk key),
      log_changes-nil t (parse_dump new) goroutines keyed (parse_dump-IsKeyed new),
    )
