-- ===== src/Debug/Totals.antt =====
-- pkg/debug/goroutine_tracker.go: how many goroutines a dump counts, and the first line that is logged.
use synurang.Common.{
  ℕ, suc, ◌+◌, ◌≤◌, ◌≡◌, ◌↔◌, refl, Bytes, Map, List, [], ◌∷◌, Option, none, some, arith, lookup,
  insert, bytes_eq, bytes_beq, bytes_beq_iff, length, if◌then◌else◌, str,
}
use synurang.Debug.Text.{split}
use synurang.Debug.Block.{block_key}
use synurang.Debug.Tracker.{
  Tracker, Dump, initial, count_of, add_key, add_block, add_blocks, parse_dump, print_diff,
  begin_diff, end_diff,
}
use synurang.Debug.Balance.{IsKeyed, parse_dump-IsKeyed}

pub sum_of : Map Bytes ℕ → ℕ
sum_of [] = 0
sum_of ((key, n) ∷ rest) = n + sum_of rest

-- The goroutines of a dump that have a key.
pub tracked : List Bytes → ℕ
tracked [] = 0
tracked (block ∷ blocks) =
    let rest = tracked blocks in
    if bytes_beq block []
    then rest
    else elim (block_key (split block (str "\n"))) [ none ↦ rest | some key ↦ suc rest ]

IsPositive : Map Bytes ℕ → Type 0
IsPositive [] = Unit
IsPositive ((key, n) ∷ rest) = (1 ≤ n) × IsPositive rest

IsPositive-nil : IsPositive []
unfolding IsPositive
IsPositive-nil = tt

insert-sum :
    (key : Bytes) (m : Map Bytes ℕ) → sum_of (insert key (count_of key m + 1) m) ≡ suc (sum_of m)
unfolding sum_of insert count_of lookup
insert-sum key [] = ground arith
insert-sum key ((k, n) ∷ m) = ground (arith, insert-sum key m)

insert-IsPositive :
    (key : Bytes) (n : ℕ) (m : Map Bytes ℕ) → IsPositive m → IsPositive (insert key (n + 1) m)
unfolding IsPositive insert
insert-IsPositive key n [] h = ground arith
insert-IsPositive key n ((k, v) ∷ m) (a, b) = ground (arith, a, b, insert-IsPositive key n m b)

add_key-IsPositive :
    (block : Bytes) (key : Option Bytes) (d : Dump)
    → IsPositive d.counts
    → IsPositive (add_key block key d).counts
unfolding add_key
add_key-IsPositive block none d h = h
add_key-IsPositive block (some key) d h = insert-IsPositive key (count_of key d.counts) d.counts h

add_blocks-IsPositive :
    (blocks : List Bytes) (d : Dump) → IsPositive d.counts → IsPositive (add_blocks blocks d).counts
unfolding add_blocks add_block
add_blocks-IsPositive [] d h = h
add_blocks-IsPositive (block ∷ blocks) d h = ground (
  arith,
  add_blocks-IsPositive blocks d h,
  add_blocks-IsPositive blocks (add_block block d)
      (add_key-IsPositive block (block_key (split block (str "\n"))) d h),
)

add_key-sum :
    (block : Bytes) (key : Option Bytes) (d : Dump)
    → sum_of (add_key block key d).counts
      ≡ (elim key [ none ↦ sum_of d.counts | some k ↦ suc (sum_of d.counts) ])
unfolding add_key
add_key-sum block none d = refl
add_key-sum block (some key) d = insert-sum key d.counts

add_blocks-sum :
    (blocks : List Bytes) (d : Dump)
    → sum_of (add_blocks blocks d).counts ≡ sum_of d.counts + tracked blocks
unfolding add_blocks add_block tracked
add_blocks-sum [] d = ground arith
add_blocks-sum (block ∷ blocks) d = ground (
  arith,
  add_blocks-sum blocks d,
  add_blocks-sum blocks (add_block block d),
  add_key-sum block (block_key (split block (str "\n"))) d,
)

length-sum : (m : Map Bytes ℕ) → IsPositive m → length m ≤ sum_of m
unfolding sum_of IsPositive
length-sum [] h = ground arith
length-sum ((k, n) ∷ m) (a, b) = ground (arith, a, length-sum m b)

sum-once :
    (m : Map Bytes ℕ)
    → IsKeyed m
    → IsPositive m
    → ((key : Bytes) → count_of key m ≤ 1)
    → length m ≡ sum_of m
unfolding sum_of IsPositive IsKeyed count_of lookup
sum-once [] k h once = refl
sum-once ((k, n) ∷ m) (new, kept) (a, b) once =
    let tail : length m ≡ sum_of m =
      sum-once m kept b (λ key. ground (arith, once key, new, bytes_beq_iff k key)) in
    ground (arith, tail, a, once k, bytes_beq_iff k k)

once-sum :
    (m : Map Bytes ℕ) → IsPositive m → length m ≡ sum_of m → (key : Bytes) → count_of key m ≤ 1
unfolding sum_of IsPositive count_of lookup
once-sum [] h e key = ground arith
once-sum ((k, n) ∷ m) (a, b) e key =
    ground (arith, a, length-sum m b, λ (x : length m ≡ sum_of m). once-sum m b x key)

-- The numbers of a dump add up to its goroutines that have a key: none is counted twice and none is lost.
-- The first line that is logged has the number of the different keys. That is at most the number of these
-- goroutines, and is that number only when no two of them have the same key.
pub initial_counts_keys :
    (stacks : Bytes) (goroutines : ℕ) (t : Tracker)
    → t.prev_goroutines ≡ []
    → (sum_of (parse_dump stacks).counts ≡ tracked (split stacks (str "\n\n")))
      × ((print_diff stacks goroutines t).1
          ≡ initial t.tag (length (parse_dump stacks).counts) ∷ [])
      × (length (parse_dump stacks).counts ≤ tracked (split stacks (str "\n\n")))
      × ((length (parse_dump stacks).counts ≡ tracked (split stacks (str "\n\n")))
          ↔ ((key : Bytes) → count_of key (parse_dump stacks).counts ≤ 1))
unfolding print_diff begin_diff end_diff parse_dump sum_of
initial_counts_keys stacks goroutines t e =
    let blocks = split stacks (str "\n\n") in
    let d : Dump = record { counts = []; stacks = [] } in
    let m = (add_blocks blocks d).counts in
    let positive : IsPositive m = add_blocks-IsPositive blocks d IsPositive-nil in
    let sum : sum_of m ≡ tracked blocks = omega (arith, add_blocks-sum blocks d) in
    (
      sum,
      ground (arith, e),
      ground (arith, sum, length-sum m positive),
      (
        λ same key. once-sum m positive (ground (arith, sum, same)) key,
        λ once. ground (arith, sum, sum-once m (parse_dump-IsKeyed stacks) positive once),
      ),
    )
