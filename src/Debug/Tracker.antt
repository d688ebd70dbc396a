-- ===== src/Debug/Tracker.antt =====
-- pkg/debug/goroutine_tracker.go: `GoroutineTracker`, by the two sections that its lock guards. The text of
-- `runtime.Stack`, as much of it as fills the buffer, and the number of goroutines are arguments.
use synurang.Common.{
  ℕ, zero, suc, ◌+◌, ◌-◌, ◌%◌, Bool, false, Bytes, Map, List, [], ◌∷◌, ◌++◌, Option, none, some,
  str, lookup, insert, bytes_eq, bytes_beq, nat_beq, ltb, if◌then◌else◌, length, map, ℤ, pos,
  negsuc, ◌||◌,
}
use synurang.Core.Dart.{digits}
use synurang.Debug.Text.{split, sort_strings, trim_space}
use synurang.Debug.Block.{block_key}

-- What is logged, the tag of the tracker first.
pub data Line : Type 0 where
  initial : Bytes → ℕ → Line
  appeared vanished : Bytes → Bytes → Line
  stack_trace : Bytes → Line
  total : Bytes → ℕ → Line
  dump_title : Bytes → ℕ → Line
  dump_line : Bytes → Bytes → Line

pub record Tracker : Type 0 where
  pub prev_goroutines : Map Bytes ℕ
  pub prev_stacks : Map Bytes Bytes
  pub call_count : ℕ
  pub full_dump_interval : ℤ
  pub tag : Bytes
  pub print_full_stack : Bool

unfoldable pub new_goroutine_tracker : Tracker
new_goroutine_tracker = record {
  prev_goroutines = [];
  prev_stacks = [];
  call_count = 0;
  full_dump_interval = pos 10;
  tag = str "GR-DIFF";
  print_full_stack = false;
}

unfoldable pub reset : Tracker → Tracker
reset t = record t { prev_goroutines = []; prev_stacks = []; call_count = 0 }

-- A missing key of a map of numbers reads as 0.
unfoldable pub count_of : Bytes → Map Bytes ℕ → ℕ
unfolding lookup
count_of key counts = elim (lookup key counts) [ none ↦ 0 | some n ↦ n ]

unfoldable pub stack_of : Bytes → Map Bytes Bytes → Bytes
unfolding lookup
stack_of key stacks = elim (lookup key stacks) [ none ↦ [] | some s ↦ s ]

-- `current` and `currentStacks`.
pub record Dump : Type 0 where
  pub counts : Map Bytes ℕ
  pub stacks : Map Bytes Bytes

unfoldable pub add_key : Bytes → Option Bytes → Dump → Dump
unfolding count_of insert
add_key block none d = d
add_key block (some key) d = record {
  counts = insert key (count_of key d.counts + 1) d.counts;
  stacks = insert key block d.stacks;
}

unfoldable pub add_block : Bytes → Dump → Dump
unfolding add_key block_key split
add_block block d = add_key block (block_key (split block (str "\n"))) d

unfoldable pub add_blocks : List Bytes → Dump → Dump
unfolding add_block
add_blocks [] d = d
add_blocks (block ∷ blocks) d =
    add_blocks blocks (if bytes_beq block [] then d else add_block block d)

unfoldable pub parse_dump : Bytes → Dump
unfolding add_blocks split
parse_dump stacks = add_blocks (split stacks (str "\n\n")) (record { counts = []; stacks = [] })

unfoldable pub with_count : Bytes → ℕ → Bytes
unfolding digits
with_count key count = key ++ (0xc3 ∷ 0x97 ∷ digits 20 count [])

unfoldable pub format_diff : Bytes → ℕ → Bytes
unfolding with_count
format_diff key count = if ltb 1 count then with_count key count else key

-- The loops of `PrintDiff`: the keys of `now` with a greater number than in `before`, and by how much.
unfoldable pub growth : (before now : Map Bytes ℕ) → Map Bytes ℕ
unfolding count_of
growth before [] = []
growth before ((key, count) ∷ now) =
    if ltb (count_of key before) count
    then (key, count - count_of key before) ∷ growth before now
    else growth before now

abbrev pub diffs : Map Bytes ℕ → List Bytes
diffs = map (λ e. format_diff e.0 e.1)

-- The stack kept for each difference.
unfoldable pub diff_stacks : Map Bytes Bytes → Map Bytes ℕ → Map Bytes Bytes → Map Bytes Bytes
unfolding format_diff stack_of insert
diff_stacks stacks [] acc = acc
diff_stacks stacks ((key, n) ∷ rest) acc =
    diff_stacks stacks rest (insert (format_diff key n) (stack_of key stacks) acc)

unfoldable pub log_diff : (Bytes → Line) → Bool → Map Bytes Bytes → List Bytes → List Line
unfolding lookup trim_space
log_diff line full stacks [] = []
log_diff line full stacks (s ∷ rest) =
    line s
    ∷ ((if full
          then elim (lookup s stacks) [
            | none ↦ []
            | some stack ↦ stack_trace (trim_space stack) ∷ []
          ]
          else [])
        ++ log_diff line full stacks rest)

-- `shouldPrintAll`, of the count after it was raised.
unfoldable pub should_print_all : ℕ → ℤ → Bool
should_print_all count (negsuc n) = false
should_print_all count (pos zero) = false
should_print_all count (pos (suc n)) = nat_beq (count % suc n) 0

unfoldable pub full_dump : Bytes → Map Bytes ℕ → List Line
unfolding with_count sort_strings
full_dump tag current =
    let all = sort_strings (map (λ e. with_count e.0 e.1) current) in
    dump_title tag (length all) ∷ map (λ s. dump_line tag s) all

-- The first section of `PrintDiff`.
unfoldable pub begin_diff : Tracker → Tracker × Bool
unfolding should_print_all
begin_diff t =
    let t' = record t { call_count = t.call_count + 1 } in
    (t', should_print_all t'.call_count t'.full_dump_interval)

-- The changes that are logged.
unfoldable pub log_changes : Tracker → Dump → ℕ → List Line
unfolding growth format_diff sort_strings diff_stacks log_diff
log_changes t d goroutines =
    let added = growth t.prev_goroutines d.counts in
    let removed = growth d.counts t.prev_goroutines in
    if ltb 0 (length added) || ltb 0 (length removed)
    then log_diff (appeared t.tag) t.print_full_stack (diff_stacks d.stacks added [])
        (sort_strings (diffs added))
      ++ (log_diff (vanished t.tag) t.print_full_stack (diff_stacks t.prev_stacks removed [])
            (sort_strings (diffs removed))
          ++ (total t.tag goroutines ∷ []))
    else []

-- The second section, with the dump taken in between.
unfoldable pub end_diff :
    Dump → (goroutines : ℕ) → (print_all : Bool) → Tracker → Tracker × List Line
unfolding log_changes full_dump
end_diff d goroutines print_all t =
    let t' = record t { prev_goroutines = d.counts; prev_stacks = d.stacks } in
    elim t.prev_goroutines [
      | [] ↦ (t', initial t.tag (length d.counts) ∷ [])
      | e ∷ rest ↦
          (t', log_changes t d goroutines ++ (if print_all then full_dump t.tag d.counts else []))
    ]

-- `PrintDiff` with no other call in between.
unfoldable pub print_diff : (stacks : Bytes) (goroutines : ℕ) → Tracker → Tracker × List Line
unfolding begin_diff end_diff parse_dump
print_diff stacks goroutines t =
    let begun = begin_diff t in end_diff (parse_dump stacks) goroutines begun.1 begun.0
