-- ===== src/Debug/Tests.antt =====
-- Dumps of one and of two goroutines, as `runtime.Stack` prints them.
use synurang.Common.{◌+◌, ◌≡◌, ◌↔◌, ◌⊎◌, refl, false, Bytes, [], ◌++◌, some, str, bytes_beq}
use synurang.Codegen.Names.{has_prefix, after_slash, last_index}
use synurang.Debug.Text.{
  split, split_from, index, last_index_of, cut_at, contains, trim_space, trim_left, trim_right,
}
use synurang.Debug.Block.{
  block_key, state_of, created_by, creation, frame_name, file_line, first_frame, frame_of, key_of,
}
use synurang.Debug.Tracker.{
  Tracker, new_goroutine_tracker, parse_dump, growth, count_of, log_changes,
}
use synurang.Debug.Balance.{changes_balanced}
use synurang.Debug.Receivers.{has_paren, methods_share_name}

abbrev one : Bytes
one =
    str
      "goroutine 1 [running]:\nmain.work(0x1)\n\t/src/app/main.go:12 +0x2f\ncreated by main.main in goroutine 9\n\t/src/app/main.go:3"

abbrev two : Bytes
two = one ++ (str "\n\n" ++ one)

abbrev line : Bytes
line = str "server.(*Server).Serve(0xc0)"

key_of_one :
    block_key (split one (str "\n"))
    ≡ some (str "main.work (main.go:12)@running [created by main.main]")
unfolding block_key split split_from has_prefix bytes_beq state_of index created_by creation cut_at
    after_slash last_index frame_of first_frame frame_name file_line trim_space trim_left trim_right
    contains last_index_of key_of
key_of_one = refl

abbrev watching : Tracker
watching = record new_goroutine_tracker { prev_goroutines = (parse_dump one).counts }

changes_balanced_example :
    ((key : Bytes)
      → (count_of key watching.prev_goroutines
            + count_of key (growth watching.prev_goroutines (parse_dump two).counts)
          ≡ count_of key (parse_dump two).counts
            + count_of key (growth (parse_dump two).counts watching.prev_goroutines))
        × ((count_of key (growth watching.prev_goroutines (parse_dump two).counts) ≡ 0)
            ⊎ (count_of key (growth (parse_dump two).counts watching.prev_goroutines) ≡ 0)))
    × ((log_changes watching (parse_dump two) 2 ≡ []) ↔ (
        (key : Bytes)
        → count_of key watching.prev_goroutines ≡ count_of key (parse_dump two).counts))
changes_balanced_example = changes_balanced one two 2 watching refl

plain : has_paren (str "server") ≡ false
unfolding has_paren
plain = refl

trimmed : trim_space line ≡ line
unfolding trim_space trim_left trim_right
trimmed = refl

methods_share_name_example : frame_name line ≡ str "server."
methods_share_name_example =
    methods_share_name b's' (str "erver") (str "*Server).Serve(0xc0)") plain trimmed
