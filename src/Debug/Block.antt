-- ===== src/Debug/Block.antt =====
-- pkg/debug/goroutine_tracker.go: the key of one goroutine, from its block of the dump.
use synurang.Common.{
  suc, ◌+◌, Bytes, List, [], ◌∷◌, ◌++◌, Option, none, some, str, take, drop, if◌then◌else◌,
}
use synurang.Codegen.Names.{has_prefix, after_slash}
use synurang.Debug.Text.{index, last_index_of, contains, cut_at, trim_space}

-- What stands between the first `[` of the first line and the next `]`.
unfoldable pub state_of : Bytes → Bytes
unfolding index
state_of first_line = elim (index first_line (str "[")) [
  | none ↦ str "unknown"
  | some start ↦ elim (index (drop start first_line) (str "]")) [
    | none ↦ str "unknown"
    | some end_ ↦ drop (suc start) (take (start + end_) first_line)
  ]
]

-- The last line that starts with "created by ".
unfoldable pub creation : List Bytes → Option Bytes
unfolding has_prefix
creation [] = none
creation (line ∷ lines) = elim (creation lines) [
  | some found ↦ some found
  | none ↦ if has_prefix line (str "created by ") then some (drop 11 line) else none
]

unfoldable pub created_by : List Bytes → Bytes
unfolding creation index cut_at after_slash
created_by lines = elim (creation lines) [
  | none ↦ []
  | some text ↦ after_slash (cut_at (index text (str " ")) text)
]

-- The name in the line of a function, before its arguments, and without the directories of its package.
unfoldable pub frame_name : Bytes → Bytes
unfolding trim_space index cut_at
frame_name line = let name = trim_space line in cut_at (index name (str "(")) name

-- The file and line, without its directories and the offset.
unfoldable pub file_line : Bytes → Bytes
unfolding trim_space last_index_of cut_at after_slash
file_line line =
    let text = trim_space line in after_slash (cut_at (last_index_of text (str " +")) text)

-- The loop over the frames, each of two lines; `none` when it finds none.
unfoldable pub first_frame : List Bytes → Option (Bytes × Bytes)
unfolding has_prefix frame_name file_line contains after_slash
first_frame [] = none
first_frame (line ∷ []) = none
first_frame (line ∷ place ∷ []) =
    if has_prefix line (str "created by ")
    then none
    else some (after_slash (frame_name line), file_line place)
first_frame (line ∷ place ∷ next ∷ rest) =
    let later = first_frame (next ∷ rest) in
    if has_prefix line (str "created by ")
    then none
    else if contains (frame_name line) (str "runtime.goexit")
    then later
    else some (after_slash (frame_name line), file_line place)

-- The function and its place: the frame that is found, or else the second and the third line.
unfoldable pub frame_of : (second third : Bytes) → List Bytes → Bytes × Bytes
unfolding first_frame frame_name file_line after_slash
frame_of second third rest = elim (first_frame (second ∷ third ∷ rest)) [
  | some frame ↦ frame
  | none ↦ (after_slash (frame_name second), file_line third)
]

unfoldable pub key_of : (name place state creator : Bytes) → Bytes
key_of name place state creator =
    let key = name ++ (str " (" ++ (place ++ (str ")@" ++ state))) in
    elim creator [ [] ↦ key | c ∷ cs ↦ key ++ (str " [created by " ++ ((c ∷ cs) ++ str "]")) ]

-- The key of a block of lines; `none` when it has less than three.
unfoldable pub block_key : List Bytes → Option Bytes
unfolding state_of frame_of created_by key_of
block_key (first_line ∷ second ∷ third ∷ rest) =
    let frame = frame_of second third rest in
    some (
      key_of frame.0 frame.1 (state_of first_line)
        (created_by (first_line ∷ second ∷ third ∷ rest)))
block_key _ = none
