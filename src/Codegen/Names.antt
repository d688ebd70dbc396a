-- ===== src/Codegen/Names.antt =====
-- cmd/protoc-gen-synurang-ffi/main.go: the functions on names, and those of Go's strings package that they
-- use.
use synurang.Common.{
  ℕ, suc, ◌+◌, ◌-◌, Bool, true, false, Bytes, [], ◌∷◌, ◌++◌, Option, none, some, str, bytes_beq,
  nat_beq, leb, ◌&&◌, if◌then◌else◌, length, take, drop,
}

abbrev pub is_upper : ℕ → Bool
is_upper c = leb b'A' c && leb c b'Z'

abbrev pub is_lower : ℕ → Bool
is_lower c = leb b'a' c && leb c b'z'

-- `strings.ToLower` and `strings.ToUpper`, on ASCII.
unfoldable pub to_lower : Bytes → Bytes
to_lower [] = []
to_lower (c ∷ s) = (if is_upper c then c + 32 else c) ∷ to_lower s

unfoldable pub to_upper : Bytes → Bytes
to_upper [] = []
to_upper (c ∷ s) = (if is_lower c then c - 32 else c) ∷ to_upper s

-- The loop of `toSnakeCase`; `first` says that i is 0.
unfoldable pub split_words : Bool → Bytes → Bytes
split_words first [] = []
split_words true (c ∷ s) = c ∷ split_words false s
split_words false (c ∷ s) =
    if is_upper c then b'_' ∷ c ∷ split_words false s else c ∷ split_words false s

unfoldable pub to_snake_case : Bytes → Bytes
unfolding split_words to_lower
to_snake_case s = to_lower (split_words true s)

-- `strings.LastIndex` of one byte.
unfoldable pub last_index : ℕ → Bytes → Option ℕ
last_index ch [] = none
last_index ch (c ∷ s) = elim (last_index ch s) [
  | some i ↦ some (suc i)
  | none ↦ if nat_beq c ch then some 0 else none
]

-- What stands after the last slash, as in `goPackageAlias` and `outputFilename`.
unfoldable pub after_slash : Bytes → Bytes
unfolding last_index
after_slash s = elim (last_index b'/' s) [ none ↦ s | some i ↦ drop (suc i) s ]

unfoldable pub go_package_alias : Bytes → Bytes
unfolding after_slash
go_package_alias = after_slash

unfoldable pub has_suffix : Bytes → Bytes → Bool
has_suffix s suffix =
    leb (length suffix) (length s) && bytes_beq (drop (length s - length suffix) s) suffix

unfoldable pub trim_suffix : Bytes → Bytes → Bytes
unfolding has_suffix
trim_suffix s suffix = if has_suffix s suffix then take (length s - length suffix) s else s

unfoldable pub has_prefix : Bytes → Bytes → Bool
has_prefix s prefix = bytes_beq (take (length prefix) s) prefix

-- `strings.ReplaceAll` of one byte.
unfoldable pub replace_all : Bytes → ℕ → Bytes → Bytes
replace_all [] old new = []
replace_all (c ∷ s) old new =
    if nat_beq c old then new ++ replace_all s old new else c ∷ replace_all s old new

unfoldable pub proto_base : Bytes → Bytes
unfolding trim_suffix after_slash
proto_base path = after_slash (trim_suffix path (str ".proto"))

unfoldable pub output_filename : Bytes → Bytes → Bytes
unfolding proto_base
output_filename path lang =
    let base = proto_base path in
    if bytes_beq lang (str "go")
    then base ++ str "_ffi.pb.go"
    else if bytes_beq lang (str "dart")
    then base ++ str "_ffi.pb.dart"
    else if bytes_beq lang (str "cpp")
    then base ++ str "_ffi.h"
    else if bytes_beq lang (str "rust")
    then base ++ str "_ffi.rs"
    else base ++ str "_ffi"

-- The empty name for a language with no template.
unfoldable pub select_template : Bytes → Bytes → Bytes
select_template lang mode =
    if bytes_beq lang (str "go")
    then (if bytes_beq mode (str "plugin_server")
        then str "go_plugin_server.go.tmpl"
        else if bytes_beq mode (str "plugin_client")
        then str "go_plugin_client.go.tmpl"
        else str "go_default.go.tmpl")
    else if bytes_beq lang (str "dart")
    then str "dart.dart.tmpl"
    else if bytes_beq lang (str "cpp")
    then str "cpp.h.tmpl"
    else if bytes_beq lang (str "rust")
    then str "rust.rs.tmpl"
    else []
