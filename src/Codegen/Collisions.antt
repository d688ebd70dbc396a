-- ===== src/Codegen/Collisions.antt =====
-- cmd/protoc-gen-synurang-ffi/main.go: names that depend on the last element of a path.
use synurang.Common.{
  ℕ, suc, ◌≡◌, ◌≢◌, refl, true, Bytes, Map, [], ◌∷◌, ◌++◌, none, some, arith, All, bytes_beq_iff,
  length, drop, insert, lookup, bytes_eq, lookup-insert,
}
use synurang.Codegen.Names.{last_index, after_slash, go_package_alias}
use synurang.Codegen.Build.{Message, FileDesc, qualify_go_type}

abbrev pub HasNoSlash : Bytes → Type 0
HasNoSlash = All (λ c. c ≢ b'/')

no_index : (s : Bytes) → HasNoSlash s → last_index b'/' s ≡ none
unfolding last_index
no_index [] h = refl
no_index (c ∷ s) h = ground (arith, no_index s h.1)

index_after : (a s : Bytes) → HasNoSlash s → last_index b'/' (a ++ (b'/' ∷ s)) ≡ some (length a)
unfolding last_index
index_after [] s h = ground (arith, no_index s h)
index_after (c ∷ a) s h = ground (arith, index_after a s h)

drop-append : (a : Bytes) (c : ℕ) (s : Bytes) → drop (suc (length a)) (a ++ (c ∷ s)) ≡ s
drop-append [] c s = refl
drop-append (x ∷ a) c s = drop-append a c s

after_slash-append : (a s : Bytes) → HasNoSlash s → after_slash (a ++ (b'/' ∷ s)) ≡ s
unfolding after_slash
after_slash-append a s h = ground (arith, index_after a s h, drop-append a b'/' s)

-- Two packages whose import paths end in the same element get one alias: types of the same name are
-- written the same way, and both packages are imported under that alias, so that the generated file
-- cannot tell them apart.
pub qualify_go_type_collides :
    (file : FileDesc) (a b last name fa fb : Bytes) (m : Map Bytes Bytes)
    → HasNoSlash last
    → a ++ (b'/' ∷ last) ≢ file.go_import_path
    → b ++ (b'/' ∷ last) ≢ file.go_import_path
    → a ++ (b'/' ∷ last) ≢ b ++ (b'/' ∷ last)
    → let ta : Message = record {
      go_name = name;
      go_import_path = a ++ (b'/' ∷ last);
      file_path = fa;
    } in
      let tb : Message = record {
        go_name = name;
        go_import_path = b ++ (b'/' ∷ last);
        file_path = fb;
      } in
      let (m', first) = qualify_go_type file ta true m in
      let (m'', second) = qualify_go_type file tb true m' in
      (first ≡ second)
      × (lookup ta.go_import_path m'' ≡ some last)
      × (lookup tb.go_import_path m'' ≡ some last)
unfolding qualify_go_type go_package_alias
qualify_go_type_collides file a b last name fa fb m h na nb ab =
    let pa = a ++ (b'/' ∷ last) in
    let pb = b ++ (b'/' ∷ last) in
    ground (
      arith,
      after_slash-append a last h,
      after_slash-append b last h,
      bytes_beq_iff pa file.go_import_path,
      bytes_beq_iff pb file.go_import_path,
      bytes_beq_iff pb pa,
      bytes_beq_iff pa pa,
      bytes_beq_iff pb pb,
      lookup-insert pa pa last m,
      lookup-insert pb pa last (insert pa last m),
      lookup-insert pb pb last (insert pa last m),
    )
