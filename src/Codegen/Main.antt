-- ===== src/Codegen/Main.antt =====
-- cmd/protoc-gen-synurang-ffi/main.go: the files that a run generates. The renderer of templates, and what
-- `build_file_data` takes of Go's library, are parameters.
use synurang.Common.{
  ◌≡◌, refl, Bool, false, Bytes, Map, List, [], ◌∷◌, ◌++◌, Option, none, some, arith, str,
  bytes_beq, if◌then◌else◌, ◌||◌, map, All,
}
use synurang.Debug.Text.{split, trim_space}
use synurang.Codegen.Names.{output_filename, select_template}
use synurang.Codegen.Build.{FileDesc, FileData, GoImport, build_file_data}

-- The names of `-services`, of which an empty text has none.
unfoldable pub service_list : Bytes → List Bytes
unfolding split trim_space
service_list [] = []
service_list (c ∷ s) = map trim_space (split (c ∷ s) (str ","))

-- A generated file, or the template that could not be rendered.
pub data Output : Type 0 where
  generated : (name text : Bytes) → Output
  template_error : Bytes → Output

module _ (render : Bytes → FileData → Option Bytes) (file_base : Bytes → Bytes)
    (order : Map Bytes Bytes → Map Bytes Bytes) (sort : List GoImport → List GoImport)
    (sort_strings : List Bytes → List Bytes) where
  unfoldable pub generate_from_template : FileDesc → List Bytes → (lang mode : Bytes) → Output
  unfolding build_file_data select_template output_filename
  generate_from_template file wanted lang mode =
      let template = select_template lang mode in
      elim (render template
        (build_file_data file_base order sort sort_strings file wanted lang mode)) [
          | none ↦ template_error template
          | some text ↦ generated (output_filename file.path lang) text
        ]

  -- The files of one input, by `-lang`, `-mode` and `-dart_package`.
  unfoldable pub generate_file :
      (lang mode dart_package : Bytes) → List Bytes → FileDesc → List Output
  unfolding generate_from_template
  generate_file lang mode dart_package wanted file =
      let every = bytes_beq lang [] in
      (if bytes_beq lang (str "go") || every
        then generate_from_template file wanted (str "go") mode ∷ []
        else [])
      ++ ((if bytes_beq lang (str "dart") || every
            then generate_from_template file wanted (str "dart") dart_package ∷ []
            else [])
          ++ ((if bytes_beq lang (str "cpp")
                then generate_from_template file wanted (str "cpp") [] ∷ []
                else [])
              ++ (if bytes_beq lang (str "rust")
                  then generate_from_template file wanted (str "rust") [] ∷ []
                  else [])))

  -- The inputs, each with whether it is to be generated.
  unfoldable pub run :
      (lang mode dart_package : Bytes) → List Bytes → List (Bool × FileDesc) → List Output
  unfolding generate_file
  run lang mode dart_package wanted [] = []
  run lang mode dart_package wanted ((generate, file) ∷ files) =
      let rest = run lang mode dart_package wanted files in
      if generate then generate_file lang mode dart_package wanted file ++ rest else rest

  -- A language that is none of the four generates nothing and reports nothing, whatever the inputs.
  pub run-unknown :
      (lang mode dart_package : Bytes) (wanted : List Bytes) (files : List (Bool × FileDesc))
      → All
          (λ l. bytes_beq lang l ≡ false)
          (str "go" ∷ str "dart" ∷ str "cpp" ∷ str "rust" ∷ [] ∷ [])
      → run lang mode dart_package wanted files ≡ []
  unfolding run generate_file
  run-unknown lang mode dart_package wanted [] h = refl
  run-unknown lang mode dart_package wanted ((generate, file) ∷ files) h =
      ground (arith, h, run-unknown lang mode dart_package wanted files h)
