-- ===== src/Codegen/Build.antt =====
-- cmd/protoc-gen-synurang-ffi/main.go: `buildFileData`. The descriptors are protogen's, with the fields
-- that the code reads. `order` is the order in which the runtime visits a map, `sort` sorts by the path
-- (`sort.Slice`), and `sort_strings` is `sort.Strings`.
use synurang.Common.{
  Bool, true, false, Bytes, Map, List, [], ◌∷◌, ◌++◌, str, bytes_beq, insert, bytes_eq, not, ◌&&◌,
  ◌||◌, map, if◌then◌else◌,
}
use synurang.Codegen.Names.{
  trim_suffix, has_prefix, replace_all, to_upper, go_package_alias, output_filename,
}

pub record Message : Type 0 where
  pub go_name : Bytes
  pub go_import_path : Bytes
  pub file_path : Bytes

pub record MethodDesc : Type 0 where
  pub name : Bytes
  pub go_name : Bytes
  pub input : Message
  pub output : Message
  pub streaming_server : Bool
  pub streaming_client : Bool

pub record ServiceDesc : Type 0 where
  pub name : Bytes
  pub go_name : Bytes
  pub methods : List MethodDesc

pub record FileDesc : Type 0 where
  pub path : Bytes
  pub package_name : Bytes
  pub go_package_name : Bytes
  pub go_import_path : Bytes
  pub services : List ServiceDesc

pub record GoImport : Type 0 where
  pub alias : Bytes
  pub path : Bytes

pub record MethodData : Type 0 where
  pub name : Bytes
  pub go_name : Bytes
  pub full_method_name : Bytes
  pub input_type : Bytes
  pub output_type : Bytes
  pub input_go_ident : Bytes
  pub output_go_ident : Bytes
  pub is_server_streaming : Bool
  pub is_client_streaming : Bool
  pub is_bidi_streaming : Bool
  pub is_unary : Bool

pub record ServiceData : Type 0 where
  pub name : Bytes
  pub go_name : Bytes
  pub methods : List MethodData

pub record FileData : Type 0 where
  pub package_name : Bytes
  pub go_package_name : Bytes
  pub services : List ServiceData
  pub has_streaming : Bool
  pub dart_package : Bytes
  pub external_imports : List Bytes
  pub go_imports : List GoImport
  pub pb_dart_file : Bytes
  pub pb_header_file : Bytes
  pub cpp_namespace : Bytes
  pub cpp_guard_name : Bytes
  pub rust_mod_path : Bytes

-- The template functions on a method.
unfoldable pub call_method : MethodData → Bytes
call_method m = if not m.is_unary then m.go_name ++ str "Internal" else m.go_name

unfoldable pub stream_type : Bytes → ServiceData → MethodData → Bytes
stream_type prefix svc m = prefix ++ (svc.go_name ++ (m.go_name ++ str "Stream"))

unfoldable pub plugin_stream_type : ServiceData → MethodData → Bytes
plugin_stream_type svc m = str "pluginStream" ++ (svc.go_name ++ m.go_name)

-- `serviceList` as the names that it holds; an empty list asks for every service.
abbrev pub is_in : Bytes → List Bytes → Bool
is_in s [] = false
is_in s (x ∷ xs) = bytes_beq x s || is_in s xs

unfoldable pub should_generate_service : Bytes → List Bytes → Bool
should_generate_service s [] = true
should_generate_service s (x ∷ xs) = is_in s (x ∷ xs)

-- `qualifyGoType`: the name, and the imports with the package added where that is asked for.
unfoldable pub qualify_go_type :
    FileDesc → Message → Bool → Map Bytes Bytes → Map Bytes Bytes × Bytes
unfolding go_package_alias
qualify_go_type file m add_import imports =
    if bytes_beq m.go_import_path file.go_import_path
    then (imports, m.go_name)
    else (let alias = go_package_alias m.go_import_path in
        (
          if add_import then insert m.go_import_path alias imports else imports,
          alias ++ (b'.' ∷ m.go_name),
        ))

unfoldable pub build_method :
    FileDesc → ServiceDesc → MethodDesc → Map Bytes Bytes → Map Bytes Bytes × MethodData
unfolding qualify_go_type
build_method file service m imports =
    let streaming = m.streaming_server || m.streaming_client in
    let (imports', input) = qualify_go_type file m.input true imports in
    let (imports'', output) = qualify_go_type file m.output streaming imports' in
    (
      imports'',
      record {
        name = m.name;
        go_name = m.go_name;
        full_method_name = b'/' ∷ (file.package_name ++ (b'.' ∷ (service.name ++ (b'/' ∷ m.name))));
        input_type = m.input.go_name;
        output_type = m.output.go_name;
        input_go_ident = input;
        output_go_ident = output;
        is_server_streaming = m.streaming_server && not m.streaming_client;
        is_client_streaming = m.streaming_client && not m.streaming_server;
        is_bidi_streaming = m.streaming_server && m.streaming_client;
        is_unary = not m.streaming_server && not m.streaming_client;
      },
    )

unfoldable pub build_methods :
    FileDesc → ServiceDesc → List MethodDesc → Map Bytes Bytes → Map Bytes Bytes × List MethodData
unfolding build_method
build_methods file service [] imports = (imports, [])
build_methods file service (m ∷ ms) imports =
    let (imports', d) = build_method file service m imports in
    let (imports'', ds) = build_methods file service ms imports' in (imports'', d ∷ ds)

unfoldable pub build_services :
    FileDesc → List Bytes → List ServiceDesc → Map Bytes Bytes → Map Bytes Bytes × List ServiceData
unfolding build_methods should_generate_service
build_services file wanted [] imports = (imports, [])
build_services file wanted (s ∷ ss) imports =
    let (imports', ms) = build_methods file s s.methods imports in
    let with_it : Map Bytes Bytes × List ServiceData =
      let (imports'', ds) = build_services file wanted ss imports' in
      (imports'', record { name = s.name; go_name = s.go_name; methods = ms } ∷ ds) in
    let without_it = build_services file wanted ss imports in
    if should_generate_service s.go_name wanted then with_it else without_it

-- `data.HasStreaming`: a method that was generated streams.
abbrev pub any_streams : List MethodData → Bool
any_streams [] = false
any_streams (m ∷ ms) = not m.is_unary || any_streams ms

unfoldable pub has_streaming : List ServiceData → Bool
has_streaming [] = false
has_streaming (s ∷ ss) = any_streams s.methods || has_streaming ss

unfoldable pub dart_import : Bytes → Bytes → Bytes
unfolding trim_suffix has_prefix
dart_import path dart_package =
    let target = trim_suffix path (str ".proto") ++ str ".pb.dart" in
    if has_prefix target (str "google/protobuf/")
    then str "package:protobuf/well_known_types/" ++ target
    else if not (bytes_beq dart_package [])
    then str "package:" ++ (dart_package ++ (b'/' ∷ target))
    else target

-- `addDartImport`, on a map from imports to true.
unfoldable pub add_dart_import : FileDesc → Bytes → Bytes → Map Bytes Bool → Map Bytes Bool
unfolding dart_import
add_dart_import file path dart_package imports =
    if bytes_beq path file.path
    then imports
    else insert (dart_import path dart_package) true imports

unfoldable pub method_imports : FileDesc → Bytes → List MethodDesc → Map Bytes Bool → Map Bytes Bool
unfolding add_dart_import
method_imports file dart_package [] imports = imports
method_imports file dart_package (m ∷ ms) imports = method_imports file dart_package ms (
    add_dart_import file m.output.file_path dart_package
      (add_dart_import file m.input.file_path dart_package imports))

unfoldable pub service_imports :
    FileDesc → List Bytes → Bytes → List ServiceDesc → Map Bytes Bool → Map Bytes Bool
unfolding method_imports should_generate_service
service_imports file wanted dart_package [] imports = imports
service_imports file wanted dart_package (s ∷ ss) imports =
    service_imports file wanted dart_package ss (
      if should_generate_service s.go_name wanted
      then method_imports file dart_package s.methods imports
      else imports)

abbrev pub entries : Map Bytes Bytes → List GoImport
entries = map (λ e. record { alias = e.1; path = e.0 })

unfoldable pub build_file_data :
    (Bytes → Bytes)
    → (Map Bytes Bytes → Map Bytes Bytes)
    → (List GoImport → List GoImport)
    → (List Bytes → List Bytes)
    → FileDesc
    → List Bytes
    → Bytes
    → Bytes
    → FileData
unfolding build_services has_streaming service_imports trim_suffix replace_all to_upper
    output_filename
build_file_data file_base order sort sort_strings file wanted lang mode =
    let is_dart = bytes_beq lang (str "dart") in
    let is_cpp = bytes_beq lang (str "cpp") in
    let base = trim_suffix (file_base file.path) (str ".proto") in
    let guard = trim_suffix (output_filename file.path (str "cpp")) (str ".h") in
    let (imports, services) = build_services file wanted file.services [] in
    record {
      package_name = file.package_name;
      go_package_name = file.go_package_name;
      services = services;
      has_streaming = has_streaming services;
      dart_package = if is_dart then mode else [];
      external_imports =
          if is_dart
          then sort_strings (map (λ e. e.0) (service_imports file wanted mode file.services []))
          else [];
      go_imports = sort (entries (order imports));
      pb_dart_file = if is_dart then base ++ str ".pb.dart" else [];
      pb_header_file = if is_cpp then base ++ str ".pb.h" else [];
      cpp_namespace = if is_cpp then replace_all file.package_name b'.' (str "::") else [];
      cpp_guard_name =
          if is_cpp then to_upper (replace_all guard b'.' (str "_")) ++ str "_H_" else [];
      rust_mod_path =
          if bytes_beq lang (str "rust") then replace_all file.package_name b'.' (str "_") else [];
    }
