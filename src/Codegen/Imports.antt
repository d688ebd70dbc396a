-- ===== src/Codegen/Imports.antt =====
-- cmd/protoc-gen-synurang-ffi/main.go: the imports of a generated Go file are a list that depends on
-- the file alone.
use synurang.Common.{
  ℕ, zero, suc, sym, ◌∙◌, ap, ◌||◌, ◌+◌, ◌-◌, ◌≤◌, ◌≡◌, refl, Bool, true, false, Bytes, Map, List,
  [], ◌∷◌, arith, All, bytes_beq, bytes_beq_iff, beq_refl, ltb, ◌&&◌, if◌then◌else◌, insert,
  bytes_eq, Bool-cases, ◌⊎◌, inl, inr, ap₂,
}
use synurang.Codegen.Names
use synurang.Codegen.Build.{
  should_generate_service, GoImport, Message, MethodDesc, ServiceDesc, FileDesc, entries,
  qualify_go_type, build_method, build_methods, build_services, build_file_data,
}

-- Go's `<` on strings.
abbrev pub bytes_ltb : Bytes → Bytes → Bool
bytes_ltb xs [] = false
bytes_ltb [] (y ∷ ys) = true
bytes_ltb (x ∷ xs) (y ∷ ys) = if ltb x y then true else if ltb y x then false else bytes_ltb xs ys

bytes_ltb_antisymm : (a b : Bytes) → bytes_ltb a b ≡ false → bytes_ltb b a ≡ false → a ≡ b
bytes_ltb_antisymm [] [] h k = refl
bytes_ltb_antisymm [] (y ∷ ys) h k = absurd (ground arith)
bytes_ltb_antisymm (x ∷ xs) [] h k = absurd (ground arith)
bytes_ltb_antisymm (x ∷ xs) (y ∷ ys) h k = ground (arith, bytes_ltb_antisymm xs ys)

abbrev pub total {ℓ} : {A : Type ℓ} → (A → ℕ) → List A → ℕ
total f [] = 0
total f (x ∷ xs) = f x + total f xs

-- Ascending by the path.
abbrev pub IsAscending : List GoImport → Type 0
IsAscending [] = Unit
IsAscending (x ∷ xs) = All (λ y. bytes_ltb y.path x.path ≡ false) xs × IsAscending xs

-- What the code relies on: `sort.Slice` puts the entries in ascending order and a map is visited once at
-- each entry: any sum over the entries is what it was.
pub record Sorts (sort : List GoImport → List GoImport) : Type 0 where
  pub ascending : (xs : List GoImport) → IsAscending (sort xs)
  pub same : (xs : List GoImport) (f : GoImport → ℕ) → total f (sort xs) ≡ total f xs

pub record Visits (order : Map Bytes Bytes → Map Bytes Bytes) : Type 0 where
  pub same : (m : Map Bytes Bytes) (f : Bytes × Bytes → ℕ) → total f (order m) ≡ total f m

abbrev is : GoImport → GoImport → ℕ
is x e = if bytes_beq e.path x.path && bytes_beq e.alias x.alias then 1 else 0

abbrev has_path : Bytes → GoImport → ℕ
has_path p e = if bytes_beq e.path p then 1 else 0

is_lem : (x e : GoImport) → 1 ≤ is x e → e ≡ x
is_lem x e h = ground (arith, bytes_beq_iff e.path x.path, bytes_beq_iff e.alias x.alias)

is_self : (x : GoImport) → is x x ≡ 1
is_self x = ground (arith, beq_refl x.path, beq_refl x.alias)

-- An entry that occurs has what all entries have, and its path occurs.
total-All :
    (x : GoImport) (k : Bytes) (xs : List GoImport)
    → 1 ≤ total (is x) xs
    → All (λ y. bytes_ltb y.path k ≡ false) xs
    → bytes_ltb x.path k ≡ false
total-All x k [] h a = absurd (omega arith)
total-All x k (e ∷ xs) h a = ground (arith, is_lem x e, total-All x k xs)

total-path : (x : GoImport) (xs : List GoImport) → total (is x) xs ≤ total (has_path x.path) xs
total-path x [] = omega arith
total-path x (e ∷ xs) = ground (arith, total-path x xs)

none_or_some : (n : ℕ) → (n ≡ 0) ⊎ (1 ≤ n)
none_or_some zero = inl refl
none_or_some (suc n) = inr (omega arith)

heads :
    (x y : GoImport) (xs ys : List GoImport)
    → IsAscending (x ∷ xs)
    → IsAscending (y ∷ ys)
    → ((f : GoImport → ℕ) → total f (x ∷ xs) ≡ total f (y ∷ ys))
    → total (has_path x.path) (x ∷ xs) ≤ 1
    → x ≡ y
heads x y xs ys ax ay same few = elim (none_or_some (is x y)) [
  | inr found ↦ sym (is_lem x y found)
  | inl missing ↦ elim (none_or_some (is y x)) [
    | inr found ↦ is_lem y x found
    | inl missing' ↦
        let below = total-All x y.path ys (omega (arith, same (is x), is_self x)) ay.0 in
        let above : 1 ≤ total (is y) xs = omega (arith, same (is y), is_self y) in
        let path = bytes_ltb_antisymm x.path y.path below (total-All y x.path xs above ax.0) in
        let there = total-path y xs in
        absurd (ground (arith, path, there, above, few, beq_refl x.path))
  ]
]

-- Two ascending lists with the same entries, and no path twice, are one list.
ascending_unique :
    (xs ys : List GoImport)
    → IsAscending xs
    → IsAscending ys
    → ((f : GoImport → ℕ) → total f xs ≡ total f ys)
    → ((p : Bytes) → total (has_path p) xs ≤ 1)
    → xs ≡ ys
ascending_unique [] [] ax ay same few = refl
ascending_unique [] (y ∷ ys) ax ay same few = absurd (omega (arith, same (λ e. 1)))
ascending_unique (x ∷ xs) [] ax ay same few = absurd (omega (arith, same (λ e. 1)))
ascending_unique (x ∷ xs) (y ∷ ys) ax ay same few =
    let head = heads x y xs ys ax ay same (few x.path) in
    let rest : (f : GoImport → ℕ) → total f xs ≡ total f ys =
      λ f. omega (arith, same f, ap f head) in
    ap₂ ◌∷◌ head (ascending_unique xs ys ax.1 ay.1 rest (λ p. omega (arith, few p)))

-- A map that the code fills has each path once.
abbrev has_key : Bytes → Bytes × Bytes → ℕ
has_key p e = if bytes_beq e.0 p then 1 else 0

abbrev Once : Map Bytes Bytes → Type 0
Once m = (p : Bytes) → total (has_key p) m ≤ 1

insert-total :
    (p k a : Bytes) (m : Map Bytes Bytes)
    → total (has_key p) (insert k a m) ≡ (
        if bytes_beq k p
        then (1 - total (has_key p) m) + total (has_key p) m
        else total (has_key p) m)
unfolding insert
insert-total p k a [] = ground (arith, bytes_beq_iff k p)
insert-total p k a ((j, w) ∷ m) =
    ground (arith, bytes_beq_iff k p, bytes_beq_iff j k, bytes_beq_iff j p, insert-total p k a m)

insert-Once : (k a : Bytes) (m : Map Bytes Bytes) → Once m → Once (insert k a m)
insert-Once k a m h p = ground (arith, insert-total p k a m, h p)

qualify-Once :
    (file : FileDesc) (t : Message) (add : Bool) (m : Map Bytes Bytes)
    → Once m
    → Once (qualify_go_type file t add m).0
unfolding qualify_go_type
qualify-Once file t add m h p =
    ground
      (arith, h p, insert-Once t.go_import_path (Names.go_package_alias t.go_import_path) m h p)

methods-Once :
    (file : FileDesc) (s : ServiceDesc) (ms : List MethodDesc) (m : Map Bytes Bytes)
    → Once m
    → Once (build_methods file s ms m).0
unfolding build_methods build_method
methods-Once file s [] m h = h
methods-Once file s (d ∷ ds) m h =
    let streams = d.streaming_server || d.streaming_client in
    let first = qualify-Once file d.input true m h in
    methods-Once file s ds (build_method file s d m).0
      (qualify-Once file d.output streams (qualify_go_type file d.input true m).0 first)

services-Once :
    (file : FileDesc) (wanted : List Bytes) (ss : List ServiceDesc) (m : Map Bytes Bytes)
    → Once m
    → Once (build_services file wanted ss m).0
unfolding build_services
services-Once file wanted [] m h p = h p
services-Once file wanted (s ∷ ss) m h p =
    elim (Bool-cases (should_generate_service s.go_name wanted)) [
      | inl yes_ ↦ rw yes_ (
          services-Once file wanted ss (build_methods file s s.methods m).0
            (methods-Once file s s.methods m h) p)
      | inr no_ ↦ rw no_ (services-Once file wanted ss m h p)
    ]

total-entries :
    (f : GoImport → ℕ) (m : Map Bytes Bytes)
    → total f (entries m) ≡ total (λ e. f (record { alias = e.1; path = e.0 })) m
total-entries f [] = refl
total-entries f (e ∷ m) = omega (arith, total-entries f m)

-- The imports of a generated Go file do not depend on the order in which the runtime visits the map of
-- imports, nor on how the sort treats equal elements: for all such orders and sorts they are one list.
pub go_imports-eq :
    (base : Bytes → Bytes) (strings : List Bytes → List Bytes)
    (order order' : Map Bytes Bytes → Map Bytes Bytes) (sort sort' : List GoImport → List GoImport)
    (file : FileDesc) (wanted : List Bytes) (lang mode : Bytes)
    → Visits order
    → Visits order'
    → Sorts sort
    → Sorts sort'
    → (build_file_data base order sort strings file wanted lang mode).go_imports
      ≡ (build_file_data base order' sort' strings file wanted lang mode).go_imports
unfolding build_file_data
go_imports-eq base strings order order' sort sort' file wanted lang mode vo vo' so so' =
    let m = (build_services file wanted file.services []).0 in
    let each : (sort : List GoImport → List GoImport) (order : Map Bytes Bytes → Map Bytes Bytes)
        → Sorts sort
        → Visits order
        → (f : GoImport → ℕ) → total f (sort (entries (order m))) ≡ total f (entries m) =
      λ sort order so vo f.
        so.same (entries (order m)) f
        ∙ (total-entries f (order m)
            ∙ (vo.same m (λ e. f (record { alias = e.1; path = e.0 }))
                ∙ sym (total-entries f m))) in
    ascending_unique (sort (entries (order m))) (sort' (entries (order' m)))
      (so.ascending (entries (order m))) (so'.ascending (entries (order' m)))
      (λ f. each sort order so vo f ∙ sym (each sort' order' so' vo' f))
      (λ p. omega (
        arith,
        each sort order so vo (has_path p),
        total-entries (has_path p) m,
        services-Once file wanted file.services [] (λ p. omega arith) p,
      ))
