-- ===== src/Codegen/Tests.antt =====
-- Runs of the code generator's functions on names and files.
use synurang.Common.{
  ℕ, ◌+◌, ◌≡◌, refl, true, false, Bytes, Map, List, [], ◌∷◌, ◌++◌, arith, All, str, ltb, bytes_beq,
  insert, if◌then◌else◌, bytes_eq,
}
use synurang.Codegen.Names.{to_snake_case, output_filename}
use synurang.Codegen.Build.{GoImport, Message, FileDesc, build_file_data}
use synurang.Codegen.Imports.{bytes_ltb, total, IsAscending, Sorts, go_imports-eq}

-- A sort by insertion, and a map visited backwards.
ltb_irrefl : (x y : ℕ) → ltb x y ≡ true → ltb y x ≡ false
ltb_irrefl x y h = ground arith

bytes_ltb_trans :
    (a b c : Bytes) → bytes_ltb b a ≡ false → bytes_ltb c b ≡ false → bytes_ltb c a ≡ false
bytes_ltb_trans [] b [] h k = refl
bytes_ltb_trans [] b (z ∷ c) h k = refl
bytes_ltb_trans (x ∷ a) [] c h k = absurd (ground arith)
bytes_ltb_trans (x ∷ a) (y ∷ b) [] h k = absurd (ground arith)
bytes_ltb_trans (x ∷ a) (y ∷ b) (z ∷ c) h k = ground (arith, bytes_ltb_trans a b c)

bytes_ltb_asym : (a b : Bytes) → bytes_ltb a b ≡ true → bytes_ltb b a ≡ false
bytes_ltb_asym [] [] h = refl
bytes_ltb_asym [] (y ∷ b) h = refl
bytes_ltb_asym (x ∷ a) [] h = absurd (ground arith)
bytes_ltb_asym (x ∷ a) (y ∷ b) h = ground (arith, bytes_ltb_asym a b)

abbrev insert_import : GoImport → List GoImport → List GoImport
insert_import x [] = x ∷ []
insert_import x (y ∷ ys) =
    let rest = insert_import x ys in if bytes_ltb y.path x.path then y ∷ rest else x ∷ y ∷ ys

abbrev sorted : List GoImport → List GoImport
sorted [] = []
sorted (x ∷ xs) = insert_import x (sorted xs)

abbrev AllFrom : Bytes → List GoImport → Type 0
AllFrom p = All (λ y. bytes_ltb y.path p ≡ false)

AllFrom-trans :
    (p q : Bytes) (ys : List GoImport) → bytes_ltb q p ≡ false → AllFrom q ys → AllFrom p ys
AllFrom-trans p q [] h a = tt
AllFrom-trans p q (y ∷ ys) h a = (bytes_ltb_trans p q y.path h a.0, AllFrom-trans p q ys h a.1)

insert-AllFrom :
    (p : Bytes) (x : GoImport) (ys : List GoImport)
    → bytes_ltb x.path p ≡ false
    → AllFrom p ys
    → AllFrom p (insert_import x ys)
insert-AllFrom p x [] h a = (h, tt)
insert-AllFrom p x (y ∷ ys) h a = ground (arith, insert-AllFrom p x ys)

insert-IsAscending :
    (x : GoImport) (ys : List GoImport) → IsAscending ys → IsAscending (insert_import x ys)
insert-IsAscending x [] h = (tt, tt)
insert-IsAscending x (y ∷ ys) h = ground (
  arith,
  insert-IsAscending x ys h.1,
  bytes_ltb_asym y.path x.path,
  insert-AllFrom y.path x ys,
  AllFrom-trans x.path y.path ys,
)

insert-sum :
    (f : GoImport → ℕ) (x : GoImport) (ys : List GoImport)
    → total f (insert_import x ys) ≡ f x + total f ys
insert-sum f x [] = refl
insert-sum f x (y ∷ ys) = ground (arith, insert-sum f x ys)

sorted-IsAscending : (xs : List GoImport) → IsAscending (sorted xs)
sorted-IsAscending [] = tt
sorted-IsAscending (x ∷ xs) = insert-IsAscending x (sorted xs) (sorted-IsAscending xs)

sorted-sum : (xs : List GoImport) (f : GoImport → ℕ) → total f (sorted xs) ≡ total f xs
sorted-sum [] f = refl
sorted-sum (x ∷ xs) f = omega (arith, insert-sum f x (sorted xs), sorted-sum xs f)

sorted-Sorts : Sorts sorted
sorted-Sorts = record { ascending = sorted-IsAscending; same = sorted-sum }

abbrev backwards : Map Bytes Bytes → Map Bytes Bytes
backwards [] = []
backwards (e ∷ m) = backwards m ++ e ∷ []

end-sum :
    (f : Bytes × Bytes → ℕ) (m : Map Bytes Bytes) (e : Bytes × Bytes)
    → total f (m ++ e ∷ []) ≡ f e + total f m
end-sum f [] e = refl
end-sum f (x ∷ m) e = omega (arith, end-sum f m e)

backwards-sum : (m : Map Bytes Bytes) (f : Bytes × Bytes → ℕ) → total f (backwards m) ≡ total f m
backwards-sum [] f = refl
backwards-sum (e ∷ m) f = omega (arith, end-sum f (backwards m) e, backwards-sum m f)

abbrev user : Message
user = record {
  go_name = str "User";
  go_import_path = str "a.com/user/v1";
  file_path = str "user.proto";
}

abbrev order_ : Message
order_ = record {
  go_name = str "Order";
  go_import_path = str "a.com/order";
  file_path = str "order.proto";
}

abbrev shop : FileDesc
shop = record {
  path = str "api/shop.proto";
  package_name = str "shop.v1";
  go_package_name = str "shop";
  go_import_path = str "a.com/shop";
  services =
      record {
        name = str "Shop";
        go_name = str "Shop";
        methods =
            record {
              name = str "Buy";
              go_name = str "Buy";
              input = user;
              output = order_;
              streaming_server = true;
              streaming_client = false;
            }
            ∷ [];
      }
      ∷ [];
}

to_snake_case_test : to_snake_case (str "GetUserInfo") ≡ str "get_user_info"
unfolding to_snake_case
to_snake_case_test = refl

output_filename_test : output_filename (str "api/v1/core.proto") (str "go") ≡ str "core_ffi.pb.go"
unfolding output_filename bytes_beq
output_filename_test = refl

abbrev imports_of : (Map Bytes Bytes → Map Bytes Bytes) → List GoImport
unfolding build_file_data
imports_of visit =
    (build_file_data (λ p. p) visit sorted (λ xs. xs) shop [] (str "go") []).go_imports

imports_of_test :
    imports_of (λ m. m)
    ≡ record { alias = str "order"; path = str "a.com/order" }
      ∷ record { alias = str "v1"; path = str "a.com/user/v1" }
      ∷ []
unfolding imports_of build_file_data bytes_beq insert
imports_of_test = refl

go_imports-eq_example : imports_of (λ m. m) ≡ imports_of backwards
unfolding imports_of build_file_data
go_imports-eq_example =
    go_imports-eq (λ p. p) (λ xs. xs) (λ m. m) backwards sorted sorted shop [] (str "go") []
      (record { same = λ m f. refl }) (record { same = backwards-sum }) sorted-Sorts sorted-Sorts
