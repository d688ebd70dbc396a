-- ===== src/Debug/Receivers.antt =====
-- pkg/debug/goroutine_tracker.go: the name of a frame whose function is a method of a pointer type.
use synurang.Common.{
  ℕ, ◌≡◌, refl, Bool, false, Bytes, [], ◌∷◌, ◌++◌, some, arith, str, bytes_beq, length, take,
  nat_beq, ◌||◌,
}
use synurang.Codegen.Names.{has_prefix}
use synurang.Debug.Text.{index, cut_at, trim_space}
use synurang.Debug.Block.{frame_name}

unfoldable pub has_paren : Bytes → Bool
has_paren [] = false
has_paren (c ∷ s) = nat_beq c b'(' || has_paren s

index-paren :
    (p rest : Bytes) → has_paren p ≡ false → index (p ++ (b'(' ∷ rest)) (str "(") ≡ some (length p)
unfolding index has_prefix has_paren bytes_beq
index-paren [] rest h = ground arith
index-paren (c ∷ p) rest h = ground (arith, index-paren p rest)

take-append : (p rest : Bytes) → take (length p) (p ++ rest) ≡ p
take-append [] rest = refl
take-append (c ∷ p) rest = ground (arith, take-append p rest)

has_paren-dot : (p : Bytes) → has_paren (p ++ str ".") ≡ has_paren p
unfolding has_paren
has_paren-dot [] = ground arith
has_paren-dot (c ∷ p) = ground (arith, has_paren-dot p)

append_dot : (p rest : Bytes) → (p ++ str ".") ++ (b'(' ∷ rest) ≡ p ++ (str ".(" ++ rest)
append_dot [] rest = refl
append_dot (c ∷ p) rest = ground (arith, append_dot p rest)

-- The method of a pointer type is printed as `path.(*Type).Method(...)`, and the line of a function is cut
-- at its first parenthesis: every such method of a package has the same name, which is the package and a
-- dot, whatever its type and its own name. The package has no parenthesis, and the line no space around
-- it.
pub methods_share_name :
    (c : ℕ) (path type_and_method : Bytes)
    → has_paren (c ∷ path) ≡ false
    → trim_space ((c ∷ path) ++ (str ".(" ++ type_and_method))
      ≡ (c ∷ path) ++ (str ".(" ++ type_and_method)
    → frame_name ((c ∷ path) ++ (str ".(" ++ type_and_method)) ≡ (c ∷ path) ++ str "."
unfolding frame_name cut_at
methods_share_name c path rest h trimmed =
    let p = (c ∷ path) ++ str "." in
    ground (
      arith,
      trimmed,
      append_dot (c ∷ path) rest,
      has_paren-dot (c ∷ path),
      index-paren p rest,
      take-append p (b'(' ∷ rest),
    )
