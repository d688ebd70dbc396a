-- ===== src/Common/Counting.antt =====
-- How often a number stands in a list, and among the keys of a map.
use synurang.Common.{
  ℕ, ◌+◌, ◌≤◌, ◌≡◌, Map, List, [], ◌∷◌, ◌++◌, some, arith, map, insert, remove, lookup, nat_beq,
  if◌then◌else◌, nat_eq,
}

unfoldable pub count : ℕ → List ℕ → ℕ
count h [] = 0
count h (k ∷ ks) = (if nat_beq k h then 1 else 0) + count h ks

abbrev pub keys {ℓ} : {V : Type ℓ} → Map ℕ V → List ℕ
keys = map (λ e. e.0)

pub count-append : (h : ℕ) (xs ys : List ℕ) → count h (xs ++ ys) ≡ count h xs + count h ys
unfolding count
count-append h [] ys = ground arith
count-append h (x ∷ xs) ys = ground (arith, count-append h xs ys)

pub count-insert {ℓ} :
    {V : Type ℓ} (h k : ℕ) (b : V) (m : Map ℕ V)
    → count k (keys m) ≡ 0
    → count h (keys (insert k b m)) ≡ count h (keys m) + (if nat_beq k h then 1 else 0)
unfolding count insert
count-insert h k b [] e = ground arith
count-insert h k b ((j, w) ∷ m) e = ground (arith, count-insert h k b m)

pub count-remove {ℓ} :
    {V : Type ℓ} (h k : ℕ) (m : Map ℕ V)
    → count h (keys (remove k m)) ≡ (if nat_beq k h then 0 else count h (keys m))
unfolding count remove
count-remove h k [] = ground arith
count-remove h k ((j, w) ∷ m) = ground (arith, count-remove h k m)

pub count-lookup {ℓ} :
    {V : Type ℓ} (k : ℕ) (b : V) (m : Map ℕ V) → lookup k m ≡ some b → 1 ≤ count k (keys m)
unfolding count lookup
count-lookup k b [] e = absurd (ground arith)
count-lookup k b ((j, w) ∷ m) e = ground (arith, count-lookup k b m)

pub keys-append {ℓ} :
    {V : Type ℓ} (h : ℕ) (xs ys : Map ℕ V)
    → count h (keys (xs ++ ys)) ≡ count h (keys xs) + count h (keys ys)
unfolding count
keys-append h [] ys = ground arith
keys-append h (x ∷ xs) ys = ground (arith, keys-append h xs ys)
