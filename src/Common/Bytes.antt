-- ===== src/Common/Bytes.antt =====
-- Byte slices.
use Prim.Native.Nat.{ℕ}
use mathlib.Core.Path.{◌≡◌, refl}
use mathlib.Core.Bool.{Bool, true, false, ◌&&◌}
use mathlib.Core.List.{List, [], ◌∷◌}
use native.Mathlib.Omega.{arith}
use goph_keeper.Common.Tests.{ltb, ◌==◌, ==_iff}
use goph_keeper.Common.Lists.{length}

-- bytes.Equal
abbrev pub bytes_equal : List ℕ → List ℕ → Bool
bytes_equal [] [] = true
bytes_equal (a ∷ as') (b ∷ bs) = a == b && bytes_equal as' bs
bytes_equal _ _ = false

pub bytes_equal_refl : (xs : List ℕ) → bytes_equal xs xs ≡ true
bytes_equal_refl [] = refl
bytes_equal_refl (x ∷ xs) = ground (arith, ==_iff x x, bytes_equal_refl xs)

pub bytes_equal_eq : (xs ys : List ℕ) → bytes_equal xs ys ≡ true → xs ≡ ys
bytes_equal_eq [] [] h = refl
bytes_equal_eq [] (y ∷ ys) h = absurd cc
bytes_equal_eq (x ∷ xs) [] h = absurd cc
bytes_equal_eq (x ∷ xs) (y ∷ ys) h = ground (arith, ==_iff x y, bytes_equal_eq xs ys)

-- An empty slice that comes from a message is nil, which the driver writes as NULL.
abbrev pub is_filled : List ℕ → Bool
is_filled xs = ltb 0 (length xs)
