-- ===== src/Prelude/Bytes.antt =====
-- Python's `bytes` as lists of numbers below 256: slices, comparison and `struct` packing.
use Prim.Native.Nat.{ℕ, zero, suc, ◌+◌, ◌*◌, ◌/◌, ◌%◌, ◌^◌, ◌<◌}
use mathlib.Core.Path.{◌≡◌, refl}
use mathlib.Core.Logic.{◌↔◌}
use mathlib.Core.Bool.{Bool, true, false, ◌&&◌}
use mathlib.Core.List.{List, [], ◌∷◌, ◌++◌}
use native.Mathlib.Nat.{pow-suc}
use native.Mathlib.Omega.{arith}
use ganglion_oob.Prelude.Tests.{◌==◌}
use ganglion_oob.Prelude.Lists.{length, length-append}

abbrev pub Bytes : Type 0
Bytes = List ℕ

abbrev pub IsBytes : Bytes → Type 0
IsBytes [] = Unit
IsBytes (x ∷ xs) = (x < 256) × IsBytes xs

pub IsBytes-append : (xs ys : Bytes) → IsBytes xs → IsBytes ys → IsBytes (xs ++ ys)
IsBytes-append [] ys hx hy = hy
IsBytes-append (x ∷ xs) ys hx hy = (hx.0, IsBytes-append xs ys hx.1 hy)

-- `a == b`
unfoldable pub bytes_eq : Bytes → Bytes → Bool
bytes_eq [] [] = true
bytes_eq (x ∷ xs) (y ∷ ys) = x == y && bytes_eq xs ys
bytes_eq _ _ = false

pub bytes_eq_refl : (xs : Bytes) → bytes_eq xs xs ≡ true
unfolding bytes_eq
bytes_eq_refl [] = refl
bytes_eq_refl (x ∷ xs) = ground (arith, bytes_eq_refl xs)

pub bytes_eq-eq : (xs ys : Bytes) → bytes_eq xs ys ≡ true → xs ≡ ys
unfolding bytes_eq
bytes_eq-eq [] [] h = refl
bytes_eq-eq [] (y ∷ ys) h = cc
bytes_eq-eq (x ∷ xs) [] h = cc
bytes_eq-eq (x ∷ xs) (y ∷ ys) h = ground (arith, bytes_eq-eq xs ys)

-- `struct.pack` of an unsigned number in `k` bytes, big-endian: the number is below 256 ^ k.
unfoldable pub pack : ℕ → ℕ → Bytes
pack zero n = []
pack (suc k) n = pack k (n / 256) ++ (n % 256) ∷ []

pub length-pack : (k n : ℕ) → length (pack k n) ≡ k
unfolding pack
length-pack zero n = refl
length-pack (suc k) n =
    omega (arith, length-append {0} (pack k (n / 256)) ((n % 256) ∷ []), length-pack k (n / 256))

-- `struct.unpack` of such bytes.
unfoldable pub unpack_from : ℕ → Bytes → ℕ
unpack_from acc [] = acc
unpack_from acc (x ∷ xs) = unpack_from (acc * 256 + x) xs

unpack_from-append :
    (acc : ℕ) (xs : Bytes) (x : ℕ) → unpack_from acc (xs ++ x ∷ []) ≡ unpack_from acc xs * 256 + x
unfolding unpack_from
unpack_from-append acc [] x = refl
unpack_from-append acc (y ∷ xs) x = unpack_from-append (acc * 256 + y) xs x

high_part : (k n : ℕ) → n < 256 ^ suc k → n / 256 < 256 ^ k
high_part k n h = omega (arith, pow-suc 256 k)

pub unpack-pack : (k n : ℕ) → n < 256 ^ k → unpack_from 0 (pack k n) ≡ n
unfolding pack unpack_from
unpack-pack zero n h = omega arith
unpack-pack (suc k) n h =
    rw (unpack_from-append 0 (pack k (n / 256)) (n % 256))
      (rw (unpack-pack k (n / 256) (high_part k n h)) (omega arith))

pub pack-IsBytes : (k n : ℕ) → IsBytes (pack k n)
unfolding pack
pack-IsBytes zero n = tt
pack-IsBytes (suc k) n =
    IsBytes-append (pack k (n / 256)) _ (pack-IsBytes k (n / 256)) (omega arith, tt)

pub bytes_eq_iff : (xs ys : Bytes) → (bytes_eq xs ys ≡ true) ↔ (xs ≡ ys)
bytes_eq_iff xs ys = (bytes_eq-eq xs ys, λ e. rw e (bytes_eq_refl ys))
