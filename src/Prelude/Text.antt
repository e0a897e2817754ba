-- ===== src/Prelude/Text.antt =====
-- A Go string as the list of its bytes.
use Prim.Native.Nat.{ℕ, suc}
use Prim.Native.String.{String}
use Prim.Native.Char.{code}
use mathlib.Core.Path.{◌≡◌, refl, ap}
use mathlib.Core.Bool.{Bool, true, false, ◌&&◌}
use mathlib.Core.List.{List, [], ◌∷◌, ◌++◌}
use executr.Prelude.Tests.{◌==◌, &&-right}
use executr.Prelude.Lists.{length, take, drop}

abbrev pub Bytes : Type 0
Bytes = List ℕ

-- The bytes of an ASCII literal.
abbrev pub ascii : String → Bytes
ascii String.[] = []
ascii (String.◌∷◌ c s) = code c ∷ ascii s

abbrev pub bytes_eq : Bytes → Bytes → Bool
bytes_eq [] [] = true
bytes_eq [] (y ∷ ys) = false
bytes_eq (x ∷ xs) [] = false
bytes_eq (x ∷ xs) (y ∷ ys) = (x == y) && bytes_eq xs ys

pub bytes_eq-length : (xs ys : Bytes) → bytes_eq xs ys ≡ true → length xs ≡ length ys
bytes_eq-length [] [] h = refl
bytes_eq-length [] (y ∷ ys) h = cc
bytes_eq-length (x ∷ xs) [] h = cc
bytes_eq-length (x ∷ xs) (y ∷ ys) h =
    ap suc (bytes_eq-length xs ys (&&-right (x == y) (bytes_eq xs ys) h))

pub take-front {ℓ} : {A : Type ℓ} (xs ys : List A) → take (length xs) (xs ++ ys) ≡ xs
take-front [] ys = refl
take-front (x ∷ xs) ys = ap (◌∷◌ x) (take-front xs ys)

pub drop-front {ℓ} : {A : Type ℓ} (xs ys : List A) → drop (length xs) (xs ++ ys) ≡ ys
drop-front [] ys = refl
drop-front (x ∷ xs) ys = drop-front xs ys
