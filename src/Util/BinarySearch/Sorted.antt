-- ===== src/Util/BinarySearch/Sorted.antt =====
-- Arrays in the order of `strcmp`.
use libag.Common.{ℕ, zero, suc, ◌≤◌, ◌<◌, List, [], ◌∷◌, All, All-get_or, length, get_or, arith}
use libag.Cstr.{Str}
use libag.Cstr.Order.{LeStr, LeStr-refl}

abbrev pub IsSorted : List Str → Type 0
IsSorted [] = Unit
IsSorted (x ∷ xs) = All (LeStr x) xs × IsSorted xs

-- The order by positions, which a search uses.
pub IsSorted-LeStr :
    (xs : List Str) (i j : ℕ) (d : Str)
    → IsSorted xs
    → i ≤ j
    → j < length xs
    → LeStr (get_or xs i d) (get_or xs j d)
IsSorted-LeStr [] i j d s le lt = absurd (omega arith)
IsSorted-LeStr (x ∷ xs) zero zero d s le lt = LeStr-refl x
IsSorted-LeStr (x ∷ xs) zero (suc j) d s le lt = All-get_or (LeStr x) xs j d s.0 (omega arith)
IsSorted-LeStr (x ∷ xs) (suc i) zero d s le lt = absurd (omega arith)
IsSorted-LeStr (x ∷ xs) (suc i) (suc j) d s le lt =
    IsSorted-LeStr xs i j d s.1 (omega arith) (omega arith)
