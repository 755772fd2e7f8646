-- ===== src/Libag/Results/Joined.antt =====
-- `get_thrd_results` joins the lists of the threads, in the order of the threads.
use libag.Common.{
  ℕ, ◌+◌, ◌≡◌, refl, sym, ◌∙◌, true, Option, none, some, List, [], ◌∷◌, ◌++◌, append-nil,
  append_assoc, length, length-append, ◌==◌, if◌then◌else◌, arith,
}
use libag.Libag.Results.{
  AgResult, ThrdResult, count_results, append_results, get_thrd_results, reset_local_results,
}

-- The results of all threads, one thread after the other.
unfoldable pub joined : List ThrdResult → List AgResult
joined [] = []
joined (t ∷ ts) = t.results ++ joined ts

append_results-joined :
    (slots : List ThrdResult) (rslt : List AgResult)
    → append_results slots rslt ≡ rslt ++ joined slots
unfolding append_results joined
append_results-joined [] rslt = sym (append-nil rslt)
append_results-joined (t ∷ ts) rslt =
    append_results-joined ts (rslt ++ t.results) ∙ append_assoc rslt t.results (joined ts)

count_results-joined :
    (slots : List ThrdResult) (n : ℕ) → count_results slots n ≡ n + length (joined slots)
unfolding count_results joined
count_results-joined [] n = omega arith
count_results-joined (t ∷ ts) n =
    omega (
      arith,
      count_results-joined ts (n + length t.results),
      length-append {0} t.results (joined ts),
    )

-- NULL for no result, else the list.
pub or_null : List AgResult → Option (List AgResult)
or_null [] = none
or_null (r ∷ rs) = some (r ∷ rs)

abbrev Answer : Type 0
Answer = Option (List AgResult) × ℕ

answer :
    (rs : List AgResult)
    → ◌≡◌ {A = Answer}
        (if length rs == 0 then (none, length rs) else (some rs, length rs))
        (or_null rs, length rs)
unfolding or_null
answer [] = refl
answer (r ∷ rs) = ground arith

-- With the memory for it a search gets every result of every thread once, in the order of the
-- threads, with their number; NULL and 0 if there is none.
pub get_thrd_results-joined :
    (slots : List ThrdResult)
    → get_thrd_results true slots ≡ (or_null (joined slots), length (joined slots))
unfolding get_thrd_results
get_thrd_results-joined slots =
    rw (append_results-joined slots []) (rw count (answer (joined slots)))
  where
    count : count_results slots 0 ≡ length (joined slots)
    count = omega (arith, count_results-joined slots 0)

-- After a reset nothing is left to join.
pub joined-reset_local_results : (slots : List ThrdResult) → joined (reset_local_results slots) ≡ []
unfolding joined reset_local_results
joined-reset_local_results [] = refl
joined-reset_local_results (t ∷ ts) = joined-reset_local_results ts
