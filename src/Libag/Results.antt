-- ===== src/Libag/Results.antt =====
-- The per-thread results of libag.c: `add_local_result`, `reset_local_results`, `get_thrd_results`.
pub mod Added
pub mod Joined
use libag.Common.{
  ℕ, zero, suc, ◌+◌, ◌-◌, ◌*◌, ◌%◌, ◌^◌, Bool, true, false, ◌&&◌, ◌||◌, Option, none, some, List,
  [], ◌∷◌, ◌++◌, map, length, take, drop, ltb, leb, ◌==◌, if◌then◌else◌, Run, done, fault, ◌>>=◌,
}
use libag.Cstr.{Str}

-- `match_t` of ag_src/util.h
pub record Match : Type 0 where
  pub start : ℕ
  pub end : ℕ

-- `struct ag_match` of libag.h
pub record AgMatch : Type 0 where
  pub byte_start : ℕ
  pub byte_end : ℕ
  pub text : List ℕ

pub data Flag : Type 0 where
  text_file binary_file : Flag

-- `struct ag_result`; `nmatches` is the length of the list.
pub record AgResult : Type 0 where
  pub file : Str
  pub matches : List AgMatch
  pub flags : Flag

-- `struct thrd_result`; the list holds the first `nresults` cells of an array of `capacity` cells.
pub record ThrdResult : Type 0 where
  pub capacity : ℕ
  pub results : List AgResult

-- `size_t` subtraction.
abbrev pub sub_size : ℕ → ℕ → ℕ
sub_size a b = (a + 2 ^ 64 - b) % 2 ^ 64

-- `memcpy` of the bytes from `start` to `end`, which must lie in the buffer.
unfoldable pub copy_bytes : List ℕ → Match → Run (List ℕ)
copy_bytes buf m =
    if leb m.start m.end && leb m.end (length buf)
    then done (take (m.end - m.start) (drop m.start buf))
    else fault

-- Whether the n-th allocation of the call succeeds.
abbrev pub Memory : Type 0
Memory = ℕ → Bool

-- The loop over the matches; `none` is the return of -1. The struct of a match is written without a
-- test of its allocation.
unfoldable pub copy_matches : Memory → ℕ → List ℕ → List Match → Run (Option (List AgMatch))
copy_matches memory n buf [] = done (some [])
copy_matches memory n buf (m ∷ ms) =
    let rest = copy_matches memory (n + 2) buf ms in
    let copied : Run (Option (List AgMatch)) = copy_bytes buf m >>= λ bytes. rest >>= λ more.
    done (elim more as (λ _. Option (List AgMatch)) [
      | some list ↦
          some (record { byte_start = m.start; byte_end = sub_size m.end 1; text = bytes } ∷ list)
      | none ↦ none
    ]) in
    if memory n then if memory (n + 1) then copied else done none else fault

pub data Status : Type 0 where
  ok failed : Status

-- "Grow."; the Boolean says whether `realloc` was needed and failed.
unfoldable pub grow : Memory → ThrdResult → ThrdResult × Bool
grow memory t =
    if leb t.capacity (length t.results)
    then if memory 0 then (record t { capacity = t.capacity * 2 }, false) else (t, true)
    else (t, false)

-- Allocations 1 to 3 are the result, the file's name and the array of matches.
unfoldable pub store_result :
    Memory → ThrdResult → Str → List Match → List ℕ → Flag → Run (Status × ThrdResult)
store_result memory t name ms buf flag =
    let copied : Run (Status × ThrdResult) = copy_matches memory 4 buf ms >>= λ copies.
    done (elim copies as (λ _. Status × ThrdResult) [
      | some list ↦ (
        ok,
        record t {
          results = t.results ++ (record { file = name; matches = list; flags = flag } ∷ []);
        },
      )
      | none ↦ (failed, t)
    ]) in
    if memory 1 && (memory 2 && memory 3) then copied else done (failed, t)

unfoldable pub add_local_result :
    Memory → ThrdResult → Str → List Match → List ℕ → Flag → Run (Status × ThrdResult)
add_local_result memory t name [] buf flag = done (ok, t)
add_local_result memory t name (m ∷ ms) buf flag =
    let (grown, no_room) = grow memory t in
    if no_room then done (failed, grown) else store_result memory grown name (m ∷ ms) buf flag

-- "Get the results amount."
unfoldable pub count_results : List ThrdResult → ℕ → ℕ
count_results [] nresults = nresults
count_results (t ∷ ts) nresults = count_results ts (nresults + length t.results)

-- "Add the results."
unfoldable pub append_results : List ThrdResult → List AgResult → List AgResult
append_results [] rslt = rslt
append_results (t ∷ ts) rslt = append_results ts (rslt ++ t.results)

-- The list with the count that goes through `nresults_ret`; `none` is NULL.
unfoldable pub get_thrd_results : Bool → List ThrdResult → Option (List AgResult) × ℕ
get_thrd_results memory slots =
    let nresults = count_results slots 0 in
    if nresults == 0
    then (none, nresults)
    else if memory
    then (some (append_results slots []), nresults)
    else (none, nresults)

-- `reset_local_results`: every slot is emptied. Without `reset` no array is allocated.
unfoldable pub reset_local_results : List ThrdResult → List ThrdResult
reset_local_results [] = []
reset_local_results (t ∷ ts) = record { capacity = 100; results = [] } ∷ reset_local_results ts
