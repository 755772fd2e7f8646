-- ===== src/Decompress/Zfile/Seek.antt =====
-- Seeking in a stream of ag_src/zfile.c.
use libag.Common.{
  ℕ, zero, suc, ◌+◌, ◌-◌, Bool, true, false, not, ◌&&◌, Option, none, some, [], ◌∷◌, ltb, ◌==◌,
  if◌then◌else◌, min,
}
use libag.Common.Int.{ℤ, pos, negsuc}
use libag.Decompress.{Codec}
use libag.Decompress.Zfile.{
  ZFile, inbuf_size, Outcome, returned, exits, aborts, unfinished, zfile_read, zfile_cookie_init,
}

module _ {S : Type 0} (codec : Codec S) where
  -- "Emulate forward seek by skipping"; the Boolean says whether the position was reached, which it
  -- is not at the end of the stream, and `none` is a return of -1.
  unfoldable pub skip_forward : ℕ → ℕ → ℕ → ZFile S → Outcome (Option Bool × ZFile S)
  skip_forward zero fuel new_offset z = unfinished
  skip_forward (suc rounds) fuel new_offset z =
      let read = zfile_read codec fuel (min inbuf_size (new_offset - z.logic_offset)) z in
      if ltb z.logic_offset new_offset
      then elim read as (λ _. Outcome (Option Bool × ZFile S)) [
        | returned (none, z') ↦ returned (none, z')
        | returned (some [], z') ↦ if z'.eof then returned (some false, z') else aborts
        | returned (some (x ∷ xs), z') ↦ skip_forward rounds fuel new_offset z'
        | exits ↦ exits
        | aborts ↦ aborts
        | unfinished ↦ unfinished
      ]
      else returned (some true, z)

-- `whence`
pub data Whence : Type 0 where
  seek_set seek_cur seek_end : Whence

-- "new_offset", or `none` where it is refused.
unfoldable pub target_offset : Whence → ℤ → ℕ → Option ℕ
target_offset seek_set (pos n) logic_offset = some n
target_offset seek_set (negsuc n) logic_offset = none
target_offset seek_cur (pos n) logic_offset = some (logic_offset + n)
target_offset seek_cur (negsuc n) logic_offset =
    if ltb n logic_offset then some (logic_offset - suc n) else none
target_offset seek_end offset logic_offset = none

module _ {S : Type 0} (codec : Codec S) where
  -- `zfile_seek`, with the position that goes through `*offset_`; `none` is a return of -1. A rewind
  -- sets up the decoder and leaves `in` where it is, and does not look at the error. The `malloc` of
  -- the skipped bytes is taken to succeed.
  unfoldable pub zfile_seek : ℕ → ℕ → ℤ → Whence → ZFile S → Outcome (Option ℕ × ZFile S)
  zfile_seek rounds fuel offset whence z =
      elim (target_offset whence offset z.logic_offset) as (λ _. Outcome (Option ℕ × ZFile S)) [
        | none ↦ returned (none, z)
        | some new_offset ↦
            let rewound =
              (zfile_cookie_init codec (record z { decode_offset = 0; logic_offset = 0 })).1 in
            if ltb new_offset z.logic_offset && not (new_offset == 0)
            then returned (none, z)
            else if new_offset == 0
            then returned (some 0, rewound)
            else elim (skip_forward codec rounds fuel new_offset z)
                as (λ _. Outcome (Option ℕ × ZFile S)) [
                  | returned (none, z') ↦ returned (none, z')
                  | returned (some reached, z') ↦
                      let at = if reached then new_offset else z'.logic_offset in
                      if z'.logic_offset == at then returned (some at, z') else aborts
                  | exits ↦ exits
                  | aborts ↦ aborts
                  | unfinished ↦ unfinished
                ]
      ]
