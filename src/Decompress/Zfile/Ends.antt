-- ===== src/Decompress/Zfile/Ends.antt =====
-- Where a stream of ag_src/zfile.c is read on behind the end of its decoder, and what a rewind does.
use libag.Common.{
  ℕ, suc, ◌^◌, ◌<◌, ◌≡◌, true, false, some, List, [], length, refl, &&-false, ltb, arith,
}
use libag.Common.Int.{pos}
use libag.Decompress.{Codec}
use libag.Decompress.Zfile.{ZFile, returned, exits, has_decoder, zfile_read, zfile_cookie_init}
use libag.Decompress.Zfile.Seek.{seek_set}
use libag.Decompress.Zfile.Seek.{zfile_seek, target_offset}
use libag.Decompress.Zfile.Reads.{read-exits}
use libag.Decompress.Zfile.Rounds.{ended}
use libag.Decompress.Zfile.Rounds.{Ended, state_at}

module _ {S : Type 0} (codec : Codec S) where
  -- Where an earlier read has met the end of the stream and has left a part of the content, a read of
  -- more than that part ends the process: the code forgets between two reads that the stream has
  -- ended, and takes the file for truncated.
  pub zfile_read-exits :
      {z : ZFile S} {rest : List ℕ} (size fuel : ℕ)
      → Ended codec z rest
      → length rest < size
      → size < 2 ^ 63
      → zfile_read codec (suc fuel) size z ≡ exits
  zfile_read-exits size fuel (ended {outbuf = outbuf} {start = start} inside) short small =
      read-exits codec _ _ outbuf _ _ start size fuel inside short small

  -- A rewind of a stream whose file is read to its end succeeds, and every read behind it ends the
  -- process, since the position of the file stays where it is.
  pub zfile_seek-rewind :
      (s : S) (z : ZFile S) (rounds fuel size : ℕ)
      → has_decoder z.ctype ≡ true
      → codec.start z.ctype ≡ some s
      → 0 < size
      → size < 2 ^ 63
      → let read_up : ZFile S = record z { input = record { unread = []; breaks = false } } in
        (z' : ZFile S) × (zfile_seek codec rounds fuel (pos 0) seek_set read_up
          ≡ returned (some 0, z'))
        × (zfile_read codec (suc fuel) size z' ≡ exits)
  unfolding zfile_seek zfile_cookie_init target_offset
  zfile_seek-rewind s z rounds fuel size known starts nonzero small = (
    state_at codec z.ctype (some s) [] [] [] 0 0 0,
    rw (&&-false (ltb 0 z.logic_offset), known, starts) refl,
    read-exits codec z.ctype (some s) [] 0 0 0 size fuel (omega arith) nonzero small,
  )
