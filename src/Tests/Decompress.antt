-- ===== src/Tests/Decompress.antt =====
-- Runs of the model of ag_src/decompress.c and ag_src/zfile.c.
use libag.Common.{
  ℕ, zero, suc, ◌≤◌, ◌≡◌, ◌≢◌, refl, true, false, none, some, List, [], ◌∷◌, length, ltb, ltb→lt,
  done, fault, arith,
}
use libag.Decompress.{
  gzip, zip, xz, code_ok, stream_end, Decoded, Codec, is_zipped, same_bytes, gzip_or_compress,
  is_zip, is_xz,
}
use libag.Common.Int.{pos}
use libag.Decompress.Zfile
use libag.Decompress.Whole
use libag.Decompress.Whole.{decompress, decompress-in_bounds}
use libag.Decompress.Zfile.{
  Input, ZFile, Outcome, returned, exits, zfile_read, decompress_open, Errno,
}
use libag.Decompress.Zfile.Seek
use libag.Decompress.Zfile.Seek.{seek_set}
use libag.Decompress.Zfile.Seek.{zfile_seek}
use libag.Decompress.Zfile.Reads.{zfile_read-ReadsOn}
use libag.Decompress.Zfile.Rounds.{last, refill, holds}
use libag.Decompress.Zfile.Rounds.{Delivers, state_at, ReadsOn}
use libag.Decompress.Zfile.Ends.{zfile_seek-rewind}

-- A decoder that copies its input up to a byte 0, which ends the stream.
unfoldable pub copy_until : List ℕ → ℕ → Decoded ℕ
copy_until [] room = record { state = 0; left = []; output = []; code = code_ok }
copy_until (x ∷ xs) zero = record { state = 0; left = x ∷ xs; output = []; code = code_ok }
copy_until (zero ∷ xs) (suc room) = record { state = 0; left = xs; output = []; code = stream_end }
copy_until (suc x ∷ xs) (suc room) =
    let r = copy_until xs room in record r { output = suc x ∷ r.output }

abbrev pub copier : Codec ℕ
copier = record { start = λ t. some 0; decode = λ t s avail room. copy_until avail room }

abbrev pub stored : List ℕ
stored = 7 ∷ 8 ∷ 9 ∷ 0 ∷ []

abbrev opened : ZFile ℕ
opened = state_at copier gzip (some 0) [] stored [] 0 0 0

abbrev half_read : ZFile ℕ
half_read = state_at copier gzip (some 0) [] [] (7 ∷ 8 ∷ 9 ∷ []) 2 3 2

program : Unit {0}
unfolding copy_until is_zipped Zfile.has_decoder Zfile.drain Zfile.fill Zfile.take_decoded
    Zfile.inflate Zfile.go_on Zfile.decode_filled Zfile.read_round Zfile.read_rounds
    Zfile.zfile_read Zfile.zfile_cookie_init Zfile.decompress_open Zfile.opened Seek.zfile_seek
    Seek.target_offset Seek.skip_forward Whole.decompress Whole.decompress_stream Whole.decode_loop
    Whole.again Whole.finish Whole.first_size same_bytes gzip_or_compress is_zip is_xz
program = tt

stored-Delivers : Delivers copier gzip 0 [] stored (7 ∷ 8 ∷ 9 ∷ [])
unfolding program
stored-Delivers = refill refl (last refl refl)

gzip_magic : is_zipped (0x1f ∷ 0x8b ∷ 8 ∷ []) ≡ gzip
unfolding program
gzip_magic = refl

lzma_magic : is_zipped (0x5d ∷ 0x00 ∷ 0x00 ∷ []) ≡ xz
unfolding program
lzma_magic = refl

whole : decompress copier gzip (λ size. true) 3 stored ≡ done (some (7 ∷ 8 ∷ 9 ∷ []))
unfolding program
whole = refl

open_gzip :
    decompress_open copier true (record { unread = stored; breaks = false }) gzip ≡ some opened
unfolding program
open_gzip = refl

open_zip : decompress_open copier true (record { unread = stored; breaks = false }) zip ≡ none
unfolding program
open_zip = refl

first_two : zfile_read copier 3 2 opened ≡ returned (some (7 ∷ 8 ∷ []), half_read)
unfolding program
first_two = refl

three_and_end :
    zfile_read copier 3 4 opened
    ≡ returned (
      some (7 ∷ 8 ∷ 9 ∷ []),
      record (state_at copier gzip (some 0) [] [] (7 ∷ 8 ∷ 9 ∷ []) 3 3 3) { eof = true },
    )
unfolding program
three_and_end = refl

copy_until-le : (avail : List ℕ) (room : ℕ) → length (copy_until avail room).output ≤ room
unfolding copy_until
copy_until-le [] room = omega arith
copy_until-le (x ∷ xs) zero = omega arith
copy_until-le (zero ∷ xs) (suc room) = omega arith
copy_until-le (suc x ∷ xs) (suc room) = omega (arith, copy_until-le xs room)

zfile_read-ReadsOn_example :
    (rounds : ℕ) × ((fuel : ℕ)
      → rounds ≤ fuel
      → ReadsOn copier (zfile_read copier (suc fuel) 2 opened) 2 [] (7 ∷ 8 ∷ 9 ∷ []))
zfile_read-ReadsOn_example =
    zfile_read-ReadsOn copier 2 (holds (omega arith) stored-Delivers) (omega arith) (omega arith)

known : Zfile.has_decoder gzip ≡ true
unfolding program
known = refl

zfile_seek-rewind_example :
    (z' : ZFile ℕ) × (zfile_seek copier 0 0 (pos 0) seek_set half_read ≡ returned (some 0, z'))
    × (zfile_read copier 1 4 z' ≡ exits)
zfile_seek-rewind_example =
    zfile_seek-rewind copier 0 half_read 0 0 4 known refl (omega arith) (omega arith)

decompress-in_bounds_example : decompress copier gzip (λ size. ltb size 65536) 9 stored ≢ fault
decompress-in_bounds_example =
    decompress-in_bounds copier (λ size. ltb size 65536)
      (λ t s avail room. copy_until-le avail room) (λ size e. omega (arith, ltb→lt size 65536 e))
      gzip 9 stored (omega arith)
