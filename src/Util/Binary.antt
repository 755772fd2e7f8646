-- ===== src/Util/Binary.antt =====
-- `is_binary` of ag_src/util.c: whether a buffer looks like binary data.
pub mod Verdicts
pub mod Prefix
use libag.Common.{
  ℕ, zero, suc, ◌+◌, ◌-◌, ◌*◌, ◌/◌, Bool, true, false, not, ◌&&◌, ◌||◌, List, [], ◌∷◌, length,
  get_or, ltb, leb, ◌==◌, if◌then◌else◌, min,
}
use libag.Cstr.{has_prefix}

-- `(suspicious_bytes * 100) / total_bytes > 10`
unfoldable pub too_many : ℕ → ℕ → Bool
too_many suspicious_bytes total_bytes = ltb 10 (suspicious_bytes * 100 / total_bytes)

-- A byte outside the text ranges: below 7 or above 14, and below 32 or above 127.
unfoldable pub is_odd_byte : ℕ → Bool
is_odd_byte c = (ltb c 7 || ltb 14 c) && (ltb c 32 || ltb 127 c)

-- The second and third byte of a UTF-8 sequence.
unfoldable pub is_continuation : ℕ → Bool
is_continuation c = ltb 127 c && ltb c 192

-- What the "UTF-8 detection" makes of an odd byte at `i`: how many more bytes it steps over, and
-- whether the byte is suspicious.
unfoldable pub utf8_step : List ℕ → ℕ → ℕ → ℕ × Bool
utf8_step buf total_bytes i =
    let c = get_or buf i 0 in
    let c1 = get_or buf (i + 1) 0 in
    let c2 = get_or buf (i + 2) 0 in
    if ltb 193 c && (ltb c 224 && ltb (i + 1) total_bytes)
    then if is_continuation c1 then (1, false) else (1, true)
    else if ltb 223 c && (ltb c 240 && ltb (i + 2) total_bytes)
    then if is_continuation c1 && is_continuation c2 then (2, false) else (1, true)
    else (0, true)

-- The loop over the first `total_bytes` bytes and the test behind it. Each round moves `i` on, so
-- `total_bytes` rounds are enough; with no round left the test behind the loop is made.
unfoldable pub scan_bytes : ℕ → List ℕ → ℕ → ℕ → ℕ → Bool
scan_bytes zero buf total_bytes i suspicious_bytes = too_many suspicious_bytes total_bytes
scan_bytes (suc fuel) buf total_bytes i suspicious_bytes =
    let (more, suspicious) = utf8_step buf total_bytes i in
    let plain = scan_bytes fuel buf total_bytes (i + 1) suspicious_bytes in
    let sequence = scan_bytes fuel buf total_bytes (i + more + 1) suspicious_bytes in
    let counted =
      if leb 32 (i + more) && too_many (suspicious_bytes + 1) total_bytes
      then true
      else scan_bytes fuel buf total_bytes (i + more + 1) (suspicious_bytes + 1) in
    let odd = if suspicious then counted else sequence in
    let byte =
      if get_or buf i 0 == 0 then true else if is_odd_byte (get_or buf i 0) then odd else plain in
    if ltb i total_bytes then byte else too_many suspicious_bytes total_bytes

abbrev pub pdf_mark : List ℕ
pdf_mark = b'%' ∷ (b'P' ∷ (b'D' ∷ (b'F' ∷ (b'-' ∷ []))))

-- `buf_len` is the length of the list.
unfoldable pub is_binary : List ℕ → Bool
is_binary buf =
    if length buf == 0
    then false
    else if leb 3 (length buf)
        && (get_or buf 0 0 == 0xef && (get_or buf 1 0 == 0xbb && get_or buf 2 0 == 0xbf))
    then false
    else if leb 5 (length buf) && has_prefix buf pdf_mark
    then true
    else scan_bytes (min (length buf) 512) buf (min (length buf) 512) 0 0
