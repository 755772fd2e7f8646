-- ===== src/Decompress/Zfile/Reads.antt =====
-- What `zfile_read` of ag_src/zfile.c returns on a file that holds one compressed stream.
use libag.Common.{
  ℕ, zero, suc, ◌-◌, ◌^◌, ◌≤◌, ◌<◌, ◌≡◌, inl, inr, false, Option, some, List, [], ◌++◌, length,
  drop, ltb, leb, ◌==◌, arith, sym, ◌∙◌, subst, refl, Bool-cases, leb→le, ltb_of_le, ==_self,
  ==_of_ne,
}
use libag.Decompress.{CompressionType, Codec}
use libag.Decompress.Zfile.{
  ZFile, exits, fill, go_on, decode_filled, read_round, read_rounds, zfile_read,
}
use libag.Decompress.Zfile.Rounds.{
  holds, last, more, refill, Delivers, state_at, Holds, ReadsOn, calls, round-within, round-beyond,
  round_at_end, total_assoc, inflate_ok, inflate_end, fill-refill,
}

module _ {S : Type 0} (codec : Codec S) where
  -- A round, given what the rounds behind the draining do.
  round_step :
      {ctype : CompressionType} {s : S} {avail unread rest : List ℕ}
      (d : Delivers codec ctype s avail unread rest) (fuel size : ℕ) (total outbuf : List ℕ)
      (offset len start : ℕ)
      → ((size' : ℕ) (total' : List ℕ) (offset' start' : ℕ)
          → 0 < size'
          → ReadsOn codec
              (decode_filled codec
                (read_rounds codec fuel)
                size'
                total'
                (fill (state_at codec ctype (some s) avail unread outbuf offset' len start')))
              size'
              total'
              rest)
      → start ≤ length outbuf
      → 0 < size
      → ReadsOn codec
          (read_round codec
            (read_rounds codec fuel)
            false
            size
            total
            (state_at codec ctype (some s) avail unread outbuf offset len start))
          size
          total
          (drop start outbuf ++ rest)
  round_step {rest = rest} d fuel size total outbuf offset len start decoded inside nonzero =
      let b = drop start outbuf in
      elim (Bool-cases (leb size (length b))) [
        | inl fits ↦
            round-within codec d (read_rounds codec fuel) size total outbuf offset len start inside
              (leb→le _ _ fits)
        | inr short ↦
            let beyond : length b < size = ground arith in
            subst (λ r. ReadsOn codec r size total (b ++ rest))
              (sym (
                round-beyond codec _ _ _ _ (read_rounds codec fuel) size total outbuf offset len
                  start inside beyond))
              (total_assoc codec _ size _ total b rest beyond refl (decoded _ _ _ _ (omega arith)))
      ]

  decode_filled-ReadsOn :
      {ctype : CompressionType} {s : S} {avail unread rest : List ℕ}
      (d : Delivers codec ctype s avail unread rest) (fuel size : ℕ) (total outbuf : List ℕ)
      (offset len start : ℕ)
      → calls codec d ≤ fuel
      → 0 < size
      → ReadsOn codec
          (decode_filled codec
            (read_rounds codec fuel)
            size
            total
            (fill (state_at codec ctype (some s) avail unread outbuf offset len start)))
          size
          total
          rest
  unfolding decode_filled fill calls go_on read_rounds
  decode_filled-ReadsOn (last known e) zero size total outbuf offset len start enough nonzero =
      absurd (omega arith)
  decode_filled-ReadsOn (last {output = output} known e) (suc fuel) size total outbuf offset len
        start enough nonzero =
      subst
        (λ r.
          ReadsOn codec (go_on codec (read_rounds codec (suc fuel)) size total r) size total output)
        (sym (inflate_end codec [] outbuf offset len start e))
        (rw known (round_at_end codec _ _ (read_rounds codec fuel) size total output offset _))
  decode_filled-ReadsOn (more e d) zero size total outbuf offset len start enough nonzero =
      absurd (omega arith)
  decode_filled-ReadsOn (more {unread = unread} {output = output} {rest = rest} e d) (suc fuel) size
        total outbuf offset len start enough nonzero =
      subst
        (λ r.
          ReadsOn codec (go_on codec (read_rounds codec (suc fuel)) size total r) size total
            (output ++ rest))
        (sym (inflate_ok codec unread outbuf offset len start e))
        (round_step d fuel size total output offset _ 0
          (λ size' total' offset' start' h.
            decode_filled-ReadsOn d fuel size' total' output offset' _ start' (omega arith) h)
          (omega arith) nonzero)
  decode_filled-ReadsOn (refill {content = content} e d) fuel size total outbuf offset len start
        enough nonzero =
      subst
        (λ f.
          ReadsOn codec (decode_filled codec (read_rounds codec fuel) size total f) size total
            content)
        (sym (fill-refill codec _ _ _ outbuf offset len start e))
        (decode_filled-ReadsOn d fuel size total outbuf offset len start enough nonzero)

  -- A read is a loop from its first round.
  pub zfile_read_rounds :
      (ctype : CompressionType) (stream : Option S) (avail unread outbuf : List ℕ)
      (offset len start size fuel : ℕ)
      → 0 < size
      → size < 2 ^ 63
      → zfile_read codec
          (suc fuel)
          size
          (state_at codec ctype stream avail unread outbuf offset len start)
        ≡ read_round codec
            (read_rounds codec fuel)
            false
            size
            []
            (state_at codec ctype stream avail unread outbuf offset len start)
  unfolding zfile_read read_rounds
  zfile_read_rounds ctype stream avail unread outbuf offset len start size fuel nonzero small =
      let legal : ltb (2 ^ 63 - 1) size ≡ false = ltb_of_le _ _ (omega arith) in
      let asked : (size == 0) ≡ false = ==_of_ne _ _ (λ e. omega (arith, e)) in
      rw (legal, asked, ==_self) refl

  -- A read of a file that holds one compressed stream, which has not come to its end, returns the
  -- next bytes of the decoded content, as many as were asked for or all that are left; in the second
  -- case it notes the end of the file. No assert fails, the process goes on, and finitely many rounds
  -- of the loop are enough.
  pub zfile_read-ReadsOn :
      {z : ZFile S} {content : List ℕ} (size : ℕ)
      → Holds codec z content
      → 0 < size
      → size < 2 ^ 63
      → (rounds : ℕ) × ((fuel : ℕ)
          → rounds ≤ fuel
          → ReadsOn codec (zfile_read codec (suc fuel) size z) size [] content)
  zfile_read-ReadsOn size (holds {outbuf = outbuf} {rest = rest} {start = start} inside d) nonzero
        small =
      (
        calls codec d,
        λ fuel enough.
            subst (λ r. ReadsOn codec r size [] (drop start outbuf ++ rest))
              (sym (zfile_read_rounds _ _ _ _ outbuf _ _ start size fuel nonzero small))
              (round_step d fuel size [] outbuf _ _ start
                (λ size' total' offset' start' h.
                  decode_filled-ReadsOn d fuel size' total' outbuf offset' _ start' enough h)
                inside nonzero),
      )

  -- Where all input is taken and no end is noted, a read of more than the output buffer holds ends the
  -- process, as if the file were truncated.
  pub read-exits :
      (ctype : CompressionType) (stream : Option S) (outbuf : List ℕ)
      (offset len start size fuel : ℕ)
      → start ≤ length outbuf
      → length (drop start outbuf) < size
      → size < 2 ^ 63
      → zfile_read codec (suc fuel) size (state_at codec ctype stream [] [] outbuf offset len start)
        ≡ exits
  unfolding decode_filled fill
  read-exits ctype stream outbuf offset len start size fuel inside short small =
      zfile_read_rounds _ _ _ _ outbuf _ _ start size fuel (omega arith) small
      ∙ round-beyond codec _ _ _ _ (read_rounds codec fuel) size [] outbuf offset len start inside
          short
