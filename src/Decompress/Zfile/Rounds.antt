-- ===== src/Decompress/Zfile/Rounds.antt =====
-- One round of the loop of `zfile_read` in ag_src/zfile.c.
use libag.Common.{
  ℕ, suc, ◌+◌, ◌-◌, ◌≤◌, ◌<◌, ◌≡◌, ◌⊎◌, inl, inr, Bool, true, false, Option, none, some, List, [],
  ◌∷◌, ◌++◌, length, take, drop, ltb, leb, ◌==◌, arith, append_assoc, &&-false, length-drop, sym,
  ap, ◌∙◌, subst, length-take_of_le, drop-drop, take_within, drop_within, take_beyond, drop_beyond,
  refl, length-append, take_all, Bool-cases, leb→le, ==_of_ne,
}
use libag.Decompress.{CompressionType, code_ok, stream_end, Codec}
use libag.Decompress.Zfile.{
  ZFile, inbuf_size, outbuf_size, returned, exits, aborts, unfinished, ReadResult, add_offset,
  drain, fill, take_decoded, inflate, has_decoder, decode_filled, read_round,
}

module _ {S : Type 0} (codec : Codec S) where
  -- The decoder in a state, with its input and what is unread of the file behind it, goes on to the
  -- end of the stream, which is the end of the file, and writes the content.
  pub data Delivers (ctype : CompressionType) : S → List ℕ → List ℕ → List ℕ → Type 0 where
    last :
        {s s' : S} {x : ℕ} {xs output : List ℕ}
        → has_decoder ctype ≡ true
        → codec.decode ctype s (x ∷ xs) outbuf_size
          ≡ record { state = s'; left = []; output = output; code = stream_end }
        → Delivers ctype s (x ∷ xs) [] output
    more :
        {s s' : S} {x : ℕ} {xs left unread output rest : List ℕ}
        → codec.decode ctype s (x ∷ xs) outbuf_size
          ≡ record { state = s'; left = left; output = output; code = code_ok }
        → Delivers ctype s' left unread rest
        → Delivers ctype s (x ∷ xs) unread (output ++ rest)
    refill :
        {s : S} {y : ℕ} {ys unread content : List ℕ}
        → take inbuf_size unread ≡ y ∷ ys
        → Delivers ctype s (y ∷ ys) (drop inbuf_size unread) content
        → Delivers ctype s [] unread content

  -- A stream before its end, whose two offsets agree.
  abbrev pub state_at : CompressionType → Option S → List ℕ → List ℕ → List ℕ → ℕ → ℕ → ℕ → ZFile S
  state_at ctype stream avail unread outbuf offset len start = record {
    input = record { unread = unread; breaks = false };
    logic_offset = offset;
    decode_offset = offset;
    actual_len = len;
    outbuf_start = start;
    ctype = ctype;
    stream = stream;
    avail = avail;
    outbuf = outbuf;
    eof = false;
  }

  -- The stream has not ended; what can still be read is left in the output buffer or to be decoded.
  pub data Holds : ZFile S → List ℕ → Type 0 where
    holds :
        {ctype : CompressionType} {s : S} {avail unread outbuf rest : List ℕ} {offset len start : ℕ}
        → start ≤ length outbuf
        → Delivers ctype s avail unread rest
        → Holds
            (state_at ctype (some s) avail unread outbuf offset len start)
            (drop start outbuf ++ rest)

  -- The decoder has ended in an earlier call, which left the rest in the output buffer.
  pub data Ended : ZFile S → List ℕ → Type 0 where
    ended :
        {ctype : CompressionType} {stream : Option S} {outbuf : List ℕ} {offset len start : ℕ}
        → start ≤ length outbuf
        → Ended (state_at ctype stream [] [] outbuf offset len start) (drop start outbuf)

  -- What a call leaves of the content: the rest in an open stream, or the rest in the output buffer
  -- of an ended one, or nothing at the end of the file.
  abbrev pub After : ZFile S → ℕ → List ℕ → Type 0
  After z size content =
      ((size ≤ length content) × (Holds z (drop size content) ⊎ Ended z (drop size content)))
      ⊎ ((length content < size) × (z.eof ≡ true))

  -- The call returns the next bytes.
  abbrev pub ReadsOn : ReadResult S → ℕ → List ℕ → List ℕ → Type 0
  ReadsOn (returned (some bytes, z)) size total content =
      (bytes ≡ total ++ take size content) × After z size content
  ReadsOn (returned (none, z)) size total content = ⊥
  ReadsOn exits size total content = ⊥
  ReadsOn aborts size total content = ⊥
  ReadsOn unfinished size total content = ⊥

  -- The calls of the decoder up to the end.
  unfoldable pub calls :
      {ctype : CompressionType} {s : S} {avail unread content : List ℕ}
      → Delivers ctype s avail unread content
      → ℕ
  calls (last known e) = 1
  calls (more e d) = suc (calls d)
  calls (refill e d) = calls d

  -- The output buffer holds all that this round has to copy.
  pub round_full :
      (ctype : CompressionType) (stream : Option S) (avail unread : List ℕ)
      (next : Bool → ℕ → List ℕ → ZFile S → ReadResult S) (flag : Bool) (size : ℕ)
      (total outbuf : List ℕ) (offset len start : ℕ)
      → size ≤ length (drop start outbuf)
      → read_round codec next flag size total
          (state_at ctype stream avail unread outbuf offset len start)
        ≡ returned (
          some (total ++ take size (drop start outbuf)),
          state_at ctype stream avail unread outbuf (add_offset offset size) len (start + size),
        )
  unfolding read_round drain
  round_full ctype stream avail unread next flag size total outbuf offset len start enough =
      let whole : (size - size == 0) ≡ true = ground arith in
      rw (length-take_of_le size (drop start outbuf) enough, whole) refl

  pub round-within :
      {ctype : CompressionType} {s : S} {avail unread rest : List ℕ}
      (d : Delivers ctype s avail unread rest) (next : Bool → ℕ → List ℕ → ZFile S → ReadResult S)
      (size : ℕ) (total outbuf : List ℕ) (offset len start : ℕ)
      → start ≤ length outbuf
      → size ≤ length (drop start outbuf)
      → ReadsOn
          (read_round codec next false size total
            (state_at ctype (some s) avail unread outbuf offset len start))
          size
          total
          (drop start outbuf ++ rest)
  round-within {ctype} {s} {avail} {unread} {rest} d next size total outbuf offset len start inside
        enough =
      let b = drop start outbuf in
      let bytes : total ++ take size b ≡ total ++ take size (b ++ rest) =
        ap (λ r. total ++ r) (sym (take_within size b rest enough)) in
      let left : drop (start + size) outbuf ++ rest ≡ drop size (b ++ rest) =
        ap (λ r. r ++ rest) (sym (drop-drop start size outbuf))
        ∙ sym (drop_within size b rest enough) in
      let still : start + size ≤ length outbuf = omega (arith, length-drop start outbuf) in
      subst (λ r. ReadsOn r size total (b ++ rest))
        (sym (round_full _ _ _ _ next false size total outbuf offset len start enough))
        (
          bytes,
          inl (
            omega (arith, enough, length-append {0} b rest),
            inl (subst (Holds _) left (holds still d)),
          ),
        )

  -- The output buffer holds less: it is emptied, and more is decoded.
  pub round-beyond :
      (ctype : CompressionType) (stream : Option S) (avail unread : List ℕ)
      (next : Bool → ℕ → List ℕ → ZFile S → ReadResult S) (size : ℕ) (total outbuf : List ℕ)
      (offset len start : ℕ)
      → start ≤ length outbuf
      → length (drop start outbuf) < size
      → read_round codec next false size total
          (state_at ctype stream avail unread outbuf offset len start)
        ≡ decode_filled codec next
            (size - length (drop start outbuf))
            (total ++ drop start outbuf)
            (fill (
              state_at ctype stream avail unread outbuf
                (add_offset offset (length (drop start outbuf)))
                len
                (start + length (drop start outbuf))))
  unfolding read_round drain
  round-beyond ctype stream avail unread next size total outbuf offset len start inside short =
      let b = drop start outbuf in
      let some_left : (size - length b == 0) ≡ false = ground arith in
      let emptied : (start + length b == length outbuf) ≡ true =
        ground (arith, length-drop start outbuf) in
      rw (take_all size b (omega arith), some_left, emptied) refl

  -- The round after the end of the stream.
  pub round_at_end :
      (ctype : CompressionType) (stream : Option S)
      (next : Bool → ℕ → List ℕ → ZFile S → ReadResult S) (size : ℕ) (total outbuf : List ℕ)
      (offset len : ℕ)
      → ReadsOn
          (read_round codec next true size total (state_at ctype stream [] [] outbuf offset len 0))
          size
          total
          outbuf
  unfolding read_round drain
  round_at_end ctype stream next size total outbuf offset len =
      elim (Bool-cases (leb size (length outbuf))) [
        | inl fits ↦
            let enough = leb→le size (length outbuf) fits in
            let left : drop (0 + size) outbuf ≡ drop size outbuf =
              ap (λ k. drop k outbuf) (omega arith) in
            subst (λ r. ReadsOn r size total outbuf)
              (sym (round_full ctype stream [] [] next true size total outbuf offset len 0 enough))
              (refl, inl (enough, inr (subst (Ended _) left (ended (omega (arith, enough))))))
        | inr short ↦
            let all : take size outbuf ≡ outbuf = take_all size outbuf (ground arith) in
            let some_left : (size - length outbuf == 0) ≡ false = ground arith in
            let emptied : (0 + length outbuf == length outbuf) ≡ true = ground arith in
            rw (all, some_left, emptied) (ap (λ r. total ++ r) (sym all), inr (ground arith, refl))
      ]

  pub total_assoc :
      (r : ReadResult S) (size m : ℕ) (total b rest : List ℕ)
      → length b < size
      → m ≡ size - length b
      → ReadsOn r m (total ++ b) rest
      → ReadsOn r size total (b ++ rest)
  total_assoc (returned (some bytes, z)) size m total b rest short e (read, after) =
      let beyond : b ++ take m rest ≡ take size (b ++ rest) =
        ap (λ k. b ++ take k rest) e ∙ sym (take_beyond size b rest (omega arith)) in
      let left : drop m rest ≡ drop size (b ++ rest) =
        ap (λ k. drop k rest) e ∙ sym (drop_beyond size b rest (omega arith)) in
      (
        read ∙ append_assoc total b (take m rest) ∙ ap (λ r. total ++ r) beyond,
        elim after [
          | inl (enough, inl h) ↦
              inl (omega (arith, enough, length-append {0} b rest), inl (subst (Holds _) left h))
          | inl (enough, inr h) ↦
              inl (omega (arith, enough, length-append {0} b rest), inr (subst (Ended _) left h))
          | inr (h, at_end) ↦ inr (omega (arith, h, length-append {0} b rest), at_end)
        ],
      )
  total_assoc (returned (none, z)) size m total b rest short e h = h
  total_assoc exits size m total b rest short e h = h
  total_assoc aborts size m total b rest short e h = h
  total_assoc unfinished size m total b rest short e h = h

  pub inflate_ok :
      {ctype : CompressionType} {s s' : S} {avail left output : List ℕ} (unread outbuf : List ℕ)
      (offset len start : ℕ)
      → codec.decode ctype s avail outbuf_size
        ≡ record { state = s'; left = left; output = output; code = code_ok }
      → inflate codec (state_at ctype (some s) avail unread outbuf offset len start) ≡ (
        code_ok,
        state_at ctype (some s') left unread output offset (add_offset len (length output)) 0,
      )
  unfolding inflate take_decoded
  inflate_ok {ctype} {s} {s'} {avail} unread outbuf offset len start e =
      ap (take_decoded (state_at ctype (some s) avail unread outbuf offset len start)) e

  pub inflate_end :
      {ctype : CompressionType} {s s' : S} {avail left output : List ℕ} (unread outbuf : List ℕ)
      (offset len start : ℕ)
      → codec.decode ctype s avail outbuf_size
        ≡ record { state = s'; left = left; output = output; code = stream_end }
      → inflate codec (state_at ctype (some s) avail unread outbuf offset len start) ≡ (
        stream_end,
        state_at ctype (some s') left unread output offset (add_offset len (length output)) 0,
      )
  unfolding inflate take_decoded
  inflate_end {ctype} {s} {s'} {avail} unread outbuf offset len start e =
      ap (take_decoded (state_at ctype (some s) avail unread outbuf offset len start)) e

  pub fill-refill :
      {y : ℕ} {ys : List ℕ} (ctype : CompressionType) (stream : Option S) (unread outbuf : List ℕ)
      (offset len start : ℕ)
      → take inbuf_size unread ≡ y ∷ ys
      → fill (state_at ctype stream [] unread outbuf offset len start)
        ≡ some (state_at ctype stream (y ∷ ys) (drop inbuf_size unread) outbuf offset len start)
  unfolding fill
  fill-refill {y} {ys} ctype stream unread outbuf offset len start e =
      let nonempty : (length (y ∷ ys) == 0) ≡ false = ==_of_ne _ _ (λ z. omega (arith, z)) in
      rw (e, nonempty, &&-false (ltb (length (y ∷ ys)) inbuf_size)) refl
