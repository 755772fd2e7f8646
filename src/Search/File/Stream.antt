-- ===== src/Search/File/Stream.antt =====
-- The stream of a compressed file in ag_src/search.c: the calls that read it to its end.
use libag.Common.{
  ℕ, zero, suc, ◌+◌, ◌-◌, ◌^◌, ◌≤◌, ◌<◌, ◌≡◌, refl, sym, ap, ◌∙◌, subst, true, false, none, some,
  List, [], ◌∷◌, append-nil, length, take, drop, ltb, leb, ◌==◌, arith, take_all, drop_all,
  length-drop, length-take_of_le, drop-drop, inl, inr, Bool-cases, leb→le, ltb_of_le,
}
use libag.Decompress.{CompressionType, Codec, stream_end}
use libag.Decompress.Zfile.{
  ZFile, Outcome, returned, exits, aborts, unfinished, ReadResult, has_decoder, zfile_read,
  add_offset, inbuf_size, outbuf_size, decode_filled, go_on, read_rounds,
}
use libag.Decompress.Zfile.Reads.{zfile_read-ReadsOn, zfile_read_rounds}
use libag.Decompress.Zfile.Rounds.{ended}
use libag.Decompress.Zfile.Rounds.{
  Holds, Ended, state_at, After, ReadsOn, round_full, round-beyond, fill-refill, inflate_end,
}
use libag.Decompress.Zfile.Ends.{zfile_read-exits}
use libag.Search.File.{behind, stream_on, stream_bytes}

module _ {S : Type 0} (codec : Codec S) where
  ReadsOn-returned :
      (r : ReadResult S) (size : ℕ) (content : List ℕ)
      → ReadsOn codec r size [] content
      → (z : ZFile S) × (r ≡ returned (some (take size content), z)) × After codec z size content
  ReadsOn-returned (returned (some bytes, z)) size content (e, after) =
      (z, ap (λ l. returned (some l, z)) e, after)
  ReadsOn-returned (returned (none, z)) size content h = absurd h
  ReadsOn-returned exits size content h = absurd h
  ReadsOn-returned aborts size content h = absurd h
  ReadsOn-returned unfinished size content h = absurd h

  zfile_read-eof :
      (fuel size : ℕ) (z : ZFile S)
      → z.eof ≡ true
      → size < 2 ^ 63
      → zfile_read codec fuel size z ≡ returned (some [], z)
  unfolding zfile_read
  zfile_read-eof fuel size z e small =
      let legal : ltb (2 ^ 63 - 1) size ≡ false = ltb_of_le _ _ (omega arith) in
      elim (Bool-cases (size == 0)) [
        | inl nothing ↦ rw (legal, nothing) refl
        | inr some_asked ↦ rw (legal, some_asked, e) refl
      ]

  stream_bytes-suc :
      (fuel bufsiz : ℕ) (z : ZFile S)
      → stream_bytes codec (suc fuel) bufsiz z
        ≡ stream_on (stream_bytes codec fuel bufsiz) (zfile_read codec fuel bufsiz z)
  unfolding stream_bytes
  stream_bytes-suc fuel bufsiz z = refl

  last_call0 :
      (next : ZFile S → Outcome (List ℕ)) (z : ZFile S)
      → stream_on next (returned (some [], z)) ≡ returned []
  unfolding stream_on
  last_call0 next z = refl

  exits_on : (next : ZFile S → Outcome (List ℕ)) → stream_on next exits ≡ exits
  unfolding stream_on
  exits_on next = refl

  -- A call that gives something, in front of an exit.
  exits_later :
      (next : ZFile S → Outcome (List ℕ)) (bytes : List ℕ) (z : ZFile S)
      → 0 < length bytes
      → next z ≡ exits
      → stream_on next (returned (some bytes, z)) ≡ exits
  unfolding stream_on behind
  exits_later next [] z nonempty e = absurd (omega arith)
  exits_later next (c ∷ bytes) z nonempty e = rw e refl

  -- The last call, and the empty one behind it.
  last_call :
      (next : ZFile S → Outcome (List ℕ)) (content : List ℕ) (z : ZFile S)
      → next z ≡ returned []
      → stream_on next (returned (some content, z)) ≡ returned content
  unfolding stream_on behind
  last_call next [] z e = refl
  last_call next (c ∷ content) z e = rw (e, append-nil) refl

  -- A short content comes whole.
  pub stream_bytes-whole :
      {z : ZFile S} {content : List ℕ} (bufsiz : ℕ)
      → Holds codec z content
      → length content < bufsiz
      → bufsiz < 2 ^ 63
      → (rounds : ℕ) × ((fuel : ℕ)
          → rounds ≤ fuel
          → stream_bytes codec (suc (suc fuel)) bufsiz z ≡ returned content)
  stream_bytes-whole {z} {content} bufsiz held short small =
      let (rounds, reads) = zfile_read-ReadsOn codec bufsiz held (omega arith) small in
      (rounds, λ fuel enough. whole fuel (ReadsOn-returned _ bufsiz content (reads fuel enough)))
    where
      whole :
          (fuel : ℕ)
          → (z' : ZFile S) × (zfile_read codec (suc fuel) bufsiz z
              ≡ returned (some (take bufsiz content), z'))
            × After codec z' bufsiz content
          → stream_bytes codec (suc (suc fuel)) bufsiz z ≡ returned content
      whole fuel (z', read, inl (long, rest)) = absurd (omega arith)
      whole fuel (z', read, inr (less, at_end)) =
          stream_bytes-suc (suc fuel) bufsiz z
          ∙ ap (stream_on (stream_bytes codec (suc fuel) bufsiz))
              (read ∙ ap (λ l. returned (some l, z')) (take_all bufsiz content (omega arith)))
          ∙ last_call _ content z' (
              stream_bytes-suc fuel bufsiz z'
              ∙ ap (stream_on (stream_bytes codec fuel bufsiz))
                  (zfile_read-eof fuel bufsiz z' at_end small)
              ∙ last_call0 _ z')

  -- A read of no more than an ended decoder has left.
  zfile_read-Ended :
      {z : ZFile S} {rest : List ℕ} (size fuel : ℕ)
      → Ended codec z rest
      → 0 < size
      → size ≤ length rest
      → size < 2 ^ 63
      → (z' : ZFile S) × (zfile_read codec (suc fuel) size z ≡ returned (some (take size rest), z'))
        × Ended codec z' (drop size rest)
  zfile_read-Ended size fuel (ended {ctype} {stream} {outbuf} {offset} {len} {start} inside) nonzero
        enough small =
      (
        state_at codec ctype stream [] [] outbuf (add_offset offset size) len (start + size),
        zfile_read_rounds codec ctype stream [] [] outbuf offset len start size fuel nonzero small
            ∙ round_full codec ctype stream [] [] (read_rounds codec fuel) false size [] outbuf
                offset len start enough,
        subst (Ended codec _) (sym (drop-drop start size outbuf))
            (ended (omega (arith, length-drop start outbuf))),
      )

  -- The stream of a decoder that has ended in an earlier call, read to its end.
  stream_bytes-exits :
      (bufsiz fuel : ℕ) {z : ZFile S} {rest : List ℕ}
      → Ended codec z rest
      → 0 < bufsiz
      → bufsiz < 2 ^ 63
      → length rest < fuel
      → stream_bytes codec (suc fuel) bufsiz z ≡ exits
  stream_bytes-exits bufsiz zero e nonzero small enough = absurd (omega arith)
  stream_bytes-exits bufsiz (suc fuel) {z} {rest} e nonzero small enough =
      elim (Bool-cases (leb bufsiz (length rest))) [
        | inl long ↦
            let fits = leb→le bufsiz (length rest) long in
            let (z', read, e') = zfile_read-Ended bufsiz fuel e nonzero fits small in
            stream_bytes-suc (suc fuel) bufsiz z
            ∙ ap (stream_on (stream_bytes codec (suc fuel) bufsiz)) read
            ∙ exits_later _ (take bufsiz rest) z'
                (omega (arith, length-take_of_le bufsiz rest fits))
                (stream_bytes-exits bufsiz fuel e' nonzero small
                  (omega (arith, length-drop bufsiz rest)))
        | inr short ↦
            stream_bytes-suc (suc fuel) bufsiz z
            ∙ ap (stream_on (stream_bytes codec (suc fuel) bufsiz))
                (zfile_read-exits codec bufsiz fuel e (ground arith) small)
            ∙ exits_on _
      ]

  -- The first read of a file that one call of the decoder decodes.
  first_read :
      (ctype : CompressionType) (s s' : S) (c : ℕ) (cs content : List ℕ) (bufsiz fuel : ℕ)
      → length (c ∷ cs) ≤ inbuf_size
      → codec.decode ctype s (c ∷ cs) outbuf_size
        ≡ record { state = s'; left = []; output = content; code = stream_end }
      → 0 < bufsiz
      → bufsiz ≤ length content
      → bufsiz < 2 ^ 63
      → (z : ZFile S) × (zfile_read codec
            (suc (suc fuel))
            bufsiz
            (state_at codec ctype (some s) [] (c ∷ cs) [] 0 0 0)
          ≡ returned (some (take bufsiz content), z))
        × Ended codec z (drop bufsiz content)
  unfolding decode_filled go_on read_rounds
  first_read ctype s s' c cs content bufsiz fuel fits decoded nonzero long small =
      let all : take inbuf_size (c ∷ cs) ≡ c ∷ cs = take_all inbuf_size (c ∷ cs) fits in
      let none_left : drop inbuf_size (c ∷ cs) ≡ [] = drop_all inbuf_size (c ∷ cs) fits in
      let next = read_rounds codec (suc fuel) in
      let ended_on : List ℕ → ℕ → ReadResult S = λ unread size. go_on codec next size [] (
        stream_end,
        state_at codec ctype (some s') [] unread content (add_offset 0 0)
            (add_offset 0 (length content)) 0,
      ) in
      let filled = fill-refill codec ctype (some s) (c ∷ cs) [] (add_offset 0 0) 0 (0 + 0) all in
      (
        state_at codec ctype (some s') [] [] content (add_offset (add_offset 0 0) bufsiz)
            (add_offset 0 (length content)) (0 + bufsiz),
        zfile_read_rounds codec ctype (some s) [] (c ∷ cs) [] 0 0 0 bufsiz (suc fuel) nonzero small
            ∙ round-beyond codec ctype (some s) [] (c ∷ cs) next bufsiz [] [] 0 0 0 (omega arith)
                nonzero
            ∙ ap (decode_filled codec next (bufsiz - 0) []) filled
            ∙ ap (go_on codec next (bufsiz - 0) [])
                (inflate_end codec (drop inbuf_size (c ∷ cs)) [] (add_offset 0 0) 0 (0 + 0) decoded)
            ∙ ap (λ u. ended_on u (bufsiz - 0)) none_left
            ∙ ap (λ k. ended_on [] k) {x = bufsiz - 0} (omega arith)
            ∙ round_full codec ctype (some s') [] [] (read_rounds codec fuel) (has_decoder ctype)
                bufsiz [] content (add_offset 0 0) (add_offset 0 (length content)) 0 long,
        subst (Ended codec _) (ap (λ k. drop k content) {x = 0 + bufsiz} (omega arith))
            (ended (omega (arith, long))),
      )

  -- A file that one call of the decoder decodes, to a content that is not shorter than the buffer of
  -- the stream.
  pub stream_bytes-one_call :
      (ctype : CompressionType) (s s' : S) (c : ℕ) (cs content : List ℕ) (bufsiz fuel : ℕ)
      → length (c ∷ cs) ≤ inbuf_size
      → codec.decode ctype s (c ∷ cs) outbuf_size
        ≡ record { state = s'; left = []; output = content; code = stream_end }
      → 0 < bufsiz
      → bufsiz ≤ length content
      → bufsiz < 2 ^ 63
      → length content ≤ fuel
      → stream_bytes codec
          (suc (suc (suc fuel)))
          bufsiz
          (state_at codec ctype (some s) [] (c ∷ cs) [] 0 0 0)
        ≡ exits
  stream_bytes-one_call ctype s s' c cs content bufsiz fuel fits decoded nonzero long small enough =
      let (z, read, e) =
        first_read ctype s s' c cs content bufsiz fuel fits decoded nonzero long small in
      stream_bytes-suc (suc (suc fuel)) bufsiz _
      ∙ ap (stream_on (stream_bytes codec (suc (suc fuel)) bufsiz)) read
      ∙ exits_later _ (take bufsiz content) z (omega (arith, length-take_of_le bufsiz content long))
          (stream_bytes-exits bufsiz (suc fuel) e nonzero small
            (omega (arith, length-drop bufsiz content)))
