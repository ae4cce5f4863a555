-- ===== src/Http/Chunk/Law.antt =====
-- The rounds of `__parse_chunk` in src/protocol/http_parser.c, as the loop of
-- Http/Loop/Pieces.antt, and what follows for the loop.
use myworkflow.Base.{
  ℕ, ◌+◌, ◌≤◌, ◌<◌, ◌≡◌, refl, subst, Bool, false, Option, some, none, List, ◌++◌, arith, length,
  length-append, length-drop, drop-append, strtol_hex,
}
use myworkflow.Http.Types.{
  http_chunk_line_max, http_trailer_line_max, ChunkState, chunk_data, is_chunk_complete, Parser,
  msgsize, feed, Ret, done, more, Round, stop, go_on,
}
use myworkflow.Http.Lines.{LineScan, line, scan_line}
use myworkflow.Http.Lines.Stable.{Fits, Extends, scan_line-Fits, scan_line-Extends}
use myworkflow.Http.Loop.{Steps, RoundLater, Ready, Ends}
use myworkflow.Http.Loop.Pieces.{Rounds}
use myworkflow.Http.Loop.Whole.{loop_total, loop-feed, loop-passes}
use myworkflow.Http.Chunk.{
  take_chunk, take_size, end_chunk_line, parse_chunk_data, end_trailer_line, parse_trailer_part,
  chunk_ptr, trailer_round, chunk_round_at, chunk_round, parse_chunk,
}

abbrev pub chunk_off : Parser → ℕ
chunk_off p = p.chunk_offset

abbrev pub chunk_closed : Parser → Bool
chunk_closed p = is_chunk_complete p.chunk_state

abbrev pub ChunkSteps : Parser → Round → Type 0
ChunkSteps = Steps chunk_off chunk_closed

abbrev pub ChunkLater : List ℕ → Parser → Round → Round → Type 0
ChunkLater = RoundLater chunk_off chunk_closed

take_size-ChunkSteps :
    (len i : ℕ) (o : Option ℕ) (p : Parser)
    → i + 2 ≤ len
    → chunk_off p + len ≡ msgsize p
    → chunk_closed p ≡ false
    → ChunkSteps p (go_on (take_size len i o p))
unfolding take_size take_chunk
take_size-ChunkSteps len i none p h e c = (refl, refl)
take_size-ChunkSteps len i (some n) p h e c = ground arith

take_size-ChunkLater :
    (len i : ℕ) (o : Option ℕ) (b : List ℕ) (p : Parser)
    → chunk_off p + len ≡ msgsize p
    → ChunkLater b p
        (go_on (take_size len i o p))
        (go_on (take_size (len + length b) i o (feed p b)))
unfolding take_size take_chunk
take_size-ChunkLater len i none b p e = refl
take_size-ChunkLater len i (some n) b p e = ground arith

take_size_passes :
    (len len' i : ℕ) (o : Option ℕ) (b : List ℕ) (p : Parser)
    → len < i + 2
    → chunk_off p + len ≡ msgsize p
    → ChunkLater b p (stop more p) (go_on (take_size len' i o (feed p b)))
unfolding take_size take_chunk
take_size_passes len len' i none b p h e = tt
take_size_passes len len' i (some n) b p h e = ground arith

end_chunk_line-ChunkSteps :
    (room len : ℕ) (r : LineScan) (p : Parser)
    → Fits 2 room len r
    → chunk_off p + len ≡ msgsize p
    → chunk_closed p ≡ false
    → ChunkSteps p (go_on (end_chunk_line len r p))
unfolding end_chunk_line
end_chunk_line-ChunkSteps room len (line s) p h e c =
    take_size-ChunkSteps len (length s) (strtol_hex s) p h.1 e c
end_chunk_line-ChunkSteps room len LineScan.short p h e c = refl
end_chunk_line-ChunkSteps room len LineScan.bad p h e c = (refl, refl)

end_chunk_line-ChunkLater :
    (len : ℕ) (r y : LineScan) (b : List ℕ) (p : Parser)
    → Extends 2 len r y
    → chunk_off p + len ≡ msgsize p
    → ChunkLater b p
        (go_on (end_chunk_line len r p))
        (go_on (end_chunk_line (len + length b) y (feed p b)))
unfolding end_chunk_line
end_chunk_line-ChunkLater len (line s) y b p h e =
    rw h (take_size-ChunkLater len (length s) (strtol_hex s) b p e)
end_chunk_line-ChunkLater len LineScan.bad y b p h e = rw h
end_chunk_line-ChunkLater len LineScan.short (line s) b p h e =
    take_size_passes len (len + length b) (length s) (strtol_hex s) b p h e
end_chunk_line-ChunkLater len LineScan.short LineScan.short b p h e = tt
end_chunk_line-ChunkLater len LineScan.short LineScan.bad b p h e = tt

end_trailer_line-ChunkSteps :
    (room len : ℕ) (r : LineScan) (p : Parser)
    → Fits 2 room len r
    → chunk_off p + len ≡ msgsize p
    → chunk_closed p ≡ false
    → ChunkSteps p (trailer_round (end_trailer_line r p))
unfolding end_trailer_line
end_trailer_line-ChunkSteps room len (line s) p h e c = ground arith
end_trailer_line-ChunkSteps room len LineScan.short p h e c = rw c refl
end_trailer_line-ChunkSteps room len LineScan.bad p h e c = rw c (refl, refl)

end_trailer_line-ChunkLater :
    (len : ℕ) (r y : LineScan) (b : List ℕ) (p : Parser)
    → Extends 2 len r y
    → chunk_off p + len ≡ msgsize p
    → chunk_closed p ≡ false
    → ChunkLater b p
        (trailer_round (end_trailer_line r p))
        (trailer_round (end_trailer_line y (feed p b)))
unfolding end_trailer_line
end_trailer_line-ChunkLater len (line s) y b p h e c = ground arith
end_trailer_line-ChunkLater len LineScan.bad y b p h e c = ground arith
end_trailer_line-ChunkLater len LineScan.short (line s) b p h e c = ground arith
end_trailer_line-ChunkLater len LineScan.short LineScan.short b p h e c = ground arith
end_trailer_line-ChunkLater len LineScan.short LineScan.bad b p h e c = ground arith

-- The unread bytes.
chunk_ptr-length :
    (p : Parser) → chunk_off p ≤ msgsize p → chunk_off p + length (chunk_ptr p) ≡ msgsize p
chunk_ptr-length p h = omega (arith, length-drop p.chunk_offset p.msgbuf)

chunk_round_at-ChunkSteps :
    (s : ChunkState) (p : Parser)
    → Ready chunk_off chunk_closed p
    → ChunkSteps p (chunk_round_at s p)
unfolding chunk_round_at parse_chunk_data parse_trailer_part
chunk_round_at-ChunkSteps chunk_data p v =
    end_chunk_line-ChunkSteps http_chunk_line_max (length (chunk_ptr p)) _ p
      (scan_line-Fits (λ c. false) http_chunk_line_max (chunk_ptr p)) (chunk_ptr-length p v.0) v.1
chunk_round_at-ChunkSteps _ p v =
    end_trailer_line-ChunkSteps http_trailer_line_max (length (chunk_ptr p)) _ p
      (scan_line-Fits (λ c. false) http_trailer_line_max (chunk_ptr p)) (chunk_ptr-length p v.0) v.1

chunk_round_at-ChunkLater :
    (s : ChunkState) (b : List ℕ) (p : Parser)
    → Ready chunk_off chunk_closed p
    → ChunkLater b p (chunk_round_at s p) (chunk_round_at s (feed p b))
unfolding chunk_round_at parse_chunk_data parse_trailer_part
chunk_round_at-ChunkLater chunk_data b p v =
    rw (drop-append p.chunk_offset p.msgbuf b v.0, length-append (chunk_ptr p) b)
      (end_chunk_line-ChunkLater (length (chunk_ptr p))
        (scan_line (λ c. false) http_chunk_line_max (chunk_ptr p))
        (scan_line (λ c. false) http_chunk_line_max (chunk_ptr p ++ b)) b p
        (scan_line-Extends (λ c. false) http_chunk_line_max (chunk_ptr p) b)
        (chunk_ptr-length p v.0))
chunk_round_at-ChunkLater _ b p v = rw (drop-append p.chunk_offset p.msgbuf b v.0) (
    end_trailer_line-ChunkLater (length (chunk_ptr p))
      (scan_line (λ c. false) http_trailer_line_max (chunk_ptr p))
      (scan_line (λ c. false) http_trailer_line_max (chunk_ptr p ++ b)) b p
      (scan_line-Extends (λ c. false) http_trailer_line_max (chunk_ptr p) b)
      (chunk_ptr-length p v.0) v.1)

chunk_law : Rounds chunk_round chunk_off chunk_closed
unfolding chunk_round
chunk_law = record {
  total =
      λ p v. (chunk_round_at p.chunk_state p, refl, chunk_round_at-ChunkSteps p.chunk_state p v);
  later = λ b p x y v e e'.
      let x_is : chunk_round_at p.chunk_state p ≡ x = cc in
      let y_is : chunk_round_at p.chunk_state (feed p b) ≡ y = cc in
      subst (λ z. ChunkLater b p z y) x_is
        (subst (λ z. ChunkLater b p (chunk_round_at p.chunk_state p) z) y_is
          (chunk_round_at-ChunkLater p.chunk_state b p v));
  off-feed = λ b p. refl;
  closed-feed = λ b p. refl;
}

-- `__parse_chunk` ends on every message, with the offset inside the message: a complete body has
-- been read to its end, and a parser that waits is one that its loop waits in.
pub parse_chunk_total :
    (p : Parser)
    → Ready chunk_off chunk_closed p
    → (r : Ret × Parser) × (parse_chunk p ≡ some r) × Ends chunk_off chunk_closed chunk_round p r
unfolding parse_chunk
parse_chunk_total = loop_total chunk_round chunk_off chunk_closed chunk_law

-- Reading a piece of a chunked body and then the rest ends as reading both at once.
pub parse_chunk-feed :
    (p q : Parser) (b : List ℕ)
    → Ready chunk_off chunk_closed p
    → parse_chunk p ≡ some (more, q)
    → parse_chunk (feed q b) ≡ parse_chunk (feed p b)
unfolding parse_chunk
parse_chunk-feed = loop-feed chunk_round chunk_off chunk_closed chunk_law

-- A chunked body that waits and is complete with `b` behind it, ends in `b`.
pub parse_chunk-passes :
    (p q t : Parser) (b : List ℕ)
    → Ready chunk_off chunk_closed p
    → parse_chunk p ≡ some (more, q)
    → parse_chunk (feed p b) ≡ some (done, t)
    → msgsize p ≤ t.chunk_offset
unfolding parse_chunk
parse_chunk-passes = loop-passes chunk_round chunk_off chunk_closed chunk_law
