-- ===== src/Http/Chunk/Frame.antt =====
-- `__parse_chunk` of src/protocol/http_parser.c writes the chunk's offset and state only.
use myworkflow.Base.{
  ◌-◌, false, ℕ, zero, suc, ◌≡◌, refl, ap, ◌∙◌, subst, Option, some, arith, length,
}
use myworkflow.Http.Types.{
  msgsize, http_chunk_line_max, http_trailer_line_max, ChunkState, chunk_data, Parser, Ret, Round,
  stop, again, go_on,
}
use myworkflow.Http.Lines.{LineScan, line, scan_line}
use myworkflow.Http.Rounds.{after_round, rounds}
use myworkflow.Http.Chunk.{
  chunk_ptr, take_chunk, take_size, end_chunk_line, parse_chunk_data, end_trailer_line,
  parse_trailer_part, trailer_round, chunk_round_at, chunk_round, parse_chunk,
}

-- `q` is `p` but for these two fields.
abbrev pub Frame : Parser → Parser → Type 0
Frame p q = q ≡ record p { chunk_offset = q.chunk_offset; chunk_state = q.chunk_state }

abbrev RoundFrame : Parser → Round → Type 0
RoundFrame p (stop r q) = Frame p q
RoundFrame p (again q) = Frame p q

end_chunk_line-Frame :
    (len : ℕ) (r : LineScan) (p : Parser) → RoundFrame p (go_on (end_chunk_line len r p))
unfolding end_chunk_line take_size take_chunk
end_chunk_line-Frame len (line s) p = ground arith
end_chunk_line-Frame len LineScan.short p = refl
end_chunk_line-Frame len LineScan.bad p = refl

end_trailer_line-Frame :
    (r : LineScan) (p : Parser) → RoundFrame p (trailer_round (end_trailer_line r p))
unfolding end_trailer_line
end_trailer_line-Frame (line s) p = ground arith
end_trailer_line-Frame LineScan.short p = ground arith
end_trailer_line-Frame LineScan.bad p = ground arith

chunk_round_at-Frame : (s : ChunkState) (p : Parser) → RoundFrame p (chunk_round_at s p)
unfolding chunk_round_at parse_chunk_data parse_trailer_part
chunk_round_at-Frame chunk_data p =
    end_chunk_line-Frame (length (chunk_ptr p))
      (scan_line (λ c. false) http_chunk_line_max (chunk_ptr p)) p
chunk_round_at-Frame _ p =
    end_trailer_line-Frame (scan_line (λ c. false) http_trailer_line_max (chunk_ptr p)) p

after_round-Frame :
    (next : Parser → Option (Ret × Parser)) (p q : Parser) (r : Ret)
    → ((t : Parser) → next t ≡ some (r, q) → Frame t q)
    → (x : Round) → RoundFrame p x
    → after_round next (some x) ≡ some (r, q)
    → Frame p q
unfolding after_round
after_round-Frame next p q r k (stop s t) f e =
    let same : t ≡ q = cc in subst (λ z. Frame p z) same f
after_round-Frame next p q r k (again t) f e =
    let put : Parser → Parser =
      λ z. record z { chunk_offset = q.chunk_offset; chunk_state = q.chunk_state } in
    k t e ∙ ap put f

rounds-Frame :
    (fuel : ℕ) (p q : Parser) (r : Ret) → rounds chunk_round fuel p ≡ some (r, q) → Frame p q
unfolding rounds chunk_round
rounds-Frame zero p q r e = cc
rounds-Frame (suc fuel) p q r e =
    after_round-Frame (rounds chunk_round fuel) p q r (λ t k. rounds-Frame fuel t q r k)
      (chunk_round_at p.chunk_state p) (chunk_round_at-Frame p.chunk_state p) e

pub parse_chunk-Frame : (p q : Parser) (r : Ret) → parse_chunk p ≡ some (r, q) → Frame p q
unfolding parse_chunk
parse_chunk-Frame p q r e = rounds-Frame (suc (msgsize p - p.chunk_offset)) p q r e
