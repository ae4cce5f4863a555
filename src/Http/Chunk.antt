-- ===== src/Http/Chunk.antt =====
-- `__parse_chunk_data`, `__parse_trailer_part` and `__parse_chunk` of src/protocol/http_parser.c.
pub mod Law
pub mod Frame
use myworkflow.Base.{
  ℕ, suc, ◌+◌, ◌-◌, Bool, true, false, Option, none, some, List, [], ◌∷◌, ltb, ◌==◌, if◌then◌else◌,
  length, drop, strtol_hex,
}
use myworkflow.Http.Types.{
  http_chunk_line_max, http_trailer_line_max, chunk_size_max, ChunkState, chunk_data, trailer_part,
  chunk_complete, is_chunk_complete, Parser, msgsize, Ret, done, more, failed, invalid, Round, stop,
  again, go_on,
}
use myworkflow.Http.Lines.{LineScan, line, scan_line}
use myworkflow.Http.Rounds.{rounds}

-- The branch on the size: `i` is the length of the line that holds it.
unfoldable pub take_chunk : ℕ → ℕ → ℕ → Parser → Ret × Parser
take_chunk len i chunk_size p =
    if chunk_size == 0
    then (done, record p { chunk_offset = p.chunk_offset + (i + 2); chunk_state = trailer_part })
    else if ltb chunk_size chunk_size_max
    then (if ltb len (chunk_size + (i + 4))
        then (more, p)
        else (done, record p { chunk_offset = p.chunk_offset + (chunk_size + (i + 4)) }))
    else (invalid, p)

-- `end == chunk_line` refuses a line with no number.
unfoldable pub take_size : ℕ → ℕ → Option ℕ → Parser → Ret × Parser
unfolding take_chunk
take_size len i none p = (invalid, p)
take_size len i (some chunk_size) p = take_chunk len i chunk_size p

-- What the scan's end means.
unfoldable pub end_chunk_line : ℕ → LineScan → Parser → Ret × Parser
unfolding strtol_hex take_size
end_chunk_line len (line s) p = take_size len (length s) (strtol_hex s) p
end_chunk_line len LineScan.short p = (more, p)
end_chunk_line len LineScan.bad p = (invalid, p)

unfoldable pub parse_chunk_data : List ℕ → Parser → Ret × Parser
unfolding scan_line end_chunk_line
parse_chunk_data ptr p =
    end_chunk_line (length ptr) (scan_line (λ c. false) http_chunk_line_max ptr) p

-- An empty line ends the trailer.
unfoldable pub end_trailer_line : LineScan → Parser → Ret × Parser
end_trailer_line (line s) p =
    let q = record p { chunk_offset = p.chunk_offset + (length s + 2) } in
    (done, if length s == 0 then record q { chunk_state = chunk_complete } else q)
end_trailer_line LineScan.short p = (more, p)
end_trailer_line LineScan.bad p = (invalid, p)

unfoldable pub parse_trailer_part : List ℕ → Parser → Ret × Parser
unfolding scan_line end_trailer_line
parse_trailer_part ptr p = end_trailer_line (scan_line (λ c. false) http_trailer_line_max ptr) p

abbrev pub chunk_ptr : Parser → List ℕ
chunk_ptr p = drop p.chunk_offset p.msgbuf

-- A completed trailer ends the loop, whatever `ret` is.
abbrev pub trailer_round : Ret × Parser → Round
trailer_round (r, q) = if is_chunk_complete q.chunk_state then stop done q else go_on (r, q)

-- The branch on `chunk_state`.
unfoldable pub chunk_round_at : ChunkState → Parser → Round
unfolding parse_chunk_data parse_trailer_part
chunk_round_at chunk_data p = go_on (parse_chunk_data (chunk_ptr p) p)
chunk_round_at _ p = trailer_round (parse_trailer_part (chunk_ptr p) p)

-- One round of the loop of `__parse_chunk`.
unfoldable pub chunk_round : Parser → Option Round
unfolding chunk_round_at
chunk_round p = some (chunk_round_at p.chunk_state p)

unfoldable pub parse_chunk : Parser → Option (Ret × Parser)
unfolding chunk_round rounds
parse_chunk p = rounds chunk_round (suc (msgsize p - p.chunk_offset)) p
