-- ===== src/Http/Header/Steps.antt =====
-- One call of a parsing function of src/protocol/http_parser.c: how far it reads, and what more
-- input behind the message changes.
use myworkflow.Base.{
  if◌then◌else◌, ℕ, suc, ◌+◌, ◌≤◌, ◌<◌, ◌≡◌, ◌≢◌, refl, inl, inr, Bool, true, false, List, [], ◌∷◌,
  ◌++◌, arith, length, ◌==◌, Bool-cases, Option-cases,
}
use myworkflow.Http.Types.{Parser, feed, Ret, done, more, failed, invalid, http_start_line_max}
use myworkflow.Http.Fields.Feed.{
  feed_ret, match_request_line-feed, match_status_line-feed, match_request_line-Same,
  match_status_line-Same,
}
use myworkflow.Http.Lines.{LineScan, line, scan_line, scan_name, cut_space}
use myworkflow.Http.Lines.Stable.{Fits, Extends, scan_line-Fits, scan_line-Extends}
use myworkflow.Http.Header.{at_crlf, store_start_line, end_start_line, parse_start_line}

-- A step that is done goes forward within the input; one that waits changes nothing.
abbrev pub Moves : List ℕ → Parser → Ret × Parser → Type 0
Moves ptr p (done, q) =
    (q.msgbuf ≡ p.msgbuf)
    × (p.header_offset < q.header_offset)
    × (q.header_offset ≤ p.header_offset + length ptr)
Moves ptr p (more, q) = q ≡ p
Moves ptr p (failed, q) = (q.msgbuf ≡ p.msgbuf) × (q.header_offset ≡ p.header_offset)
Moves ptr p (invalid, q) = (q.msgbuf ≡ p.msgbuf) × (q.header_offset ≡ p.header_offset)

-- A step `y` with `b` behind the input is the step without it, unless that waits: then `y` reads
-- all of the input that was there, if it is done.
abbrev pub Later : List ℕ → List ℕ → Parser → Ret × Parser → Ret × Parser → Type 0
Later b ptr p (done, q) y = y ≡ (done, feed q b)
Later b ptr p (failed, q) y = y ≡ (failed, feed q b)
Later b ptr p (invalid, q) y = y ≡ (invalid, feed q b)
Later b ptr p (more, q) (done, q') = p.header_offset + length ptr ≤ q'.header_offset
Later b ptr p (more, q) (more, q') = Unit
Later b ptr p (more, q) (failed, q') = Unit
Later b ptr p (more, q) (invalid, q') = Unit

store_start_line-feed :
    (malloc_ok : ℕ → Bool) (l b : List ℕ) (p : Parser)
    → store_start_line malloc_ok l (feed p b) ≡ feed_ret b (store_start_line malloc_ok l p)
unfolding store_start_line
store_start_line-feed malloc_ok l b p = elim (Option-cases (cut_space l)) [
  | inl e ↦ rw (e, store_start_line)
  | inr ((m, rest), e) ↦ elim (Option-cases (cut_space rest)) [
    | inl e' ↦ rw (e, store_start_line, e')
    | inr ((u, v), e') ↦ ground (
      arith,
      e,
      e',
      match_request_line-feed malloc_ok m u v b p,
      match_status_line-feed malloc_ok m u v b p,
    )
  ]
]

-- A step that is done goes on by `k` bytes.
abbrev pub Goes : ℕ → Parser → Ret × Parser → Type 0
Goes k p (done, q) = (q.msgbuf ≡ p.msgbuf) × (q.header_offset ≡ p.header_offset + k)
Goes k p (more, q) = q ≡ p
Goes k p (failed, q) = (q.msgbuf ≡ p.msgbuf) × (q.header_offset ≡ p.header_offset)
Goes k p (invalid, q) = (q.msgbuf ≡ p.msgbuf) × (q.header_offset ≡ p.header_offset)

pub Goes-Moves :
    (k : ℕ) (ptr : List ℕ) (p : Parser) (r : Ret × Parser)
    → 1 ≤ k
    → k ≤ length ptr
    → Goes k p r
    → Moves ptr p r
Goes-Moves k ptr p (done, q) h h' g = (g.0, omega arith, omega arith)
Goes-Moves k ptr p (more, q) h h' g = g
Goes-Moves k ptr p (failed, q) h h' g = g
Goes-Moves k ptr p (invalid, q) h h' g = g

pub Goes-Later :
    (k : ℕ) (ptr b : List ℕ) (p : Parser) (y : Ret × Parser)
    → length ptr ≤ k
    → Goes k (feed p b) y
    → Later b ptr p (more, p) y
Goes-Later k ptr b p (done, q) h g = omega arith
Goes-Later k ptr b p (more, q) h g = tt
Goes-Later k ptr b p (failed, q) h g = tt
Goes-Later k ptr b p (invalid, q) h g = tt

-- A result that does not wait is the same with `b` behind the input.
abbrev pub Definite : Ret × Parser → Type 0
Definite (r, q) = r ≢ more

pub Later-feed :
    (b ptr : List ℕ) (p : Parser) (r y : Ret × Parser)
    → Definite r
    → y ≡ feed_ret b r
    → Later b ptr p r y
Later-feed b ptr p (done, q) y d e = e
Later-feed b ptr p (more, q) y d e = absurd (d refl)
Later-feed b ptr p (failed, q) y d e = e
Later-feed b ptr p (invalid, q) y d e = e

store_start_line-Goes :
    (malloc_ok : ℕ → Bool) (l : List ℕ) (p : Parser)
    → Goes (length l + 2) p (store_start_line malloc_ok l p)
      × Definite (store_start_line malloc_ok l p)
unfolding store_start_line
store_start_line-Goes malloc_ok l p = elim (Option-cases (cut_space l)) [
  | inl e ↦ ground arith
  | inr ((m, rest), e) ↦ elim (Option-cases (cut_space rest)) [
    | inl e' ↦ ground arith
    | inr ((u, v), e') ↦
        ground (
          arith,
          match_request_line-Same malloc_ok m u v p,
          match_status_line-Same malloc_ok m u v p,
        )
  ]
]

end_start_line-Moves :
    (malloc_ok : ℕ → Bool) (room : ℕ) (ptr : List ℕ) (r : LineScan) (p : Parser)
    → Fits 2 room (length ptr) r
    → Moves ptr p (end_start_line malloc_ok r p)
unfolding end_start_line
end_start_line-Moves malloc_ok room ptr (line l) p h =
    Goes-Moves (length l + 2) ptr p (store_start_line malloc_ok l p) (omega arith) (omega arith)
      (store_start_line-Goes malloc_ok l p).0
end_start_line-Moves malloc_ok room ptr LineScan.short p h = refl
end_start_line-Moves malloc_ok room ptr LineScan.bad p h = (refl, refl)

end_start_line-Later :
    (malloc_ok : ℕ → Bool) (b ptr : List ℕ) (r y : LineScan) (p : Parser)
    → Extends 2 (length ptr) r y
    → Later b ptr p (end_start_line malloc_ok r p) (end_start_line malloc_ok y (feed p b))
unfolding end_start_line
end_start_line-Later malloc_ok b ptr (line l) y p h = rw h (
    Later-feed b ptr p (store_start_line malloc_ok l p) (store_start_line malloc_ok l (feed p b))
      (store_start_line-Goes malloc_ok l p).1 (store_start_line-feed malloc_ok l b p))
end_start_line-Later malloc_ok b ptr LineScan.bad y p h = rw h
end_start_line-Later malloc_ok b ptr LineScan.short (line l) p h =
    Goes-Later (length l + 2) ptr b p (store_start_line malloc_ok l (feed p b)) (omega arith)
      (store_start_line-Goes malloc_ok l (feed p b)).0
end_start_line-Later malloc_ok b ptr LineScan.short LineScan.short p h = tt
end_start_line-Later malloc_ok b ptr LineScan.short LineScan.bad p h = tt

-- A CR LF at the start: it stays there, and where only its first bytes are there the line waits.
pub at_crlf-append : (s b : List ℕ) → at_crlf s ≡ true → (at_crlf (s ++ b) ≡ true) × (2 ≤ length s)
at_crlf-append [] b h = ground arith
at_crlf-append (c ∷ []) b h = ground arith
at_crlf-append (c ∷ d ∷ s) b h = ground arith

-- A CR LF that comes only with the new input: the scans wait.
pub at_crlf-new :
    (refused : ℕ → Bool) (room : ℕ) (s b : List ℕ)
    → at_crlf s ≡ false
    → at_crlf (s ++ b) ≡ true
    → (length s < 2)
      × (scan_line refused (suc room) s ≡ LineScan.short)
      × (scan_name (suc (suc room)) s ≡ LineScan.short)
unfolding scan_line scan_name
at_crlf-new refused room [] b h h' = ground arith
at_crlf-new refused room (c ∷ []) b h h' = ground arith
at_crlf-new refused room (c ∷ d ∷ s) b h h' = ground arith

pub parse_start_line-Moves :
    (malloc_ok : ℕ → Bool) (ptr : List ℕ) (p : Parser)
    → Moves ptr p (parse_start_line malloc_ok ptr p)
unfolding parse_start_line
parse_start_line-Moves malloc_ok ptr p = elim (Bool-cases (at_crlf ptr)) [
  | inl e ↦ rw e (refl, omega arith, omega (arith, (at_crlf-append ptr [] e).1))
  | inr e ↦ rw e (
      end_start_line-Moves malloc_ok http_start_line_max ptr _ p
        (scan_line-Fits (λ c. c == 0) http_start_line_max ptr))
]

start_line_round-Later :
    (malloc_ok : ℕ → Bool) (b ptr : List ℕ) (p : Parser) (here there : Bool) (r y : LineScan)
    → (here ≡ true → there ≡ true)
    → (here ≡ false → there ≡ true → (length ptr < 2) × (r ≡ LineScan.short))
    → Extends 2 (length ptr) r y
    → Later b ptr p
        (if here
          then (done, record p { header_offset = p.header_offset + 2 })
          else end_start_line malloc_ok r p)
        (if there
          then (done, record (feed p b) { header_offset = p.header_offset + 2 })
          else end_start_line malloc_ok y (feed p b))
unfolding end_start_line
start_line_round-Later malloc_ok b ptr p true true r y h w x = refl
start_line_round-Later malloc_ok b ptr p true false r y h w x = ground (arith, h refl)
start_line_round-Later malloc_ok b ptr p false true r y h w x =
    let (short, e) = w refl refl in rw e (omega (arith, short))
start_line_round-Later malloc_ok b ptr p false false r y h w x =
    end_start_line-Later malloc_ok b ptr r y p x

pub parse_start_line-Later :
    (malloc_ok : ℕ → Bool) (ptr b : List ℕ) (p : Parser)
    → Later b ptr p
        (parse_start_line malloc_ok ptr p)
        (parse_start_line malloc_ok (ptr ++ b) (feed p b))
unfolding parse_start_line
parse_start_line-Later malloc_ok ptr b p =
    start_line_round-Later malloc_ok b ptr p (at_crlf ptr) (at_crlf (ptr ++ b))
      (scan_line (λ c. c == 0) http_start_line_max ptr)
      (scan_line (λ c. c == 0) http_start_line_max (ptr ++ b)) (λ e. (at_crlf-append ptr b e).0)
      (λ e e'. let w = at_crlf-new (λ c. c == 0) 8191 ptr b e e' in (w.0, w.1))
      (scan_line-Extends (λ c. c == 0) http_start_line_max ptr b)
