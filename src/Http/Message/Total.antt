-- ===== src/Http/Message/Total.antt =====
-- `http_parser_append_message` of src/protocol/http_parser.c ends, and what it leaves can go on.
use myworkflow.Base.{
  ℕ, ◌≤◌, ◌≡◌, refl, sym, ap, subst, ◌∙◌, inl, inr, Bool, true, false, Option, some, List, leb,
  ◌==◌, arith, length, take, Bool-cases, leb→le,
}
use myworkflow.Http.Types.{
  size_unknown, is_header_complete, Parser, msgsize, Ret, done, more, failed, invalid,
}
use myworkflow.Http.Loop.{Ready, Ends}
use myworkflow.Http.Header.{header_round}
use myworkflow.Http.Header.Rounds.{header_off, header_closed}
use myworkflow.Http.Header.Law.{parse_message_header_total}
use myworkflow.Http.Chunk.{chunk_round, parse_chunk}
use myworkflow.Http.Chunk.Law.{chunk_off, chunk_closed, parse_chunk_total}
use myworkflow.Http.Chunk.Frame.{Frame, parse_chunk-Frame}
use myworkflow.Http.Message.{
  total_size, finish, body_start, after_chunks, advance_body, after_header, advance,
}
use myworkflow.Http.Message.Pieces.{
  InBody, Alive, advance_body-chunks, body_start-Alive, body_start-state, advance-open,
  advance-closed,
}

-- How the parser ends that had the bytes `b`.
abbrev pub Settled : List ℕ → Ret × ℕ × Parser → Type 0
Settled b (done, n, q) = (q.complete ≡ true) × ((k : ℕ) × (k ≤ length b) × (q.msgbuf ≡ take k b))
Settled b (more, n, q) = Alive q × (q.msgbuf ≡ b)
Settled b (failed, n, q) = q.msgbuf ≡ b
Settled b (invalid, n, q) = q.msgbuf ≡ b

-- The computation `o` ends so.
abbrev Settles : List ℕ → Option (Ret × ℕ × Parser) → Type 0
Settles b o = (r : Ret × ℕ × Parser) × (o ≡ some r) × Settled b r

body-Alive : (p : Parser) → is_header_complete p.header_state ≡ true → InBody p → Alive p
body-Alive p c v = rw c v

after_chunks-Settles :
    (n : ℕ) (p : Parser) (r : Ret × Parser)
    → is_header_complete p.header_state ≡ true
    → Frame p r.1
    → Ends chunk_off chunk_closed chunk_round p r
    → Settles p.msgbuf (after_chunks n (some r))
unfolding after_chunks
after_chunks-Settles n p (done, q) c frame (same, less, le, closed) =
    (finish q.chunk_offset n q, refl, (refl, (q.chunk_offset, le, ap (take q.chunk_offset) same)))
after_chunks-Settles n p (more, q) c frame (same, less, le, still, e) = (
  (more, n, q),
  refl,
  (
    body-Alive q (ap (λ t. is_header_complete t.header_state) frame ∙ c)
        (λ _. (omega (arith, ap length same), still)),
    same,
  ),
)
after_chunks-Settles n p (failed, q) c frame (same, le) = ((failed, n, q), refl, same)
after_chunks-Settles n p (invalid, q) c frame (same, le) = ((invalid, n, q), refl, same)

chunks-Settles :
    (n : ℕ) (p : Parser)
    → is_header_complete p.header_state ≡ true
    → Ready chunk_off chunk_closed p
    → Settles p.msgbuf (after_chunks n (parse_chunk p))
chunks-Settles n p c v =
    let (r, e, g) = parse_chunk_total p v in
    subst (λ o. Settles p.msgbuf (after_chunks n o)) (sym e)
      (after_chunks-Settles n p r c (parse_chunk-Frame p r.1 r.0 e) g)

advance_body-known-Settles :
    (n : ℕ) (p : Parser)
    → is_header_complete p.header_state ≡ true
    → InBody p
    → (p.transfer_length == size_unknown) ≡ false
    → Settles p.msgbuf (advance_body n p)
unfolding advance_body
advance_body-known-Settles n p c v k = elim (Bool-cases (leb (total_size p) (msgsize p))) [
  | inl h ↦ (
    finish (total_size p) n p,
    rw k (rw h),
    (refl, (total_size p, leb→le (total_size p) (msgsize p) h, refl)),
  )
  | inr h ↦ ((more, n, p), rw k (rw h), (body-Alive p c v, refl))
]

advance_body-endless-Settles :
    (n : ℕ) (p : Parser)
    → is_header_complete p.header_state ≡ true
    → InBody p
    → (p.transfer_length == size_unknown) ≡ true
    → p.chunked ≡ false
    → Settles p.msgbuf (advance_body n p)
unfolding advance_body
advance_body-endless-Settles n p c v u k = ((more, n, p), rw u (rw k), (body-Alive p c v, refl))

advance_body-Settles :
    (n : ℕ) (p : Parser)
    → is_header_complete p.header_state ≡ true
    → InBody p
    → Settles p.msgbuf (advance_body n p)
advance_body-Settles n p c v = elim (Bool-cases (p.transfer_length == size_unknown)) [
  | inr known ↦ advance_body-known-Settles n p c v known
  | inl unknown ↦ elim (Bool-cases p.chunked) [
    | inr plain ↦ advance_body-endless-Settles n p c v unknown plain
    | inl chunks ↦
        subst (Settles p.msgbuf) (sym (advance_body-chunks n p unknown chunks (v chunks).1))
          (chunks-Settles n p c (v chunks))
  ]
]

body_start-msgbuf : (h : Parser) → (body_start h).msgbuf ≡ h.msgbuf
unfolding body_start
body_start-msgbuf h = ground arith

after_header-Settles :
    (malloc_ok : ℕ → Bool) (n : ℕ) (p : Parser) (r : Ret × Parser)
    → Ends header_off header_closed (header_round malloc_ok) p r
    → Settles p.msgbuf (after_header n (some r))
unfolding after_header
after_header-Settles malloc_ok n p (failed, h) (same, le) = ((failed, n, h), refl, same)
after_header-Settles malloc_ok n p (invalid, h) (same, le) = ((invalid, n, h), refl, same)
after_header-Settles malloc_ok n p (more, h) (same, ge, le, still, e) =
    ((more, n, h), refl, (rw still (omega (arith, ap length same)), same))
after_header-Settles malloc_ok n p (done, h) (same, less, le, closed) =
    subst (λ b. Settles b (advance_body n (body_start h))) (body_start-msgbuf h ∙ same)
      (advance_body-Settles n (body_start h) (ap is_header_complete (body_start-state h) ∙ closed)
        (body_start-Alive h (omega (arith, ap length same))))

-- From a state between two calls the parser ends: it reports an error with its bytes kept, or it has
-- cut the message off behind a prefix of them and is complete, or it waits with all of them, in a
-- state from which the next bytes are read.
pub advance_total :
    (malloc_ok : ℕ → Bool) (n : ℕ) (p : Parser)
    → Alive p
    → (r : Ret × ℕ × Parser) × (advance malloc_ok n p ≡ some r) × Settled p.msgbuf r
advance_total malloc_ok n p v = elim (Bool-cases (is_header_complete p.header_state)) [
  | inl c ↦
      subst (Settles p.msgbuf) (sym (advance-closed malloc_ok n p c))
        (advance_body-Settles n p c (rw c at v))
  | inr o ↦
      let (r, e, g) = parse_message_header_total malloc_ok p (rw o at v, o) in
      subst (Settles p.msgbuf) (sym (advance-open malloc_ok n p o ∙ ap (after_header n) e))
        (after_header-Settles malloc_ok n p r g)
]
