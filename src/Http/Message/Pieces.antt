-- ===== src/Http/Message/Pieces.antt =====
-- `http_parser_append_message` of src/protocol/http_parser.c on a message that arrives in pieces.
use myworkflow.Base.{
  ℕ, ◌≤◌, ◌<◌, ◌≡◌, refl, sym, ap, subst, ◌∙◌, inl, inr, Bool, true, false, Option, none, some,
  List, ◌==◌, leb, if◌then◌else◌, arith, length, Bool-cases, leb-false,
}
use myworkflow.Http.Types.{
  size_unknown, is_header_complete, Parser, msgsize, feed, Ret, done, more, failed, invalid,
}
use myworkflow.Http.Loop.{Ready, Ends}
use myworkflow.Http.Header.{header_round, parse_message_header}
use myworkflow.Http.Header.Rounds.{header_off, header_closed}
use myworkflow.Http.Header.Law.{
  parse_message_header_total, parse_message_header-feed, parse_message_header-definite,
}
use myworkflow.Http.Chunk.{chunk_round, parse_chunk}
use myworkflow.Http.Chunk.Law.{chunk_off, chunk_closed, parse_chunk_total, parse_chunk-feed}
use myworkflow.Http.Chunk.Frame.{parse_chunk-Frame}
use myworkflow.Http.Message.{
  total_size, body_start, after_chunks, advance_chunks, advance_body, after_header, advance,
}

-- Where the body is chunked, the parser stands inside it.
abbrev pub InBody : Parser → Type 0
InBody p = p.chunked ≡ true → Ready chunk_off chunk_closed p

-- The state between two calls, and after the copy: before the header's end, or in the body.
abbrev pub Alive : Parser → Type 0
Alive p = if is_header_complete p.header_state then InBody p else (p.header_offset ≤ msgsize p)

after_chunks-more :
    (n n' : ℕ) (o : Option (Ret × Parser)) (q : Parser)
    → after_chunks n o ≡ some (more, n', q)
    → o ≡ some (more, q)
unfolding after_chunks
after_chunks-more n n' none q e = cc
after_chunks-more n n' (some (done, t)) q e = cc
after_chunks-more n n' (some (more, t)) q e = cc
after_chunks-more n n' (some (failed, t)) q e = cc
after_chunks-more n n' (some (invalid, t)) q e = cc

-- A body of chunks.
pub advance_body-chunks :
    (n : ℕ) (p : Parser)
    → (p.transfer_length == size_unknown) ≡ true
    → p.chunked ≡ true
    → chunk_closed p ≡ false
    → advance_body n p ≡ after_chunks n (parse_chunk p)
unfolding advance_body advance_chunks
advance_body-chunks n p u c o = ground arith

-- A body of another kind waits in the state that it has.
advance_body-known :
    (n n' : ℕ) (p q : Parser)
    → (p.transfer_length == size_unknown) ≡ false
    → advance_body n p ≡ some (more, n', q)
    → (q ≡ p) × (msgsize p < total_size p)
unfolding advance_body
advance_body-known n n' p q k e =
    let e₁ = rw k at e in
    elim (Bool-cases (leb (total_size p) (msgsize p))) [
      | inl h ↦ let e₂ = rw h at e₁ in cc
      | inr h ↦ let e₂ = rw h at e₁ in (cc, leb-false (total_size p) (msgsize p) h)
    ]

advance_body-endless :
    (n n' : ℕ) (p q : Parser)
    → (p.transfer_length == size_unknown) ≡ true
    → p.chunked ≡ false
    → advance_body n p ≡ some (more, n', q)
    → q ≡ p
unfolding advance_body
advance_body-endless n n' p q u k e = let e₁ = rw u at e in let e₂ = rw k at e₁ in cc

-- What is shown of a body that waits: `q` is `p` but for the place in the chunks, and goes on as
-- `p` with all the bytes.
abbrev Waits : ℕ → Parser → Parser → List ℕ → Type 0
Waits k p q b =
    (q.header_state ≡ p.header_state)
    × InBody q
    × (advance_body k (feed q b) ≡ advance_body k (feed p b))

Waits-same : (k : ℕ) (p q : Parser) (b : List ℕ) → InBody p → q ≡ p → Waits k p q b
Waits-same k p q b v e =
    (ap (λ t. t.header_state) e, subst InBody (sym e) v, ap (λ t. advance_body k (feed t b)) e)

Waits-chunks :
    (n k : ℕ) (p q : Parser) (b : List ℕ)
    → (p.transfer_length == size_unknown) ≡ true
    → p.chunked ≡ true
    → Ready chunk_off chunk_closed p
    → parse_chunk p ≡ some (more, q)
    → Waits k p q b
Waits-chunks n k p q b u c v e =
    let frame = parse_chunk-Frame p q more e in
    let (r, e', g) = parse_chunk_total p v in
    let same : r ≡ (more, q) = cc in
    let ends : Ends chunk_off chunk_closed chunk_round p (more, q) =
      subst (λ z. Ends chunk_off chunk_closed chunk_round p z) same g in
    (
      ap (λ t. t.header_state) frame,
      (λ _. (omega (arith, ap length ends.0), ends.3)),
      advance_body-chunks k (feed q b) (ap (λ t. t.transfer_length == size_unknown) frame ∙ u)
            (ap (λ t. t.chunked) frame ∙ c) ends.3
          ∙ ap (after_chunks k) (parse_chunk-feed p q b v e)
          ∙ sym (advance_body-chunks k (feed p b) u c v.1),
    )

advance_body-Waits :
    (n k n' : ℕ) (p q : Parser) (b : List ℕ)
    → InBody p
    → advance_body n p ≡ some (more, n', q)
    → Waits k p q b
advance_body-Waits n k n' p q b v e = elim (Bool-cases (p.transfer_length == size_unknown)) [
  | inr known ↦ Waits-same k p q b v (advance_body-known n n' p q known e).0
  | inl unknown ↦ elim (Bool-cases p.chunked) [
    | inr plain ↦ Waits-same k p q b v (advance_body-endless n n' p q unknown plain e)
    | inl c ↦ Waits-chunks n k p q b unknown c (v c) (
        after_chunks-more n n' (parse_chunk p) q
          (sym (advance_body-chunks n p unknown c (v c).1) ∙ e))
  ]
]

-- The state of a header that has just been completed.
pub body_start-Alive : (h : Parser) → h.header_offset ≤ msgsize h → InBody (body_start h)
unfolding body_start
body_start-Alive h v c = ground arith

body_start-feed : (h : Parser) (b : List ℕ) → body_start (feed h b) ≡ feed (body_start h) b
unfolding body_start
body_start-feed h b = ground arith

pub body_start-state : (h : Parser) → (body_start h).header_state ≡ h.header_state
unfolding body_start
body_start-state h = ground arith

pub advance-open :
    (malloc_ok : ℕ → Bool) (n : ℕ) (p : Parser)
    → is_header_complete p.header_state ≡ false
    → advance malloc_ok n p ≡ after_header n (parse_message_header malloc_ok p)
unfolding advance
advance-open malloc_ok n p o = rw o

pub advance-closed :
    (malloc_ok : ℕ → Bool) (n : ℕ) (p : Parser)
    → is_header_complete p.header_state ≡ true
    → advance malloc_ok n p ≡ advance_body n p
unfolding advance
advance-closed malloc_ok n p o = rw o

header-Ends :
    (malloc_ok : ℕ → Bool) (p : Parser) (r : Ret × Parser)
    → Ready header_off header_closed p
    → parse_message_header malloc_ok p ≡ some r
    → Ends header_off header_closed (header_round malloc_ok) p r
header-Ends malloc_ok p r v e =
    let (r', e', g) = parse_message_header_total malloc_ok p v in
    let same : r' ≡ r = cc in
    subst (λ z. Ends header_off header_closed (header_round malloc_ok) p z) same g

after_header-Waits :
    (malloc_ok : ℕ → Bool) (n k n' : ℕ) (p q : Parser) (b : List ℕ) (o : Option (Ret × Parser))
    → Ready header_off header_closed p
    → parse_message_header malloc_ok p ≡ o
    → after_header n o ≡ some (more, n', q)
    → advance malloc_ok k (feed q b) ≡ advance malloc_ok k (feed p b)
unfolding after_header
after_header-Waits malloc_ok n k n' p q b none v e e' = cc
after_header-Waits malloc_ok n k n' p q b (some (failed, h)) v e e' = cc
after_header-Waits malloc_ok n k n' p q b (some (invalid, h)) v e e' = cc
after_header-Waits malloc_ok n k n' p q b (some (more, h)) v e e' =
    let same : h ≡ q = cc in
    let waits : parse_message_header malloc_ok p ≡ some (more, q) =
      e ∙ ap (λ t. some (more, t)) same in
    let ends = header-Ends malloc_ok p (more, q) v waits in
    advance-open malloc_ok k (feed q b) ends.3
    ∙ ap (after_header k) (parse_message_header-feed malloc_ok p q b v waits)
    ∙ sym (advance-open malloc_ok k (feed p b) v.1)
after_header-Waits malloc_ok n k n' p q b (some (done, h)) v e e' =
    let ends = header-Ends malloc_ok p (done, h) v e in
    let waits =
      advance_body-Waits n k n' (body_start h) q b
        (body_start-Alive h (omega (arith, ap length ends.0, ends.2))) e' in
    advance-closed malloc_ok k (feed q b)
      (ap is_header_complete (waits.0 ∙ body_start-state h) ∙ ends.3)
    ∙ waits.2
    ∙ ap (advance_body k) (sym (body_start-feed h b))
    ∙ ap (after_header k) (sym (parse_message_header-definite malloc_ok p h b done (λ x. cc) v e))
    ∙ sym (advance-open malloc_ok k (feed p b) v.1)

-- Feeding a message in two pieces gives what feeding it at once gives: if a parser waits for more
-- after the bytes that it has, then going on with `b` gives the result, the count and the state that
-- the parser gives that had `b` behind its bytes from the start.
pub advance-feed :
    (malloc_ok : ℕ → Bool) (n k n' : ℕ) (p q : Parser) (b : List ℕ)
    → Alive p
    → advance malloc_ok n p ≡ some (more, n', q)
    → advance malloc_ok k (feed q b) ≡ advance malloc_ok k (feed p b)
advance-feed malloc_ok n k n' p q b v e = elim (Bool-cases (is_header_complete p.header_state)) [
  | inl c ↦
      let waits =
        advance_body-Waits n k n' p q b (rw c at v) (sym (advance-closed malloc_ok n p c) ∙ e) in
      advance-closed malloc_ok k (feed q b) (ap is_header_complete waits.0 ∙ c)
      ∙ waits.2
      ∙ sym (advance-closed malloc_ok k (feed p b) c)
  | inr o ↦
      after_header-Waits malloc_ok n k n' p q b (parse_message_header malloc_ok p) (rw o at v, o)
        refl (sym (advance-open malloc_ok n p o) ∙ e)
]
