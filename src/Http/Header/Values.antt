-- ===== src/Http/Header/Values.antt =====
-- The calls of `__parse_header_name` and `__parse_header_value` in src/protocol/http_parser.c.
use myworkflow.Base.{
  ℕ, suc, ◌-◌, ◌≡◌, refl, subst, inl, inr, Bool, some, List, [], ◌++◌, arith, length, ◌==◌,
  length-append, Bool-cases,
}
use myworkflow.Http.Types.{Parser, feed, Ret, http_header_name_max, http_header_value_max}
use myworkflow.Http.Fields.Feed.{feed_ret, http_parser_add_header-feed, http_parser_add_header-Same}
use myworkflow.Http.Lines.{LineScan, line, ValueScan, scan_value}
use myworkflow.Http.Lines.Stable.{Fits, Extends, scan_name-Fits, scan_name-Extends}
use myworkflow.Http.Lines.Value.{Reads, Follows}
use myworkflow.Http.Lines.Fold.{scan_value_total, scan_value-Follows}
use myworkflow.Http.Header.{
  at_crlf, end_header_name, end_header_value, parse_header_name, store_header, parse_header_value,
}
use myworkflow.Http.Header.Steps.{
  Moves, Later, Goes, Goes-Moves, Goes-Later, Definite, Later-feed, at_crlf-append, at_crlf-new,
}

end_header_name-Moves :
    (room : ℕ) (ptr : List ℕ) (r : LineScan) (p : Parser)
    → Fits 1 room (length ptr) r
    → Moves ptr p (end_header_name r p)
unfolding end_header_name
end_header_name-Moves room ptr (line l) p h = (refl, omega arith, omega arith)
end_header_name-Moves room ptr LineScan.short p h = refl
end_header_name-Moves room ptr LineScan.bad p h = (refl, refl)

end_header_name-Later :
    (b ptr : List ℕ) (r y : LineScan) (p : Parser)
    → Extends 1 (length ptr) r y
    → Later b ptr p (end_header_name r p) (end_header_name y (feed p b))
unfolding end_header_name
end_header_name-Later b ptr (line l) y p h = rw h
end_header_name-Later b ptr LineScan.bad y p h = rw h
end_header_name-Later b ptr LineScan.short (line l) p h = omega arith
end_header_name-Later b ptr LineScan.short LineScan.short p h = tt
end_header_name-Later b ptr LineScan.short LineScan.bad p h = tt

pub parse_header_name-Moves : (ptr : List ℕ) (p : Parser) → Moves ptr p (parse_header_name ptr p)
unfolding parse_header_name
parse_header_name-Moves ptr p = elim (Bool-cases (at_crlf ptr)) [
  | inl e ↦ rw e (refl, omega arith, omega (arith, (at_crlf-append ptr [] e).1))
  | inr e ↦
      rw e (
        end_header_name-Moves http_header_name_max ptr _ p
          (scan_name-Fits http_header_name_max ptr))
]

pub parse_header_name-Later :
    (ptr b : List ℕ) (p : Parser)
    → Later b ptr p (parse_header_name ptr p) (parse_header_name (ptr ++ b) (feed p b))
unfolding parse_header_name
parse_header_name-Later ptr b p = elim (Bool-cases (at_crlf ptr)) [
  | inl e ↦ rw (e, (at_crlf-append ptr b e).0) refl
  | inr e ↦ elim (Bool-cases (at_crlf (ptr ++ b))) [
    | inl e' ↦
        let w = at_crlf-new (λ c. c == 0) 62 ptr b e e' in
        rw (e, e', w.2, end_header_name) (omega (arith, w.0))
    | inr e' ↦
        rw (e, e')
          (end_header_name-Later b ptr _ _ p (scan_name-Extends http_header_name_max ptr b))
  ]
]

store_header-Goes :
    (malloc_ok : ℕ → Bool) (ptr v rest : List ℕ) (p : Parser)
    → Goes (length ptr - length rest) p (store_header malloc_ok ptr v rest p)
      × Definite (store_header malloc_ok ptr v rest p)
unfolding store_header
store_header-Goes malloc_ok ptr v rest p =
    ground (arith, http_parser_add_header-Same malloc_ok p.namebuf v p)

store_header-feed :
    (malloc_ok : ℕ → Bool) (ptr v rest b : List ℕ) (p : Parser)
    → store_header malloc_ok (ptr ++ b) v (rest ++ b) (feed p b)
      ≡ feed_ret b (store_header malloc_ok ptr v rest p)
unfolding store_header
store_header-feed malloc_ok ptr v rest b p = ground (
  arith,
  http_parser_add_header-feed malloc_ok p.namebuf v b p,
  length-append ptr b,
  length-append rest b,
)

end_header_value-Moves :
    (malloc_ok : ℕ → Bool) (room : ℕ) (ptr : List ℕ) (r : ValueScan) (p : Parser)
    → Reads 2 room (length ptr) r
    → Moves ptr p (end_header_value malloc_ok ptr r p)
unfolding end_header_value
end_header_value-Moves malloc_ok room ptr (ValueScan.value v rest) p h =
    Goes-Moves (length ptr - length rest) ptr p (store_header malloc_ok ptr v rest p) (omega arith)
      (omega arith) (store_header-Goes malloc_ok ptr v rest p).0
end_header_value-Moves malloc_ok room ptr ValueScan.short p h = refl
end_header_value-Moves malloc_ok room ptr ValueScan.bad p h = (refl, refl)

end_header_value-Later :
    (malloc_ok : ℕ → Bool) (ptr b : List ℕ) (r y : ValueScan) (p : Parser)
    → Follows b r y
    → Later b ptr p
        (end_header_value malloc_ok ptr r p)
        (end_header_value malloc_ok (ptr ++ b) y (feed p b))
unfolding end_header_value
end_header_value-Later malloc_ok ptr b (ValueScan.value v rest) y p h = rw h (
    Later-feed b ptr p (store_header malloc_ok ptr v rest p)
      (store_header malloc_ok (ptr ++ b) v (rest ++ b) (feed p b))
      (store_header-Goes malloc_ok ptr v rest p).1 (store_header-feed malloc_ok ptr v rest b p))
end_header_value-Later malloc_ok ptr b ValueScan.bad y p h = rw h
end_header_value-Later malloc_ok ptr b ValueScan.short (ValueScan.value v rest) p h =
    Goes-Later (length (ptr ++ b) - length rest) ptr b p
      (store_header malloc_ok (ptr ++ b) v rest (feed p b)) (omega (arith, length-append ptr b))
      (store_header-Goes malloc_ok (ptr ++ b) v rest (feed p b)).0
end_header_value-Later malloc_ok ptr b ValueScan.short ValueScan.short p h = tt
end_header_value-Later malloc_ok ptr b ValueScan.short ValueScan.bad p h = tt

parse_header_value-scan :
    (malloc_ok : ℕ → Bool) (ptr : List ℕ) (p : Parser) (r : ValueScan)
    → scan_value (suc (length ptr)) [] ptr ≡ some r
    → parse_header_value malloc_ok ptr p ≡ some (end_header_value malloc_ok ptr r p)
unfolding parse_header_value
parse_header_value-scan malloc_ok ptr p r e = rw (e, parse_header_value)

-- `__parse_header_value` ends.
pub parse_header_value_total :
    (malloc_ok : ℕ → Bool) (ptr : List ℕ) (p : Parser)
    → (r : Ret × Parser) × (parse_header_value malloc_ok ptr p ≡ some r) × Moves ptr p r
parse_header_value_total malloc_ok ptr p =
    let (r, e, h) = scan_value_total (suc (length ptr)) [] ptr (omega arith) (omega arith) in
    (
      end_header_value malloc_ok ptr r p,
      parse_header_value-scan malloc_ok ptr p r e,
      end_header_value-Moves malloc_ok http_header_value_max ptr r p h,
    )

-- With the results of the two scans named.
scans-Later :
    (malloc_ok : ℕ → Bool) (ptr b : List ℕ) (p : Parser) (s s' : ValueScan)
    → scan_value (suc (length ptr)) [] ptr ≡ some s
    → scan_value (suc (length (ptr ++ b))) [] (ptr ++ b) ≡ some s'
    → (r y : Ret × Parser) → parse_header_value malloc_ok ptr p ≡ some r
    → parse_header_value malloc_ok (ptr ++ b) (feed p b) ≡ some y
    → Later b ptr p r y
scans-Later malloc_ok ptr b p s s' f f' r y e e' =
    let r_is : end_header_value malloc_ok ptr s p ≡ r =
      cc (parse_header_value-scan malloc_ok ptr p s f) in
    let y_is : end_header_value malloc_ok (ptr ++ b) s' (feed p b) ≡ y =
      cc (parse_header_value-scan malloc_ok (ptr ++ b) (feed p b) s' f') in
    subst (λ x. Later b ptr p x y) r_is
      (subst (λ x. Later b ptr p (end_header_value malloc_ok ptr s p) x) y_is
        (end_header_value-Later malloc_ok ptr b s s' p
          (scan_value-Follows (suc (length ptr)) (suc (length (ptr ++ b))) [] ptr b s s' f f')))

pub parse_header_value-Later :
    (malloc_ok : ℕ → Bool) (ptr b : List ℕ) (p : Parser) (r y : Ret × Parser)
    → parse_header_value malloc_ok ptr p ≡ some r
    → parse_header_value malloc_ok (ptr ++ b) (feed p b) ≡ some y
    → Later b ptr p r y
parse_header_value-Later malloc_ok ptr b p =
    let (s, f, h) = scan_value_total (suc (length ptr)) [] ptr (omega arith) (omega arith) in
    let (s', f', h') =
      scan_value_total (suc (length (ptr ++ b))) [] (ptr ++ b) (omega arith) (omega arith) in
    scans-Later malloc_ok ptr b p s s' f f'
