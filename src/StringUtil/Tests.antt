-- ===== src/StringUtil/Tests.antt =====
-- The theorems on src/util/StringUtil.cc at concrete strings.
use myworkflow.Base.{ℕ, ◌≡◌, some, List, [], ◌∷◌, ◌++◌, arith, codes, All, IsByte}
use myworkflow.StringUtil.Codec.{url_decode, url_encode, url_encode_component}
use myworkflow.StringUtil.RoundTrip.{url_decode-url_encode, url_decode-url_encode_component}
use myworkflow.StringUtil.Split.{split, Pieces, split_lem, split-join}
use myworkflow.StringUtil.Affix.{strip, AreSpaces, BeginsPlain, EndsPlain, strip_lem}

mixed : List ℕ
mixed = 0 ∷ 37 ∷ 255 ∷ codes "a b&c"

mixed-All : All IsByte mixed
unfolding mixed
mixed-All = omega arith

url_decode-url_encode_example : url_decode (url_encode mixed) ≡ mixed
url_decode-url_encode_example = url_decode-url_encode mixed mixed-All

url_decode-url_encode_component_example : url_decode (url_encode_component mixed) ≡ mixed
url_decode-url_encode_component_example = url_decode-url_encode_component mixed mixed-All

split_lem_example :
    (ps : List (List ℕ)) × (split (codes "a,,b") b',' ≡ some ps) × Pieces b',' (codes "a,,b") ps
split_lem_example = split_lem (codes "a,,b") b','

split-join_example : split (codes "a,,b") b',' ≡ some (codes "a" ∷ codes "" ∷ codes "b" ∷ [])
split-join_example = split-join b',' (codes "a") (codes "" ∷ codes "b" ∷ []) (omega arith)

strip_lem_example :
    ((pre post : List ℕ) × AreSpaces pre
      × AreSpaces post
      × (codes " a b  " ≡ pre ++ (strip (codes " a b  ") ++ post)))
    × BeginsPlain (strip (codes " a b  "))
    × EndsPlain (strip (codes " a b  "))
strip_lem_example = strip_lem (codes " a b  ")
