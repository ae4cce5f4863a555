-- ===== src/UriParser/Tests.antt =====
-- Runs of src/util/URIParser.cc.
use myworkflow.Base.{
  ℕ, ◌≡◌, refl, Bool, true, false, none, some, List, [], ◌∷◌, arith, codes, is_alnum, is_digit,
  is_upper, is_lower, length, All,
}
use myworkflow.UriParser.{valid_char, scheme_char, userinfo_char, host_char}
use myworkflow.UriParser.Scan.{IsString, Scan, fresh, scan}
use myworkflow.UriParser.Parse.{state_success, init, parse}
use myworkflow.UriParser.Bounds.{Within, scan-Within}
use myworkflow.UriParser.Print.{Uri, IsUri, print}
use myworkflow.UriParser.RoundTrip.{parts_of, parse-print}
use myworkflow.UriParser.Outcome.{Outcome}
use myworkflow.UriParser.Query.{
  Values, Value, first, split_query_strict, split_query, split_query-strict,
}
use myworkflow.UriParser.Query.Pairs.{IsPair, print_pairs, values_of, split_query_strict-pairs}
use myworkflow.StringUtil.Split.{join}

abbrev plenty : ℕ → Bool
plenty n = true

abbrev site : Uri
site = record {
  scheme = codes "http";
  userinfo = some (codes "me:pw");
  host = codes "a.org";
  port = some (codes "80");
  path = codes "x/y";
  query = some (codes "k=v:@/?");
  fragment = some (codes "f#");
}

site-IsUri : IsUri site
unfolding valid_char scheme_char userinfo_char host_char is_alnum is_digit is_upper is_lower
site-IsUri = record {
  scheme_some = omega arith;
  scheme_bytes = (refl, (refl, (refl, (refl, tt))));
  userinfo_bytes = (omega arith, (refl, (refl, (refl, (refl, (refl, tt))))));
  host_some = omega arith;
  host_bytes = (
    (refl, (λ e. omega arith), (λ e. omega arith)),
    (
      (refl, (λ e. omega arith), (λ e. omega arith)),
      (
        (refl, (λ e. omega arith), (λ e. omega arith)),
        (
          (refl, (λ e. omega arith), (λ e. omega arith)),
          ((refl, (λ e. omega arith), (λ e. omega arith)), tt),
        ),
      ),
    ),
  );
  port_bytes = (omega arith, (refl, (refl, tt)));
  path_bytes = omega arith;
  query_bytes = omega arith;
  fragment_bytes = (omega arith, tt);
}

site-IsString : IsString (print site)
unfolding print
site-IsString = omega arith

parse-print_example :
    parse plenty (print site) init
    ≡ (true, record init { parts = parts_of site; state = state_success })
parse-print_example = parse-print plenty site init (λ n. refl) site-IsUri site-IsString

address : List ℕ
address = codes "http://[::1]:80?q#f"

address-IsString : IsString address
unfolding address
address-IsString = omega arith

scanned : Scan
unfolding scan address
scanned = elim (scan address) [ none ↦ fresh | some s ↦ s ]

scan-address : scan address ≡ some scanned
unfolding scanned
scan-address = refl

scan-Within_example : Within (length address) scanned
scan-Within_example = scan-Within address scanned address-IsString scan-address

-- The brackets of the IPv6 address are left out.
ipv6_parts : (parse plenty address init).1.parts.host ≡ some (codes "::1")
unfolding parse address userinfo_char host_char scheme_char is_alnum is_digit is_upper is_lower
ipv6_parts = refl

-- An '@' or a ':' in a query that stands directly behind the authority is taken for the authority's.
query_at : (parse plenty (codes "http://h?x=a@b") init).0 ≡ false
unfolding parse userinfo_char host_char scheme_char is_alnum is_digit is_upper is_lower
query_at = refl

query_colon : (parse plenty (codes "http://h?x=1:2") init).0 ≡ false
unfolding parse userinfo_char host_char scheme_char is_alnum is_digit is_upper is_lower
query_colon = refl

split_query-strict_example :
    (n : Values) × (n' : Value) × (split_query_strict (codes "a=1&a=2") ≡ some n)
    × (split_query (codes "a=1&a=2") ≡ some n')
    × ((k : List ℕ) → n' k ≡ first (n k))
split_query-strict_example = split_query-strict (codes "a=1&a=2")

two_pairs-All : All IsPair ((codes "a", codes "1") ∷ (codes "b", codes "2") ∷ [])
two_pairs-All = omega arith

split_query_strict-pairs_example :
    (n : Values) × (split_query_strict
        (join b'&' (print_pairs ((codes "a", codes "1") ∷ (codes "b", codes "2") ∷ [])))
      ≡ some n)
    × ((k : List ℕ) → n k ≡ values_of ((codes "a", codes "1") ∷ (codes "b", codes "2") ∷ []) k)
split_query_strict-pairs_example =
    split_query_strict-pairs (codes "a") (codes "1") ((codes "b", codes "2") ∷ []) two_pairs-All
