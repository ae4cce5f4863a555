-- ===== src/EncodeStream/Tests.antt =====
-- Streams of src/util/EncodeStream.cc with few vectors.
use myworkflow.Base.{refl, [], ◌∷◌, arith, codes}
use myworkflow.EncodeStream.{outside, inside, Iov, Stream, read, load, append_copy}
use myworkflow.EncodeStream.Refine.{Holds}
use myworkflow.EncodeStream.Append.{Appends, append_copy-Appends}

abbrev none_yet : Iov
none_yet = record { base = outside []; len = 0 }

-- Room for three vectors, of which two are used: one outside, one in a buffer.
abbrev used : Stream
used = record {
  vec =
      record { base = outside (codes "ab"); len = 2 }
      ∷ record { base = inside 0 8; len = 1 }
      ∷ none_yet
      ∷ [];
  max = 3;
  size = 2;
  bytes = 3;
  merged_size = 0;
  merged_bytes = 0;
  bufs = 0 ∷ [];
  pos = λ b. 16;
  room = λ b. 1024;
  mem = λ b o. 99;
  next_buf = 1;
}

used-Holds : Holds used (codes "abc")
unfolding read load
used-Holds = record {
  array = omega arith;
  filled = omega arith;
  order = omega arith;
  content = refl;
  placed = (refl, ((omega arith, omega arith, omega arith), tt));
  count = refl;
  merged_count = refl;
  owned = ((omega arith, omega arith), tt);
}

append_copy-Appends_example : Appends (append_copy (codes "de") used) (codes "abcde")
append_copy-Appends_example = append_copy-Appends (codes "de") (codes "abc") used used-Holds
