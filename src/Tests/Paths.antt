-- ===== src/Tests/Paths.antt =====
-- URL decoding and path simplification (src/buffer.c) at concrete inputs.
use lighttpd.Base.{◌≡◌, refl, inr, true, [], ◌∷◌, ◌++◌, arith}
use lighttpd.Memory.{ok, Allocator, codes}
use lighttpd.Buffer.{Buffer, init}
use lighttpd.Buffer.Holds.{IsSized, Holds, Stores}
use lighttpd.Chars.{hex2int}
use lighttpd.Encode.{rel_uri_part, is_mapped, encode_byte, append_string_encoded, flat}
use lighttpd.Path.{path_simplify, path_simplify_in_place}
use lighttpd.Path.Clean.{path_simplify-IsClean}
use lighttpd.Path.Spec.{
  close, Stack, is_dot, is_dot_dot, pop, close_last, walk_components, render, strip_spaces,
  components, IsClean,
}
use lighttpd.Path.Whole.{simplified_string, path_simplify_lem, path_simplify_in_place_lem}
use lighttpd.Url.{printable, joined, urldecode_internal}
use lighttpd.Url.Decode.{until_nul, escape_value, decode}
use lighttpd.Url.InPlace.{urldecode_internal_lem}
use lighttpd.Url.RoundTrip.{urldecode-append_string_encoded}

abbrev pub ample_heap : Allocator
ample_heap = record { grants = λ n. true; junk = λ i. 170 }

abbrev url : Buffer
url = record { ptr = codes "/a%2fb+c" ++ (0 ∷ 9 ∷ []); used = 9; size = 10 }

url-Holds : Holds url (codes "/a%2fb+c")
url-Holds = record {
  rest = 9 ∷ [];
  layout = refl;
  used_is = refl;
  size_is = refl;
  in_range = omega arith;
}

decoded_url : decode true (until_nul (codes "/a%2fb+c")) ≡ codes "/a/b c"
unfolding decode until_nul escape_value hex2int joined printable
decoded_url = refl

urldecode_example :
    (b' : Buffer) × (urldecode_internal true url ≡ ok b')
    × Stores b' (decode true (until_nul (codes "/a%2fb+c")))
urldecode_example = urldecode_internal_lem true (codes "/a%2fb+c") (inr url-Holds)

empty_IsSized : IsSized init
empty_IsSized = record { size_is = refl; in_range = omega arith }

urldecode-append_string_encoded_example :
    (b1 : Buffer) × (append_string_encoded ample_heap init (codes "a b") rel_uri_part ≡ ok b1)
    × (b2 : Buffer) × (urldecode_internal true b1 ≡ ok b2)
    × Stores b2 (codes "a b")
urldecode-append_string_encoded_example =
    urldecode-append_string_encoded ample_heap (λ n. refl) true (codes "a b") empty_IsSized refl
      (omega arith) (unfold flat encode_byte is_mapped in omega arith)

abbrev path : Buffer
path = record { ptr = codes " /a//./b/../c/.." ++ (0 ∷ []); used = 17; size = 17 }

path-Holds : Holds path (codes " /a//./b/../c/..")
path-Holds = record {
  rest = [];
  layout = refl;
  used_is = refl;
  size_is = refl;
  in_range = omega arith;
}

simplified_path : simplified_string (codes " /a//./b/../c/..") ≡ codes "/a/"
unfolding strip_spaces components walk_components close close_last is_dot is_dot_dot pop render
    until_nul
simplified_path = refl

path_simplify_example :
    (b' : Buffer) × (path_simplify ample_heap init path ≡ ok b')
    × Holds b' (simplified_string (codes " /a//./b/../c/.."))
path_simplify_example =
    path_simplify_lem ample_heap (λ n. refl) (codes " /a//./b/../c/..") empty_IsSized
      (inr path-Holds) (omega arith)

path_simplify_in_place_example :
    (b' : Buffer) × (path_simplify_in_place ample_heap path ≡ ok b')
    × Holds b' (simplified_string (codes " /a//./b/../c/.."))
path_simplify_in_place_example =
    path_simplify_in_place_lem ample_heap (λ n. refl) (codes " /a//./b/../c/..") (inr path-Holds)
      (omega arith)

path_simplify-IsClean_example :
    (st : Stack) × (b' : Buffer) × (path_simplify ample_heap init path ≡ ok b')
    × Holds b' (render st)
    × IsClean st
path_simplify-IsClean_example =
    path_simplify-IsClean ample_heap (λ n. refl) b' ' (codes "/a//./b/../c/..") empty_IsSized
      (inr path-Holds) (omega arith)
