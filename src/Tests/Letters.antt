-- ===== src/Tests/Letters.antt =====
-- The case functions of src/buffer.c at concrete strings.
use lighttpd.Base.{◌≡◌, refl, ◌↔◌, true, not, [], ◌∷◌, arith, all}
use lighttpd.Memory.{ok}
use lighttpd.Buffer.{Buffer}
use lighttpd.Buffer.Holds.{Holds}
use lighttpd.Case.{is_upper, lowered, to_lower, to_upper, caseless_compare}
use lighttpd.Case.Compare.{map_bytes, caseless_compare-map_bytes}
use lighttpd.Case.Convert.{lower_case, to_lower_lem, to_upper-unchanged}
use lighttpd.Number.{pos}

abbrev greeting : Buffer
greeting = record { ptr = b'H' ∷ b'i' ∷ 0 ∷ []; used = 3; size = 3 }

greeting-Holds : Holds greeting (b'H' ∷ b'i' ∷ [])
greeting-Holds = record {
  rest = [];
  layout = refl;
  used_is = refl;
  size_is = refl;
  in_range = omega arith;
}

to_lower_example :
    (b' : Buffer) × (to_lower greeting ≡ ok b')
    × Holds b' (map_bytes lower_case (b'H' ∷ b'i' ∷ []))
    × (all (λ c. not (is_upper c)) (map_bytes lower_case (b'H' ∷ b'i' ∷ [])) ≡ true)
to_lower_example = to_lower_lem (b'H' ∷ b'i' ∷ []) greeting-Holds refl

to_upper_example :
    (b' : Buffer) × (to_upper greeting ≡ ok b')
    × (b'.ptr ≡ greeting.ptr)
    × Holds b' (b'H' ∷ b'i' ∷ [])
to_upper_example = to_upper-unchanged (b'H' ∷ b'i' ∷ []) greeting-Holds refl

caseless_compare_example :
    caseless_compare (b'H' ∷ []) (b'h' ∷ []) ≡ pos 0
    ↔ map_bytes lowered (b'H' ∷ []) ≡ map_bytes lowered (b'h' ∷ [])
caseless_compare_example = caseless_compare-map_bytes (b'H' ∷ []) (b'h' ∷ [])
