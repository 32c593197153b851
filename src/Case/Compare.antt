-- ===== src/Case/Compare.antt =====
-- `buffer_caseless_compare` (src/buffer.c) and the strings in lower case.
use lighttpd.Base.{ℕ, ◌≡◌, refl, ◌↔◌, [], ◌∷◌, arith}
use lighttpd.Memory.{Bytes}
use lighttpd.Case.{lowered, caseless_compare}
use lighttpd.Number.{pos}

unfoldable pub map_bytes : (ℕ → ℕ) → Bytes → Bytes
map_bytes f [] = []
map_bytes f (c ∷ s) = f c ∷ map_bytes f s

-- Two strings compare as equal in `buffer_caseless_compare` exactly where they are the same in
-- lower case.
pub caseless_compare-map_bytes :
    (a b : Bytes) → caseless_compare a b ≡ pos 0 ↔ map_bytes lowered a ≡ map_bytes lowered b
unfolding caseless_compare map_bytes
caseless_compare-map_bytes [] [] = (λ e. refl, λ e. refl)
caseless_compare-map_bytes [] (y ∷ b) = (λ e. cc, λ e. cc)
caseless_compare-map_bytes (x ∷ a) [] = (λ e. absurd (ground (arith, e)), λ e. cc)
caseless_compare-map_bytes (x ∷ a) (y ∷ b) =
    let rest = caseless_compare-map_bytes a b in
    (λ e. ground (arith, e, rest), λ e. ground (arith, e, rest))
