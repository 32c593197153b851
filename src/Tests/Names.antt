-- ===== src/Tests/Names.antt =====
-- The scan of host names (src/request.c) at a concrete name.
use lighttpd.Base.{◌≡◌, refl, ◌⊎◌, true, false, [], ◌∷◌, arith, take}
use lighttpd.Memory.{ok, Bytes, load}
use lighttpd.Chars.{light_isdigit, light_isalpha, light_isalnum}
use lighttpd.Host.{
  first_dot, guess, label_char, scan_toplabel, scan_domainlabel, scan_digits, scan_char, scan,
  accepted, check_name,
}
use lighttpd.Host.Name.{is_name, check_name_lem}

-- `a-1.b` with its zero
abbrev name : Bytes
name = b'a' ∷ b'-' ∷ b'1' ∷ b'.' ∷ b'b' ∷ 0 ∷ []

name_passes : check_name name 5 ≡ ok true
unfolding check_name scan scan_char scan_toplabel scan_domainlabel label_char first_dot guess
    accepted load light_isalnum light_isalpha light_isdigit
name_passes = refl

-- The scan lets a label end in a hyphen, which the grammar in the code's comment does not.
hyphen_passes : check_name (b'a' ∷ b'-' ∷ b'.' ∷ b'b' ∷ 0 ∷ []) 4 ≡ ok true
unfolding check_name scan scan_char scan_toplabel scan_domainlabel label_char first_dot guess
    accepted load light_isalnum light_isalpha light_isdigit
hyphen_passes = refl

-- An address has four parts.
address_fails : check_name (b'1' ∷ b'.' ∷ b'2' ∷ 0 ∷ []) 3 ≡ ok false
unfolding check_name scan scan_char scan_toplabel scan_domainlabel scan_digits label_char first_dot
    guess accepted load light_isalnum light_isalpha light_isdigit
address_fails = refl

check_name_example :
    (check_name name 5 ≡ ok false)
    ⊎ ((check_name name 5 ≡ ok true) × (is_name (take 5 name) ≡ true))
check_name_example = check_name_lem name 5 (omega arith)
