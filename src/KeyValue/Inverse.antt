-- ===== src/KeyValue/Inverse.antt =====
-- The two lookups in a table (src/keyvalue.c), one against the other.
use Prim.Native.String.{String}
use text.Mathlib.TextEquality.{eq_iff}
use lighttpd.Base.{
  ℕ, ◌≡◌, refl, ◌↔◌, inl, inr, Bool, true, false, not, ◌&&◌, Option, none, some, [], ◌∷◌, arith,
  ◌==◌, ==→eq, Bool-cases, Option-cases,
}
use lighttpd.KeyValue.{
  Table, http_versions, http_methods, http_status, http_status_body, keyvalue_get_value,
  keyvalue_get_key, get_http_version_name, get_http_status_name, get_http_method_name,
  get_http_status_body_name, get_http_version_key, get_http_method_key,
}
use lighttpd.Number.{ℤ, pos, negsuc}

abbrev is_none {ℓ} : {A : Type ℓ} → Option A → Bool
is_none none = true
is_none (some a) = false

abbrev is_unset : ℤ → Bool
is_unset (pos n) = false
is_unset (negsuc n) = true

-- No key and no value stands twice.
unfoldable pub one_to_one : Table → Bool
one_to_one [] = true
one_to_one ((j, v) ∷ kv) =
    is_none (keyvalue_get_value kv (pos j)) && (is_unset (keyvalue_get_key kv v) && one_to_one kv)

value_of_key :
    (kv : Table) (s : String) (k : ℕ)
    → one_to_one kv ≡ true
    → keyvalue_get_key kv s ≡ pos k
    → keyvalue_get_value kv (pos k) ≡ some s
unfolding one_to_one keyvalue_get_key keyvalue_get_value
value_of_key [] s k h e = cc
value_of_key ((j, v) ∷ kv) s k h e = ground (arith, eq_iff v s, value_of_key kv s k)

key_of_value :
    (kv : Table) (s : String) (k : ℕ)
    → one_to_one kv ≡ true
    → keyvalue_get_value kv (pos k) ≡ some s
    → keyvalue_get_key kv s ≡ pos k
unfolding one_to_one keyvalue_get_key keyvalue_get_value
key_of_value [] s k h e = cc
key_of_value ((j, v) ∷ kv) s k h e = ground (arith, eq_iff v s, key_of_value kv s k)

methods_one_to_one : one_to_one http_methods ≡ true
unfolding one_to_one keyvalue_get_key keyvalue_get_value http_methods
methods_one_to_one = refl

versions_one_to_one : one_to_one http_versions ≡ true
unfolding one_to_one keyvalue_get_key keyvalue_get_value http_versions
versions_one_to_one = refl

-- A method's name leads to its number exactly when its number leads to its name, and so it is with
-- the versions.
pub get_http_method_key-get_http_method_name :
    (s : String) (k : ℕ)
    → (get_http_method_key s ≡ pos k ↔ get_http_method_name (pos k) ≡ some s)
      × (get_http_version_key s ≡ pos k ↔ get_http_version_name (pos k) ≡ some s)
unfolding get_http_method_key get_http_method_name get_http_version_key get_http_version_name
get_http_method_key-get_http_method_name s k = (
  (
    value_of_key http_methods s k methods_one_to_one,
    key_of_value http_methods s k methods_one_to_one,
  ),
  (
    value_of_key http_versions s k versions_one_to_one,
    key_of_value http_versions s k versions_one_to_one,
  ),
)

body_codes : Table → Bool
body_codes [] = true
body_codes ((j, v) ∷ kv) = not (is_none (get_http_status_name (pos j))) && body_codes kv

body_codes_table : body_codes http_status_body ≡ true
unfolding body_codes get_http_status_name keyvalue_get_value http_status http_status_body
body_codes_table = refl

named :
    (kv : Table) (k : ℤ) (v : String)
    → body_codes kv ≡ true
    → keyvalue_get_value kv k ≡ some v
    → (name : String) × (get_http_status_name k ≡ some name)
unfolding body_codes keyvalue_get_value
named [] k v h e = cc
named ((j, w) ∷ kv) (negsuc k) v h e = named kv (negsuc k) v (ground arith) e
named ((j, w) ∷ kv) (pos k) v h e = elim (Bool-cases (j == k)) [
  | inl y ↦ elim (Option-cases (get_http_status_name (pos k))) [
    | inl none_there ↦ absurd (ground (arith, none_there, ==→eq j k y))
    | inr found ↦ found
  ]
  | inr n ↦ named kv (pos k) v (ground arith) (ground arith)
]

-- Every status code that has a body file has a name.
pub get_http_status_body_name-named :
    (k : ℤ) (v : String)
    → get_http_status_body_name k ≡ some v
    → (name : String) × (get_http_status_name k ≡ some name)
unfolding get_http_status_body_name
get_http_status_body_name-named k v e = named http_status_body k v body_codes_table e
