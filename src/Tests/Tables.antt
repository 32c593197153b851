-- ===== src/Tests/Tables.antt =====
-- The tables of src/keyvalue.c at concrete inputs.
use lighttpd.Base.{◌≡◌, refl, ◌↔◌, some}
use lighttpd.KeyValue.{
  http_status_body, keyvalue_get_value, get_http_version_name, get_http_method_name,
  get_http_status_body_name, get_http_version_key, get_http_method_key,
}
use lighttpd.KeyValue.Inverse.{get_http_method_key-get_http_method_name}
use lighttpd.Number.{pos}

get_http_method_key_example :
    (get_http_method_key "PUT" ≡ pos 3 ↔ get_http_method_name (pos 3) ≡ some "PUT")
    × (get_http_version_key "PUT" ≡ pos 3 ↔ get_http_version_name (pos 3) ≡ some "PUT")
get_http_method_key_example = get_http_method_key-get_http_method_name "PUT" 3

body_404 : get_http_status_body_name (pos 404) ≡ some "404.html"
unfolding get_http_status_body_name keyvalue_get_value http_status_body
body_404 = refl
