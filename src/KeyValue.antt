-- ===== src/KeyValue.antt =====
-- src/keyvalue.c: the tables of HTTP versions, methods and status codes, and the lookups in them.
-- A table ends at its null value; the enumeration constants of src/keyvalue.h are their numbers.
-- The `pcre_keyvalue_buffer` functions, which wrap a regular expression library, are not modelled.
pub mod Inverse
use Prim.Native.String.{String}
use text.Mathlib.Text.{◌==◌ as str_eq}
use lighttpd.Base.{ℕ, Bool, false, Option, none, some, List, [], ◌∷◌, ◌==◌, if◌then◌else◌}
use lighttpd.Encode.{html}
use lighttpd.Number.{ℤ, pos, negsuc}

abbrev pub Table : Type 0
Table = List (ℕ × String)

unfoldable pub http_versions : Table
http_versions = (1, "HTTP/1.1") ∷ (0, "HTTP/1.0") ∷ []

unfoldable pub http_methods : Table
http_methods =
    (0, "GET")
    ∷ (1, "HEAD")
    ∷ (2, "POST")
    ∷ (3, "PUT")
    ∷ (4, "DELETE")
    ∷ (5, "CONNECT")
    ∷ (6, "OPTIONS")
    ∷ (7, "TRACE")
    ∷ (8, "ACL")
    ∷ (9, "BASELINE-CONTROL")
    ∷ (10, "BIND")
    ∷ (11, "CHECKIN")
    ∷ (12, "CHECKOUT")
    ∷ (13, "COPY")
    ∷ (14, "LABEL")
    ∷ (15, "LINK")
    ∷ (16, "LOCK")
    ∷ (17, "MERGE")
    ∷ (18, "MKACTIVITY")
    ∷ (19, "MKCALENDAR")
    ∷ (20, "MKCOL")
    ∷ (21, "MKREDIRECTREF")
    ∷ (22, "MKWORKSPACE")
    ∷ (23, "MOVE")
    ∷ (24, "ORDERPATCH")
    ∷ (25, "PATCH")
    ∷ (26, "PROPFIND")
    ∷ (27, "PROPPATCH")
    ∷ (28, "REBIND")
    ∷ (29, "REPORT")
    ∷ (30, "SEARCH")
    ∷ (31, "UNBIND")
    ∷ (32, "UNCHECKOUT")
    ∷ (33, "UNLINK")
    ∷ (34, "UNLOCK")
    ∷ (35, "UPDATE")
    ∷ (36, "UPDATEREDIRECTREF")
    ∷ (37, "VERSION-CONTROL")
    ∷ []

unfoldable pub http_status : Table
http_status =
    (100, "Continue")
    ∷ (101, "Switching Protocols")
    ∷ (102, "Processing")
    ∷ (200, "OK")
    ∷ (201, "Created")
    ∷ (202, "Accepted")
    ∷ (203, "Non-Authoritative Information")
    ∷ (204, "No Content")
    ∷ (205, "Reset Content")
    ∷ (206, "Partial Content")
    ∷ (207, "Multi-status")
    ∷ (300, "Multiple Choices")
    ∷ (301, "Moved Permanently")
    ∷ (302, "Found")
    ∷ (303, "See Other")
    ∷ (304, "Not Modified")
    ∷ (305, "Use Proxy")
    ∷ (306, "(Unused)")
    ∷ (307, "Temporary Redirect")
    ∷ (400, "Bad Request")
    ∷ (401, "Unauthorized")
    ∷ (402, "Payment Required")
    ∷ (403, "Forbidden")
    ∷ (404, "Not Found")
    ∷ (405, "Method Not Allowed")
    ∷ (406, "Not Acceptable")
    ∷ (407, "Proxy Authentication Required")
    ∷ (408, "Request Timeout")
    ∷ (409, "Conflict")
    ∷ (410, "Gone")
    ∷ (411, "Length Required")
    ∷ (412, "Precondition Failed")
    ∷ (413, "Request Entity Too Large")
    ∷ (414, "Request-URI Too Long")
    ∷ (415, "Unsupported Media Type")
    ∷ (416, "Requested Range Not Satisfiable")
    ∷ (417, "Expectation Failed")
    ∷ (422, "Unprocessable Entity")
    ∷ (423, "Locked")
    ∷ (424, "Failed Dependency")
    ∷ (426, "Upgrade Required")
    ∷ (500, "Internal Server Error")
    ∷ (501, "Not Implemented")
    ∷ (502, "Bad Gateway")
    ∷ (503, "Service Not Available")
    ∷ (504, "Gateway Timeout")
    ∷ (505, "HTTP Version Not Supported")
    ∷ (507, "Insufficient Storage")
    ∷ []

unfoldable pub http_status_body : Table
http_status_body =
    (400, "400.html")
    ∷ (401, "401.html")
    ∷ (403, "403.html")
    ∷ (404, "404.html")
    ∷ (411, "411.html")
    ∷ (416, "416.html")
    ∷ (500, "500.html")
    ∷ (501, "501.html")
    ∷ (503, "503.html")
    ∷ (505, "505.html")
    ∷ []

-- `kv[i].key == k`
abbrev pub key_eq : ℕ → ℤ → Bool
key_eq j (pos k) = j == k
key_eq j (negsuc k) = false

-- A null pointer is `none`.
unfoldable pub keyvalue_get_value : Table → ℤ → Option String
keyvalue_get_value [] k = none
keyvalue_get_value ((j, v) ∷ kv) k = if key_eq j k then some v else keyvalue_get_value kv k

-- -1 where there is no such value
unfoldable pub keyvalue_get_key : Table → String → ℤ
keyvalue_get_key [] s = negsuc 0
keyvalue_get_key ((j, v) ∷ kv) s = if str_eq v s then pos j else keyvalue_get_key kv s

unfoldable pub get_http_version_name : ℤ → Option String
get_http_version_name = keyvalue_get_value http_versions

unfoldable pub get_http_status_name : ℤ → Option String
get_http_status_name = keyvalue_get_value http_status

unfoldable pub get_http_method_name : ℤ → Option String
get_http_method_name = keyvalue_get_value http_methods

unfoldable pub get_http_status_body_name : ℤ → Option String
get_http_status_body_name = keyvalue_get_value http_status_body

unfoldable pub get_http_version_key : String → ℤ
get_http_version_key = keyvalue_get_key http_versions

unfoldable pub get_http_method_key : String → ℤ
get_http_method_key = keyvalue_get_key http_methods
