-- ===== src/Host.antt =====
-- The scan of a host name in `request_check_hostname` (src/request.c), from the right end of the
-- name to its start. What comes before the scan is not modelled: the bracketed IPv6 address, the
-- port, and the removal of a dot at the end.
pub mod Name
use lighttpd.Base.{
  ℕ, zero, suc, ◌+◌, ◌-◌, Bool, true, false, not, ◌&&◌, ◌||◌, Option, none, some, ◌==◌,
  if◌then◌else◌,
}
use lighttpd.Memory.{Outcome, ok, ◌>>=◌, ◌>>◌, Bytes, load}
use lighttpd.Chars.{light_isdigit, light_isalnum}

pub data Stage : Type 0 where
  domainlabel toplabel : Stage

-- `is_ip`: -1, 0 and 1
pub data Guess : Type 0 where
  unknown no_ip ip : Guess

-- The variables of the scan
pub record Scan : Type 0 where
  pub stage : Stage
  pub label_len : ℕ
  pub is_ip : Guess
  pub level : ℕ

abbrev pub scan_start : Scan
scan_start = record { stage = toplabel; label_len = 0; is_ip = unknown; level = 0 }

-- `return -1` is `none`.
abbrev Verdict : Type 0
Verdict = Option Scan

abbrev longer : Scan → Verdict
longer st = some (record st { label_len = st.label_len + 1 })

abbrev next_label : Scan → Guess → Verdict
next_label st g =
    some (record { stage = domainlabel; label_len = 0; is_ip = g; level = st.level + 1 })

-- The first dot from the right, before the character `d`
unfoldable pub first_dot : Scan → Guess → ℕ → Verdict
first_dot st no_ip d = if light_isalnum d then next_label st no_ip else none
first_dot st _ d =
    if light_isdigit d then (if d == b'-' then none else next_label st ip) else next_label st no_ip

unfoldable pub guess : Guess → ℕ → Guess
guess unknown c = if light_isdigit c then unknown else no_ip
guess no_ip c = no_ip
guess ip c = ip

-- A letter, a digit or, except at the start, a hyphen
unfoldable pub label_char : ℕ → Scan → ℕ → Verdict
label_char i st c =
    if i == 0
    then (if light_isalnum c then longer st else none)
    else if c == b'-' || light_isalnum c
    then longer st
    else none

unfoldable pub scan_toplabel : Bytes → ℕ → ℕ → Scan → ℕ → Outcome (Option Scan)
scan_toplabel m host_len i st c =
    if c == b'.'
    then (if i == host_len - 1
        then (if i == 0 then ok none else ok (some st))
        else if st.label_len == 0
        then ok none
        else (load m (i + 1) >>= λ d. ok (first_dot st st.is_ip d)))
    else if i == 0
    then ok (label_char i st c)
    else ok (label_char i (record st { is_ip = guess st.is_ip c }) c)

-- In a name that is no address
unfoldable pub scan_domainlabel : Bytes → ℕ → Scan → ℕ → Outcome (Option Scan)
scan_domainlabel m i st c =
    if c == b'.'
    then (if st.label_len == 0
        then ok none
        else (do d ← load m (i + 1); ok (if d == b'-' then none else next_label st st.is_ip)))
    else ok (label_char i st c)

-- In an address
unfoldable pub scan_digits : Scan → ℕ → Option Scan
scan_digits st c =
    if c == b'.'
    then (if st.label_len == 0 then none else next_label st ip)
    else if light_isdigit c
    then longer st
    else none

unfoldable pub scan_char : Bytes → ℕ → ℕ → Scan → Stage → Guess → ℕ → Outcome (Option Scan)
scan_char m host_len i st toplabel _ c = scan_toplabel m host_len i st c
scan_char m host_len i st domainlabel ip c = ok (scan_digits st c)
scan_char m host_len i st domainlabel _ c = scan_domainlabel m i st c

-- `for (i = host_len; i-- > 0; )`
unfoldable pub scan : Bytes → ℕ → ℕ → Option Scan → Outcome (Option Scan)
scan m host_len i none = ok none
scan m host_len zero (some st) = ok (some st)
scan m host_len (suc i) (some st) = do
  c ← load m i
  v ← scan_char m host_len i st st.stage st.is_ip c
  scan m host_len i v

abbrev pub is_ip_address : Guess → Bool
is_ip_address ip = true
is_ip_address _ = false

unfoldable pub accepted : Option Scan → Bool
accepted none = false
accepted (some st) =
    if is_ip_address st.is_ip && not (st.level == 3) then false else not (st.label_len == 0)

-- The scan and the tests after it: whether the name is accepted
unfoldable pub check_name : Bytes → ℕ → Outcome Bool
check_name m host_len = scan m host_len host_len (some scan_start) >>= λ v. ok (accepted v)
