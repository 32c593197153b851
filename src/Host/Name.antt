-- ===== src/Host/Name.antt =====
-- Which names the scan of `request_check_hostname` (src/request.c) lets pass.
use lighttpd.Base.{
  ℕ, zero, suc, ◌+◌, ◌-◌, ◌≤◌, ◌<◌, ◌≡◌, refl, sym, ap, ◌∙◌, ◌⊎◌, inl, inr, Bool, true, false, ◌&&◌,
  ◌||◌, Option, none, some, [], ◌∷◌, arith, ◌==◌, if◌then◌else◌, ==→eq, Bool-cases, length, take,
  split_at, all,
}
use lighttpd.Memory.{ok, Bytes, load}
use lighttpd.Chars.{light_isdigit, light_isalnum}
use lighttpd.Host.{
  Stage, domainlabel, toplabel, Guess, unknown, no_ip, ip, Scan, scan_start, first_dot, guess,
  label_char, scan_toplabel, scan_domainlabel, scan_digits, scan_char, scan, accepted, check_name,
}
use lighttpd.Memory.Blocks.{load_at}

abbrev pub is_name_char : ℕ → Bool
is_name_char c = light_isalnum c || (c == b'-' || c == b'.')

-- What may stand at a place of an accepted name
abbrev pub is_allowed : ℕ → ℕ → Bool
is_allowed i c = if i == 0 then light_isalnum c else is_name_char c

light_isalnum-light_isdigit : (c : ℕ) → light_isdigit c ≡ true → light_isalnum c ≡ true
unfolding light_isalnum
light_isalnum-light_isdigit c h = ground (arith, h)

load_within : (m : Bytes) (i : ℕ) → i < length m → (c : ℕ) × (load m i ≡ ok c)
load_within m i h =
    let (us, c, vs, split, l) = split_at i m h in (c, rw (sym l, split) (load_at us vs c))

first_dot_lem :
    (st : Scan) (g : Guess) (d : ℕ) (st' : Scan) → first_dot st g d ≡ some st' → st'.label_len ≡ 0
unfolding first_dot
first_dot_lem st no_ip d st' e = ground arith
first_dot_lem st unknown d st' e = ground arith
first_dot_lem st ip d st' e = ground arith

label_char_lem :
    (i : ℕ) (st : Scan) (c : ℕ) (st' : Scan) → label_char i st c ≡ some st' → is_allowed i c ≡ true
unfolding label_char
label_char_lem i st c st' e = ground arith

scan_digits_lem :
    (st : Scan) (c : ℕ) (st' : Scan)
    → scan_digits st c ≡ some st'
    → (light_isalnum c ≡ true) ⊎ ((c ≡ b'.') × (st'.label_len ≡ 0))
unfolding scan_digits
scan_digits_lem st c st' e = elim (Bool-cases (c == b'.')) [
  | inl y ↦ inr (==→eq c b'.' y, ground (arith, y, e))
  | inr n ↦ inl (light_isalnum-light_isdigit c (ground (arith, n, e)))
]

-- A character that the scan takes is allowed in its place, or it is a dot, and no label has begun.
abbrev Keeps : ℕ → ℕ → Option Scan → Type 0
Keeps i c v =
    (st' : Scan)
    → v ≡ some st'
    → (is_allowed i c ≡ true) ⊎ ((c ≡ b'.') × ((0 < i) ⊎ (st'.label_len ≡ 0)))

scan_toplabel_lem :
    (m : Bytes) (n i : ℕ) (st : Scan) (c : ℕ)
    → n < length m
    → i < n
    → (v : Option Scan) × (scan_toplabel m n i st c ≡ ok v) × Keeps i c v
unfolding scan_toplabel
scan_toplabel_lem m n i st c h q = elim (Bool-cases (c == b'.')) [
  | inl y ↦
      let dot = ==→eq c b'.' y in
      let (d, run) = load_within m (i + 1) (omega arith) in
      elim (Bool-cases (i == n - 1)) [
        | inl last ↦ elim (Bool-cases (i == 0)) [
          | inl first ↦ (none, rw (y, last, first) refl, λ st' e. cc)
          | inr later ↦
              (some st, rw (y, last, later) refl, λ st' e. inr (dot, inl (ground (arith, later))))
        ]
        | inr inner ↦ elim (Bool-cases (st.label_len == 0)) [
          | inl bare ↦ (none, rw (y, inner, bare) refl, λ st' e. cc)
          | inr full ↦ (
            first_dot st st.is_ip d,
            rw (y, inner, full, run) refl,
            λ st' e. inr (dot, inr (first_dot_lem st st.is_ip d st' e)),
          )
        ]
      ]
  | inr other ↦ elim (Bool-cases (i == 0)) [
    | inl first ↦
        (label_char i st c, rw (other, first) refl, λ st' e. inl (label_char_lem i st c st' e))
    | inr later ↦
        let st2 : Scan = record st { is_ip = guess st.is_ip c } in
        (label_char i st2 c, rw (other, later) refl, λ st' e. inl (label_char_lem i st2 c st' e))
  ]
]

scan_domainlabel_lem :
    (m : Bytes) (n i : ℕ) (st : Scan) (c : ℕ)
    → n < length m
    → i < n
    → (v : Option Scan) × (scan_domainlabel m i st c ≡ ok v) × Keeps i c v
unfolding scan_domainlabel
scan_domainlabel_lem m n i st c h q = elim (Bool-cases (c == b'.')) [
  | inl y ↦
      let dot = ==→eq c b'.' y in
      let (d, run) = load_within m (i + 1) (omega arith) in
      elim (Bool-cases (st.label_len == 0)) [
        | inl bare ↦ (none, rw (y, bare) refl, λ st' e. cc)
        | inr full ↦ elim (Bool-cases (d == b'-')) [
          | inl hyphen ↦ (none, rw (y, full, run, hyphen) refl, λ st' e. cc)
          | inr fine ↦ (
            some (record {
              stage = domainlabel;
              label_len = 0;
              is_ip = st.is_ip;
              level = st.level + 1;
            }),
            rw (y, full, run, fine) refl,
            λ st' e. inr (dot, inr (ground (arith, e))),
          )
        ]
      ]
  | inr other ↦ (label_char i st c, rw other refl, λ st' e. inl (label_char_lem i st c st' e))
]

scan_char_lem :
    (m : Bytes) (n i : ℕ) (st : Scan) (s : Stage) (g : Guess) (c : ℕ)
    → n < length m
    → i < n
    → (v : Option Scan) × (scan_char m n i st s g c ≡ ok v) × Keeps i c v
unfolding scan_char
scan_char_lem m n i st toplabel g c h q = scan_toplabel_lem m n i st c h q
scan_char_lem m n i st domainlabel unknown c h q = scan_domainlabel_lem m n i st c h q
scan_char_lem m n i st domainlabel no_ip c h q = scan_domainlabel_lem m n i st c h q
scan_char_lem m n i st domainlabel ip c h q = (scan_digits st c, refl, digits)
  where
    digits : Keeps i c (scan_digits st c)
    digits st' e = elim (scan_digits_lem st c st' e) [
      | inl fine ↦ inl (ground (arith, fine))
      | inr dot ↦ inr (dot.0, inr (dot.1))
    ]

scan-none : (m : Bytes) (n i : ℕ) → scan m n i none ≡ ok none
unfolding scan
scan-none m n zero = refl
scan-none m n (suc i) = refl

-- Of an accepted name, every character before the place `i` is allowed.
record Scanned (m : Bytes) (i : ℕ) (st : Scan) (v : Option Scan) : Type 0 where
  at_start : i ≡ 0 → v ≡ some st
  allowed :
      (j : ℕ) → j < i → accepted v ≡ true → (c : ℕ) × (load m j ≡ ok c) × (is_allowed j c ≡ true)

label_of_accepted : (st : Scan) → accepted (some st) ≡ true → st.label_len ≡ 0 → ⊥
unfolding accepted
label_of_accepted st a z = ground (arith, a, z)

last_allowed :
    (i c : ℕ) (st' : Scan) (u : Option Scan)
    → Keeps i c (some st')
    → (i ≡ 0 → u ≡ some st')
    → accepted u ≡ true
    → is_allowed i c ≡ true
last_allowed i c st' u keeps start a = elim (keeps st' refl) [
  | inl fine ↦ fine
  | inr (dot, where_it_is) ↦ elim (Bool-cases (i == 0)) [
    | inr later ↦ rw (later, dot) (ground arith)
    | inl first ↦ elim where_it_is [
      | inl later ↦ absurd (ground (arith, first, later))
      | inr bare ↦
          absurd (label_of_accepted st' (ap accepted (sym (start (==→eq i 0 first))) ∙ a) bare)
    ]
  ]
]

scan_lem :
    (m : Bytes) (n i : ℕ) (st : Scan)
    → n < length m
    → i ≤ n
    → (v : Option Scan) × (scan m n i (some st) ≡ ok v) × Scanned m i st v
unfolding scan
scan_lem m n zero st h q =
    (some st, refl, record { at_start = λ e. refl; allowed = λ j l a. absurd (omega arith) })
scan_lem m n (suc i) st h q =
    let (c, at) = load_within m i (omega arith) in
    let (v, run, keeps) = scan_char_lem m n i st st.stage st.is_ip c h (omega arith) in
    let (u, run2, good) = onwards c at v keeps (λ st'. scan_lem m n i st' h (omega arith)) in
    (u, rw (at, run) run2, good)
  where
    onwards :
        (c : ℕ)
        → load m i ≡ ok c
        → (v : Option Scan) → Keeps i c v
        → ((st' : Scan) → (u : Option Scan) × (scan m n i (some st') ≡ ok u) × Scanned m i st' u)
        → (u : Option Scan) × (scan m n i v ≡ ok u) × Scanned m (suc i) st u
    onwards c at none keeps again = (
      none,
      scan-none m n i,
      record {
        at_start = λ e. absurd (omega arith);
        allowed = λ j l a. absurd (unfold accepted in cc);
      },
    )
    onwards c at (some st') keeps again =
        let (u, run2, good) = again st' in
        (
          u,
          run2,
          record {
            at_start = λ e. absurd (omega arith);
            allowed = λ j l a. elim (Bool-cases (j == i)) [
              | inl here ↦
                  let e = ==→eq j i here in
                  (c, rw e at, rw e (last_allowed i c st' u keeps good.at_start a))
              | inr before_it ↦ good.allowed j (ground (arith, l, before_it)) a
            ];
          },
        )

all_loaded :
    (p : ℕ → Bool) (m : Bytes) (n : ℕ)
    → n ≤ length m
    → ((j : ℕ) → j < n → (c : ℕ) × (load m j ≡ ok c) × (p c ≡ true))
    → all p (take n m) ≡ true
unfolding load
all_loaded p m zero h f = refl
all_loaded p [] (suc n) h f = absurd (omega arith)
all_loaded p (x ∷ m) (suc n) h f =
    let (c, at, fine) = f 0 (omega arith) in
    let rest = all_loaded p m n (omega arith) (λ j l. f (suc j) (omega arith)) in
    ground (arith, at, fine, rest)

-- A letter or a digit, and then letters, digits, hyphens and dots
abbrev pub is_name : Bytes → Bool
is_name [] = false
is_name (c ∷ s) = light_isalnum c && all is_name_char s

allowed_name :
    (m : Bytes) (n : ℕ)
    → n < length m
    → (v : Option Scan) → scan m n n (some scan_start) ≡ ok v
    → Scanned m n scan_start v
    → accepted v ≡ true
    → is_name (take n m) ≡ true
unfolding load
allowed_name m zero h v run good a =
    absurd (label_of_accepted scan_start (ap accepted (sym (good.at_start refl)) ∙ a) refl)
allowed_name [] (suc n) h v run good a = absurd (omega arith)
allowed_name (x ∷ m) (suc n) h v run good a =
    let (c, at, fine) = good.allowed 0 (omega arith) a in
    let rest =
      all_loaded is_name_char m n (omega arith)
        (λ j l. later j (good.allowed (suc j) (omega arith) a)) in
    ground (arith, at, fine, rest)
  where
    later :
        (j : ℕ)
        → (c : ℕ) × (load (x ∷ m) (suc j) ≡ ok c) × (is_allowed (suc j) c ≡ true)
        → (c : ℕ) × (load m j ≡ ok c) × (is_name_char c ≡ true)
    later j (c, at, fine) = (c, at, ground (arith, fine))

-- Where a byte follows the name in its block, the scan and the tests after it return, and an
-- accepted name is a letter or a digit and then letters, digits, hyphens and dots.
pub check_name_lem :
    (m : Bytes) (n : ℕ)
    → n < length m
    → (check_name m n ≡ ok false) ⊎ ((check_name m n ≡ ok true) × (is_name (take n m) ≡ true))
unfolding check_name
check_name_lem m n h =
    let (v, run, good) = scan_lem m n n scan_start h (omega arith) in
    elim (Bool-cases (accepted v)) [
      | inl y ↦ inr (rw (run, y) refl, allowed_name m n h v run good y)
      | inr no_name ↦ inl (rw (run, no_name) refl)
    ]
