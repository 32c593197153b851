-- ===== src/Number/Append.antt =====
-- `buffer_append_int` and its kin (src/buffer.c), and the text that they write.
use lighttpd.Base.{
  ℕ, suc, ◌+◌, ◌-◌, ◌%◌, ◌^◌, ◌≤◌, ◌<◌, ◌≡◌, refl, sym, ap, ◌∙◌, true, [], ◌∷◌, ◌++◌, append-nil,
  arith, length, take, drop, drop-length, take_all,
}
use lighttpd.Memory.{ok, Bytes, size_mod, Allocator}
use lighttpd.Buffer.{Buffer}
use lighttpd.Buffer.Holds.{Holds, Stores}
use lighttpd.Buffer.Write.{append_string_len_lem}
use lighttpd.Memory.Blocks.{length-fresh}
use lighttpd.Number.{ℤ, pos, negsuc, push_front, magnitude, itostr, local_array, append_int}
use lighttpd.Number.Decimal.{NoLeadingZero, IsDecimal, last_split, store_last, Digits-lem}

-- The canonical text of an integer
abbrev pub IsIntText : Bytes → ℤ → Type 0
IsIntText s (pos n) = IsDecimal s n
IsIntText s (negsuc n) = (ds : Bytes) × (s ≡ b'-' ∷ ds) × IsDecimal ds (n + 1)

-- The range of `intmax_t`
abbrev pub IsIntmax : ℤ → Type 0
IsIntmax (pos n) = n < 2 ^ 63
IsIntmax (negsuc n) = n < 2 ^ 63

-- The text of an integer at the end of an array, before `tail`
pub record Texts (m : Bytes) (cur : ℕ) (val : ℤ) (tail : Bytes) : Type 0 where
  pub front : Bytes
  pub text : Bytes
  pub runs : itostr m cur val ≡ ok (front ++ (text ++ tail), length front)
  pub fits : length front + length text ≡ cur
  pub short : length text ≤ 21
  pub nonempty : 0 < length text
  pub is_text : IsIntText text val

push_front_lem :
    (front more : Bytes) (v : ℕ)
    → 0 < length front
    → (vs : Bytes) × (push_front (front ++ more) (length front) v
        ≡ ok (vs ++ (v ∷ more), length vs))
      × (length vs + 1 ≡ length front)
unfolding push_front
push_front_lem [] more v p = absurd (omega arith)
push_front_lem (c ∷ front) more v p =
    let (vs, x, e, n) = last_split (c ∷ front) (length front) refl in
    (vs, ground (arith, store_last (c ∷ front) more (length front) v vs x e n, n), omega (arith, n))

pub decimal_pos : (ds : Bytes) → NoLeadingZero ds → 0 < length ds
decimal_pos [] h = absurd h
decimal_pos (c ∷ ds) h = omega arith

-- Any array with room for 21 characters takes every `intmax_t`.
pub Texts-lem :
    (cur : ℕ) (us tail : Bytes) (val : ℤ)
    → length us ≡ suc cur
    → 20 ≤ cur
    → IsIntmax val
    → Texts (us ++ tail) (suc cur) val tail
unfolding itostr magnitude
Texts-lem cur us tail (pos n) l le r =
    let d = Digits-lem 19 cur us tail n l (omega arith) (omega arith) in
    record {
      front = d.front;
      text = d.ds;
      runs = d.runs;
      fits = d.fits;
      short = omega (arith, d.short);
      nonempty = decimal_pos d.ds d.decimal.canonical;
      is_text = d.decimal;
    }
Texts-lem cur us tail (negsuc n) l le r =
    let same : (n + 1) % size_mod ≡ n + 1 = omega arith in
    let d = Digits-lem 19 cur us tail (n + 1) l (omega arith) (omega arith) in
    let (vs, pushed, one) =
      push_front_lem d.front (d.ds ++ tail) b'-' (omega (arith, d.fits, d.short)) in
    record {
      front = vs;
      text = b'-' ∷ d.ds;
      runs = ground (arith, same, d.runs, pushed);
      fits = omega (arith, d.fits, one);
      short = omega (arith, d.short);
      nonempty = omega arith;
      is_text = (d.ds, refl, d.decimal);
    }

pub text_of_array :
    (front text : Bytes) (n : ℕ)
    → length front + length text ≡ n
    → take (n - length front) (drop (length front) (front ++ text)) ≡ text
text_of_array front text n e =
    let k : n - length front ≡ length text = omega (arith, e) in
    rw (k, drop-length front text) (take_all text)

at_end :
    (us : Bytes) (cur : ℕ) (val : ℤ) (front text : Bytes)
    → itostr (us ++ []) cur val ≡ ok (front ++ (text ++ []), length front)
    → itostr us cur val ≡ ok (front ++ text, length front)
at_end us cur val front text e =
    ap (λ (m : Bytes). itostr m cur val) (sym (append-nil us))
    ∙ e
    ∙ ap (λ (x : Bytes). ok (front ++ x, length front)) (append-nil text)

module _ (h : Allocator) (ample : (n : ℕ) → h.grants n ≡ true) where
  -- With memory granted, where a buffer stores a string and its length fits a `size_t` with 22
  -- bytes more, `buffer_append_int` appends the canonical decimal text of any `intmax_t`: the
  -- local array of 22 bytes is long enough for it.
  pub append_int_lem :
      {b : Buffer} (s : Bytes) (val : ℤ)
      → Stores b s
      → IsIntmax val
      → length s + 22 < size_mod
      → (text : Bytes) × IsIntText text val
        × (b' : Buffer) × (append_int h b val ≡ ok b')
        × Holds b' (s ++ text)
  unfolding append_int
  append_int_lem {b} s val k r q =
      let t = Texts-lem 21 (local_array h) [] val (length-fresh h 0 22) (omega arith) r in
      let runs : itostr (local_array h) 22 val ≡ ok (t.front ++ t.text, length t.front) =
        at_end (local_array h) 22 val t.front t.text t.runs in
      let (b', e, done) = append_string_len_lem h ample s t.text k (omega (arith, t.short)) in
      (
        t.text,
        t.is_text,
        b',
        ground (arith, runs, t.fits, t.nonempty, text_of_array t.front t.text 22 t.fits, e),
        done,
      )
