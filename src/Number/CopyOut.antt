-- ===== src/Number/CopyOut.antt =====
-- `li_itostrn` and `li_utostrn`: a number as a C string in the caller's array.
use lighttpd.Base.{
  ℕ, ◌+◌, ◌≤◌, ◌<◌, ◌≡◌, sym, ap, ◌∙◌, [], ◌∷◌, ◌++◌, append-nil, append_assoc, arith, length, take,
  drop, length-append, take-append-drop, length-take,
}
use lighttpd.Memory.{ok, Bytes, size_mod, Allocator, store, memcpy}
use lighttpd.Memory.Blocks.{length-fresh, memcpy_at}
use lighttpd.Number.{ℤ, local_array, copy_out, itostrn, utostrn}
use lighttpd.Number.Append.{IsIntText, IsIntmax, decimal_pos, Texts-lem, text_of_array}
use lighttpd.Number.Decimal.{IsDecimal, last_split, store_last, Digits-lem}

-- The caller's array holds a C string, and keeps its length.
pub record HoldsText (buf buf' text : Bytes) : Type 0 where
  pub rest : Bytes
  pub layout : buf' ≡ text ++ (0 ∷ rest)
  pub keeps : length buf' ≡ length buf

module _ (h : Allocator) where
  copy_out_lem :
      (buf : Bytes) (buf_len : ℕ) (front text : Bytes)
      → length front + length text ≡ 21
      → 0 < length text
      → 22 ≤ buf_len
      → buf_len ≤ length buf
      → (buf' : Bytes) × (copy_out h buf buf_len (front ++ (text ++ (0 ∷ [])), length front)
          ≡ ok buf')
        × HoldsText buf buf' text
  unfolding copy_out
  copy_out_lem buf buf_len front text fits some_text long le =
      let s = text ++ (0 ∷ []) in
      let n : length s ≡ length text + 1 = omega (arith, length-append text (0 ∷ [])) in
      let cut = text_of_array front s 22 (omega (arith, fits, n)) in
      let split = take-append-drop (length s) buf in
      let old = length-take (length s) buf (omega (arith, n, fits)) in
      let rest = drop (length s) buf in
      let copied : memcpy buf 0 s ≡ ok (s ++ rest) =
        ap (λ (m : Bytes). memcpy m 0 s) (sym split)
        ∙ memcpy_at [] (take (length s) buf) s rest old in
      (
        s ++ rest,
        ground (arith, fits, some_text, cut, copied),
        record {
          rest = rest;
          layout = append_assoc text (0 ∷ []) rest;
          keeps = omega (
            arith,
            old,
            ap length split,
            length-append (take (length s) buf) rest,
            length-append s rest,
          );
        },
      )

  local_split : (us : Bytes) × (x : ℕ) × (local_array h ≡ us ++ (x ∷ [])) × (length us ≡ 21)
  local_split = last_split (local_array h) 21 (length-fresh h 0 22)

  ended :
      (us : Bytes) (x : ℕ)
      → local_array h ≡ us ++ (x ∷ [])
      → length us ≡ 21
      → store (local_array h) 21 0 ≡ ok (us ++ (0 ∷ []))
  ended us x e n =
      ap (λ (m : Bytes). store m 21 0) (sym (append-nil (local_array h)))
      ∙ store_last (local_array h) [] 21 0 us x e n

  -- In an array of at least 22 bytes `li_itostrn` returns and leaves the canonical decimal text of
  -- any `intmax_t` and its zero.
  pub itostrn_lem :
      (buf : Bytes) (buf_len : ℕ) (val : ℤ)
      → 22 ≤ buf_len
      → buf_len ≤ length buf
      → IsIntmax val
      → (text : Bytes) × IsIntText text val
        × (buf' : Bytes) × (itostrn h buf buf_len val ≡ ok buf')
        × HoldsText buf buf' text
  unfolding itostrn
  itostrn_lem buf buf_len val long le r =
      let (us, x, e, n) = local_split in
      let t = Texts-lem 20 us (0 ∷ []) val n (omega arith) r in
      let (buf', run, holds) = copy_out_lem buf buf_len t.front t.text t.fits t.nonempty long le in
      (t.text, t.is_text, buf', ground (arith, ended us x e n, t.runs, run), holds)

  -- In an array of at least 22 bytes `li_utostrn` returns and leaves the canonical decimal text of
  -- any `uintmax_t` and its zero.
  pub utostrn_lem :
      (buf : Bytes) (buf_len val : ℕ)
      → 22 ≤ buf_len
      → buf_len ≤ length buf
      → val < size_mod
      → (text : Bytes) × IsDecimal text val
        × (buf' : Bytes) × (utostrn h buf buf_len val ≡ ok buf')
        × HoldsText buf buf' text
  unfolding utostrn
  utostrn_lem buf buf_len val long le r =
      let (us, x, e, n) = local_split in
      let d = Digits-lem 19 20 us (0 ∷ []) val n (omega arith) (omega arith) in
      let (buf', run, holds) =
        copy_out_lem buf buf_len d.front d.ds d.fits (decimal_pos d.ds d.decimal.canonical) long
          le in
      (d.ds, d.decimal, buf', ground (arith, ended us x e n, d.runs, run), holds)
