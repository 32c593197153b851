-- ===== src/Url/InPlace.antt =====
-- The whole of `buffer_urldecode_internal` (src/buffer.c).
use lighttpd.Base.{
  ℕ, zero, suc, ◌+◌, ◌-◌, ◌≤◌, ◌<◌, ◌≡◌, refl, sym, ap, ◌∙◌, ◌≢◌, inl, inr, Bool, false, none, [],
  ◌∷◌, ◌++◌, append-nil, append_assoc, arith, ◌==◌, Bool-cases, length, length-append, split_at,
  All,
}
use lighttpd.Memory.{ok, Bytes, load, store}
use lighttpd.Buffer.{Buffer}
use lighttpd.Buffer.Holds.{Stores, string_is_empty-Stores}
use lighttpd.Memory.Blocks.{load_at, store_at}
use lighttpd.Url.{skip_plain, decode_loop, urldecode_internal}
use lighttpd.Url.Decode.{
  until_nul, plain_byte, decode, All-until_nul, until_nul-split, escape_at, decode_plain,
  length-decode,
}
use lighttpd.Url.Loops.{decode_loop_lem}

record Skips (q : Bool) (fuel : ℕ) (out s tail : Bytes) : Type 0 where
  front : Bytes
  back : Bytes
  runs :
      skip_plain q fuel (out ++ (s ++ (0 ∷ tail))) (length out)
      ≡ ok ((out ++ front) ++ (back ++ (0 ∷ tail)), length (out ++ front))
  same : decode q s ≡ front ++ decode q back
  lengths : length front + length back ≡ length s
  nonzero : All (λ c. c ≢ 0) back

not_escape : (c a b : ℕ) → (c == b'%') ≡ false → escape_at c a b ≡ none
not_escape c a b e = rw e

skip_plain_step :
    (q : Bool) (fuel : ℕ) (out more : Bytes) (c : ℕ)
    → c ≢ 0
    → (c == b'%') ≡ false
    → skip_plain q (suc fuel) (out ++ (c ∷ more)) (length out)
      ≡ skip_plain q fuel
          ((out ++ (plain_byte q c ∷ [])) ++ more)
          (length (out ++ (plain_byte q c ∷ [])))
unfolding skip_plain
skip_plain_step q fuel out more c ne e = ground (
  arith,
  ne,
  e,
  load_at out more c,
  store_at out more c b' ',
  append_assoc out (plain_byte q c ∷ []) more,
  length-append out (plain_byte q c ∷ []),
)

Skips-lem :
    (q : Bool) (fuel : ℕ) (out s tail : Bytes)
    → All (λ c. c ≢ 0) s
    → length s < fuel
    → Skips q fuel out s tail
Skips-lem q zero out s tail h lt = absurd (omega arith)
Skips-lem q (suc fuel) out [] tail h lt = record {
  front = [];
  back = [];
  runs = rw append-nil (unfold skip_plain in ground (arith, load_at out tail 0));
  same = refl;
  lengths = omega arith;
  nonzero = tt;
}
Skips-lem q (suc fuel) out (c ∷ s) tail (ne, h) lt = elim (Bool-cases (c == b'%')) [
  | inl y ↦ record {
    front = [];
    back = c ∷ s;
    runs = rw append-nil (unfold skip_plain in ground (arith, y, load_at out (s ++ (0 ∷ tail)) c));
    same = refl;
    lengths = omega arith;
    nonzero = (ne, h);
  }
  | inr n ↦
      let v = plain_byte q c in
      let k = Skips-lem q fuel (out ++ (v ∷ [])) s tail h (omega arith) in
      let regroup = append_assoc out (v ∷ []) k.front in
      record {
        front = v ∷ k.front;
        back = k.back;
        runs = skip_plain_step q fuel out (s ++ (0 ∷ tail)) c ne n ∙ k.runs ∙ rw regroup;
        same = decode_plain q c s (λ a b r _. not_escape c a b n) ∙ ap (◌∷◌ v) k.same;
        lengths = omega (arith, k.lengths);
        nonzero = k.nonzero;
      }
]

pub length-until_nul : (s : Bytes) → length (until_nul s) ≤ length s
unfolding until_nul
length-until_nul [] = omega arith
length-until_nul (c ∷ s) = ground (arith, length-until_nul s)

end_with_zero :
    (ds after ds' : Bytes) (x : ℕ) (vs : Bytes)
    → ds' ≡ ds
    → after ≡ x ∷ vs
    → store (ds ++ after) (length ds) 0 ≡ ok (ds' ++ (0 ∷ vs))
end_with_zero ds after ds' x vs same e = rw (same, e) (store_at ds vs x 0)

-- Both loops and the final zero, over a block that holds a C string `s`
record Rewrites (q : Bool) (fuel : ℕ) (s tail : Bytes) : Type 0 where
  middle : Bytes × ℕ
  last : Bytes × ℕ
  rest : Bytes
  skipped : skip_plain q fuel (s ++ (0 ∷ tail)) 0 ≡ ok middle
  decoded : decode_loop q fuel middle.0 middle.1 middle.1 ≡ ok last
  length_is : last.1 ≡ length (decode q s)
  ended : store last.0 last.1 0 ≡ ok (decode q s ++ (0 ∷ rest))
  keeps : length (decode q s) + length rest ≡ length s + length tail

Rewrites-lem :
    (q : Bool) (fuel : ℕ) (s tail : Bytes)
    → All (λ c. c ≢ 0) s
    → length s < fuel
    → Rewrites q fuel s tail
Rewrites-lem q fuel s tail h lt =
    let k = Skips-lem q fuel [] s tail h lt in
    let d =
      decode_loop_lem q k.back fuel k.front [] tail (length k.front) k.nonzero
        (omega (arith, k.lengths)) (omega arith) in
    let n : length (decode q s) ≡ length (k.front ++ decode q k.back) = ap length k.same in
    let total = length-append (k.front ++ decode q k.back) d.after in
    let total' = length-append k.front (k.back ++ (0 ∷ tail)) in
    let total'' = length-append k.back (0 ∷ tail) in
    let le = length-decode q k.back in
    let both = length-append k.front (decode q k.back) in
    let (us, x, vs, split, l) =
      split_at 0 d.after (omega (arith, d.keeps, total, total', total'', le, both)) in
    let us-nil : us ≡ [] = ground (arith, l) in
    let e : d.after ≡ x ∷ vs = rw us-nil at split in
    record {
      middle = (k.front ++ (k.back ++ (0 ∷ tail)), length k.front);
      last = ((k.front ++ decode q k.back) ++ d.after, length (k.front ++ decode q k.back));
      rest = vs;
      skipped = k.runs;
      decoded = d.runs;
      length_is = sym n;
      ended = end_with_zero (k.front ++ decode q k.back) d.after (decode q s) x vs k.same e;
      keeps = omega (arith, n, d.keeps, total, total', total'', both, k.lengths, ap length e);
    }

-- For a buffer that stores any string, decoding in place returns, with no access outside the block
-- and no loop out of fuel, and the buffer then stores the decoding of the string up to its first
-- zero byte.
pub urldecode_internal_lem :
    (q : Bool) {b : Buffer} (s : Bytes)
    → Stores b s
    → (b' : Buffer) × (urldecode_internal q b ≡ ok b') × Stores b' (decode q (until_nul s))
unfolding urldecode_internal
urldecode_internal_lem q {b} [] k =
    (b, ground (arith, string_is_empty-Stores {b = b} {s = []} k), unfold decode until_nul in k)
urldecode_internal_lem q (c ∷ s) (inl u) = cc (u.2)
urldecode_internal_lem q {b} (c ∷ s) (inr k) =
    let t = until_nul (c ∷ s) in
    let (tail, split) = until_nul-split (c ∷ s) k.rest in
    let block : b.ptr ≡ t ++ (0 ∷ tail) = k.layout ∙ split in
    let r =
      Rewrites-lem q b.used t tail (All-until_nul (c ∷ s))
        (omega (arith, k.used_is, length-until_nul (c ∷ s))) in
    let last : load b.ptr (b.used - 1) ≡ ok 0 =
      let n : b.used - 1 ≡ length (c ∷ s) = omega (arith, k.used_is) in
      rw n (rw k.layout (load_at (c ∷ s) k.rest 0)) in
    (
      record b { ptr = decode q t ++ (0 ∷ r.rest); used = length (decode q t) + 1 },
      ground (
        arith,
        string_is_empty-Stores {b = b} {s = c ∷ s} (inr k),
        last,
        block,
        r.skipped,
        r.decoded,
        r.length_is,
        r.ended,
      ),
      inr (record {
        rest = r.rest;
        layout = refl;
        used_is = refl;
        size_is = omega (
          arith,
          r.keeps,
          k.size_is,
          ap length split,
          length-append t (0 ∷ tail),
          length-append (c ∷ s) (0 ∷ k.rest),
        );
        in_range = k.in_range;
      }),
    )
