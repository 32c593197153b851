-- ===== src/Chunk/Octets.antt =====
-- What a chunk of src/chunk.c stands for: octets that are in memory or in a file.
use lighttpd.Base.{
  ℕ, zero, suc, ◌+◌, ◌-◌, ◌≤◌, ◌≡◌, refl, sym, ap, ◌∙◌, List, [], ◌∷◌, ◌++◌, append-nil,
  append_assoc, arith, length, take, drop,
}
use lighttpd.Memory.{ok, Bytes}
use lighttpd.Buffer.Holds.{Stores, string_length-Stores, string_of, string_of-Stores}
use lighttpd.Chunk.{Kind, mem_chunk, file_chunk, Chunk, whole_length, chunk_remaining_length}

pub data Octet : Type 0 where
  byte : ℕ → Octet
  in_file : Bytes → ℕ → Octet

unfoldable pub mem_octets : Bytes → List Octet
mem_octets [] = []
mem_octets (x ∷ s) = byte x ∷ mem_octets s

-- `n` octets of the file of some name, from a place on
unfoldable pub file_octets : Bytes → ℕ → ℕ → List Octet
file_octets name place zero = []
file_octets name place (suc n) = in_file name place ∷ file_octets name (place + 1) n

unfoldable pub octets_as : Chunk → Kind → List Octet
octets_as c mem_chunk = mem_octets (drop c.offset (string_of c.mem))
octets_as c file_chunk =
    file_octets (string_of c.file_name) (c.file_start + c.offset) (c.file_length - c.offset)

-- What is left of a chunk
abbrev pub octets : Chunk → List Octet
octets c = octets_as c c.kind

unfoldable pub stream : List Chunk → List Octet
stream [] = []
stream (c ∷ cs) = octets c ++ stream cs

-- The buffers hold strings, and no more has been sent than there is.
pub record IsChunk (c : Chunk) : Type 0 where
  pub text : Bytes
  pub stored : Stores c.mem text
  pub name : Bytes
  pub named : Stores c.file_name name
  pub within : c.offset ≤ whole_length c c.kind

abbrev pub IsMem : Chunk → Type 0
IsMem c = c.kind ≡ mem_chunk

pub length-mem_octets : (s : Bytes) → length (mem_octets s) ≡ length s
unfolding mem_octets
length-mem_octets [] = refl
length-mem_octets (x ∷ s) = ap suc (length-mem_octets s)

pub length-file_octets : (name : Bytes) (p n : ℕ) → length (file_octets name p n) ≡ n
unfolding file_octets
length-file_octets name p zero = refl
length-file_octets name p (suc n) = ap suc (length-file_octets name (p + 1) n)

pub mem_octets-append : (s t : Bytes) → mem_octets (s ++ t) ≡ mem_octets s ++ mem_octets t
unfolding mem_octets
mem_octets-append [] t = refl
mem_octets-append (x ∷ s) t = ap (◌∷◌ (byte x)) (mem_octets-append s t)

pub take-mem_octets : (n : ℕ) (s : Bytes) → take n (mem_octets s) ≡ mem_octets (take n s)
unfolding mem_octets
take-mem_octets zero s = refl
take-mem_octets (suc n) [] = refl
take-mem_octets (suc n) (x ∷ s) = ap (◌∷◌ (byte x)) (take-mem_octets n s)

pub drop-mem_octets : (n : ℕ) (s : Bytes) → drop n (mem_octets s) ≡ mem_octets (drop n s)
unfolding mem_octets
drop-mem_octets zero s = refl
drop-mem_octets (suc n) [] = refl
drop-mem_octets (suc n) (x ∷ s) = drop-mem_octets n s

pub take-file_octets :
    (name : Bytes) (p n m : ℕ) → n ≤ m → take n (file_octets name p m) ≡ file_octets name p n
unfolding file_octets
take-file_octets name p zero m h = refl
take-file_octets name p (suc n) zero h = absurd (omega arith)
take-file_octets name p (suc n) (suc m) h =
    ap (◌∷◌ (in_file name p)) (take-file_octets name (p + 1) n m (omega arith))

pub drop-file_octets :
    (name : Bytes) (p n m : ℕ)
    → n ≤ m
    → drop n (file_octets name p m) ≡ file_octets name (p + n) (m - n)
unfolding file_octets
drop-file_octets name p zero m h =
    let e : p + 0 ≡ p = omega arith in let e' : m - 0 ≡ m = omega arith in rw (e, e') refl
drop-file_octets name p (suc n) zero h = absurd (omega arith)
drop-file_octets name p (suc n) (suc m) h =
    let e : p + suc n ≡ p + 1 + n = omega arith in
    let e' : suc m - suc n ≡ m - n = omega arith in
    rw (e, e') (drop-file_octets name (p + 1) n m (omega arith))

pub length-drop {ℓ} : {A : Type ℓ} (n : ℕ) (xs : List A) → length (drop n xs) ≡ length xs - n
length-drop zero xs = omega arith
length-drop (suc n) [] = omega arith
length-drop (suc n) (x ∷ xs) = omega (arith, length-drop n xs)

pub drop-nil {ℓ} : {A : Type ℓ} (n : ℕ) → drop {ℓ} {A = A} n [] ≡ []
drop-nil zero = refl
drop-nil (suc n) = refl

pub drop-drop {ℓ} : {A : Type ℓ} (m n : ℕ) (xs : List A) → drop n (drop m xs) ≡ drop (m + n) xs
drop-drop zero n xs = let e : 0 + n ≡ n = omega arith in rw e refl
drop-drop (suc m) n [] = drop-nil n ∙ sym (drop-nil (suc m + n))
drop-drop (suc m) n (x ∷ xs) =
    let e : suc m + n ≡ suc (m + n) = omega arith in rw e (drop-drop m n xs)

length-octets_as :
    (c : Chunk) (k : Kind) (s : Bytes)
    → Stores c.mem s
    → length (octets_as c k) ≡ whole_length c k - c.offset
unfolding octets_as whole_length
length-octets_as c mem_chunk s h =
    length-mem_octets (drop c.offset (string_of c.mem))
    ∙ length-drop c.offset (string_of c.mem)
    ∙ omega (arith, ap length (string_of-Stores h), string_length-Stores h)
length-octets_as c file_chunk s h = length-file_octets _ _ _

-- The length that the code computes is the number of octets left.
pub chunk_remaining_length_lem :
    {c : Chunk} → IsChunk c → chunk_remaining_length c ≡ ok (length (octets c))
unfolding chunk_remaining_length
chunk_remaining_length_lem {c} k =
    ground (arith, k.within, length-octets_as c c.kind k.text k.stored)

pub stream-append : (cs ds : List Chunk) → stream (cs ++ ds) ≡ stream cs ++ stream ds
unfolding stream
stream-append [] ds = refl
stream-append (c ∷ cs) ds =
    rw (stream-append cs ds) (sym (append_assoc (octets c) (stream cs) (stream ds)))

pub stream_one : (c : Chunk) → stream (c ∷ []) ≡ octets c
unfolding stream
stream_one c = append-nil (octets c)

pub stream_cons : (c : Chunk) (cs : List Chunk) → stream (c ∷ cs) ≡ octets c ++ stream cs
unfolding stream
stream_cons c cs = refl

whole_length-advance :
    (c : Chunk) (k : Kind) (n : ℕ) → whole_length (record c { offset = n }) k ≡ whole_length c k
unfolding whole_length
whole_length-advance c mem_chunk n = refl
whole_length-advance c file_chunk n = refl

octets_as-advance :
    (c : Chunk) (k : Kind) (n : ℕ)
    → c.offset + n ≤ whole_length c k
    → octets_as (record c { offset = c.offset + n }) k ≡ drop n (octets_as c k)
unfolding octets_as whole_length
octets_as-advance c mem_chunk n h =
    ap mem_octets (sym (drop-drop c.offset n (string_of c.mem)))
    ∙ sym (drop-mem_octets n (drop c.offset (string_of c.mem)))
octets_as-advance c file_chunk n h =
    let place : c.file_start + (c.offset + n) ≡ c.file_start + c.offset + n = omega arith in
    let left : c.file_length - (c.offset + n) ≡ c.file_length - c.offset - n = omega arith in
    rw (place, left)
      (sym (
        drop-file_octets (string_of c.file_name) (c.file_start + c.offset) n
          (c.file_length - c.offset) (omega arith)))

-- To send a part of a chunk is to drop so many of its octets.
pub advance-IsChunk :
    (c : Chunk) (n : ℕ)
    → IsChunk c
    → n ≤ length (octets c)
    → IsChunk (record c { offset = c.offset + n })
      × (octets (record c { offset = c.offset + n }) ≡ drop n (octets c))
advance-IsChunk c n k h =
    let l = length-octets_as c c.kind k.text k.stored in
    (
      record {
        text = k.text;
        stored = k.stored;
        name = k.name;
        named = k.named;
        within = omega (arith, l, k.within, whole_length-advance c c.kind (c.offset + n));
      },
      octets_as-advance c c.kind n (omega (arith, l, k.within)),
    )

pub drop_past {ℓ} :
    {A : Type ℓ} (n : ℕ) (xs ys : List A)
    → length xs ≤ n
    → drop n (xs ++ ys) ≡ drop (n - length xs) ys
drop_past n [] ys h = let e : n - 0 ≡ n = omega arith in rw e refl
drop_past zero (x ∷ xs) ys h = absurd (omega arith)
drop_past (suc n) (x ∷ xs) ys h =
    let e : suc n - suc (length xs) ≡ n - length xs = omega arith in
    rw e (drop_past n xs ys (omega arith))

pub drop_within {ℓ} :
    {A : Type ℓ} (n : ℕ) (xs ys : List A) → n ≤ length xs → drop n (xs ++ ys) ≡ drop n xs ++ ys
drop_within zero xs ys h = refl
drop_within (suc n) [] ys h = absurd (omega arith)
drop_within (suc n) (x ∷ xs) ys h = drop_within n xs ys (omega arith)

pub take_past {ℓ} :
    {A : Type ℓ} (n : ℕ) (xs ys : List A)
    → length xs ≤ n
    → take n (xs ++ ys) ≡ xs ++ take (n - length xs) ys
take_past n [] ys h = let e : n - 0 ≡ n = omega arith in rw e refl
take_past zero (x ∷ xs) ys h = absurd (omega arith)
take_past (suc n) (x ∷ xs) ys h =
    let e : suc n - suc (length xs) ≡ n - length xs = omega arith in
    rw e (ap (◌∷◌ x) (take_past n xs ys (omega arith)))
