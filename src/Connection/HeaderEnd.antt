-- ===== src/Connection/HeaderEnd.antt =====
-- The search for the end of a request header in `connection_handle_read_state`
-- (src/connections.c): `\r\n\r\n`, over the boundaries of chunks. A chunk counts by its index in
-- the chain.
use lighttpd.Base.{ℕ, ◌+◌, Option, none, some, List, [], ◌∷◌, ◌==◌, if◌then◌else◌, get_or, drop}
use lighttpd.Memory.{Bytes}
use lighttpd.Buffer.Holds.{string_of}
use lighttpd.Chunk.{Chunk}

-- `b[0 .. len)` for a chunk
abbrev pub view : Chunk → Bytes
view c = drop c.offset (string_of c.mem)

abbrev pub header_end : Bytes
header_end = b'\r' ∷ b'\n' ∷ b'\r' ∷ b'\n' ∷ []

-- The two inner loops, in the rest of a chunk and in the chunks behind it: the chunk and the offset
-- where the end was found
unfoldable pub match_header_end : ℕ → ℕ → ℕ → Bytes → List Chunk → Option (ℕ × ℕ)
match_header_end seen idx j [] [] = none
match_header_end seen idx j [] (c ∷ cs) = match_header_end seen (idx + 1) 0 (view c) cs
match_header_end seen idx j (ch ∷ b) cs =
    let rest = match_header_end (seen + 1) idx (j + 1) b cs in
    if ch == get_or header_end seen 0
    then (if seen + 1 == 4 then some (idx, j + 1) else rest)
    else none

abbrev pub first_some : Option (ℕ × ℕ) → Option (ℕ × ℕ) → Option (ℕ × ℕ)
first_some (some p) rest = some p
first_some none rest = rest

-- The outer loops, from the place `i` of a chunk on
unfoldable pub find_from : ℕ → ℕ → Bytes → List Chunk → Option (ℕ × ℕ)
find_from idx i [] [] = none
find_from idx i [] (c ∷ cs) = find_from (idx + 1) 0 (view c) cs
find_from idx i (ch ∷ b) cs =
    let rest = find_from idx (i + 1) b cs in
    if ch == b'\r' then first_some (match_header_end 1 idx (i + 1) b cs) rest else rest

unfoldable pub find_header_end : ℕ → List Chunk → Option (ℕ × ℕ)
find_header_end idx [] = none
find_header_end idx (c ∷ cs) = find_from idx 0 (view c) cs
