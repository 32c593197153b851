-- ===== src/Connection/Received.antt =====
-- What `connection_handle_read_state` (src/connections.c) does with the bytes it has.
use mathlib.Core.Path.{subst}
use lighttpd.Base.{
  ℕ, ◌≡◌, refl, sym, ap, ◌∙◌, inl, inr, Bool, ◌&&◌, Option, none, some, List, [], ◌∷◌, ◌++◌, arith,
  ltb, if◌then◌else◌, Bool-cases, length, take, drop, All,
}
use lighttpd.Memory.{ok, Bytes}
use lighttpd.Buffer.Holds.{Stores}
use lighttpd.Chunk.{Chunk, Chunkqueue}
use lighttpd.Chunk.Octets.{mem_octets, IsMem, length-mem_octets}
use lighttpd.Chunkqueue.{chunkqueue_length, chunkqueue_remove_finished_chunks}
use lighttpd.Chunkqueue.Cache.{IsQueue}
use lighttpd.Chunkqueue.Empty.{chunkqueue_remove_finished_chunks_lem}
use lighttpd.Chunkqueue.Written.{chunkqueue_length-IsQueue}
use lighttpd.Connection.{
  State, Clock, Connection, ReadResult, read_ok, read_error, read_closed, note_start, no_header_end,
}
use lighttpd.Connection.Extract.{flat_view, header_length, Placed, Finds, find_header_end-Finds}
use lighttpd.Connection.Header.{IsText-stream}
use lighttpd.Connection.HeaderEnd.{view, find_header_end}

-- A queue in memory
pub record IsInput (cq : Chunkqueue) : Type 0 where
  pub queue : IsQueue cq
  pub in_mem : All IsMem cq.first

pub mem_octets_inj : (s t : Bytes) → mem_octets s ≡ mem_octets t → s ≡ t
unfolding mem_octets
mem_octets_inj [] [] e = refl
mem_octets_inj [] (y ∷ t) e = cc
mem_octets_inj (x ∷ s) [] e = cc
mem_octets_inj (x ∷ s) (y ∷ t) e = ground (arith, mem_octets_inj s t, e)

All-behind : (P : Chunk → Type 0) (xs ys : List Chunk) → All P (xs ++ ys) → All P ys
All-behind P [] ys h = h
All-behind P (x ∷ xs) ys h = All-behind P xs ys (h.1)

pub finished-IsInput :
    (cq : Chunkqueue)
    → IsInput cq
    → (cq' : Chunkqueue) × (chunkqueue_remove_finished_chunks cq ≡ ok cq')
      × IsInput cq'
      × (flat_view cq'.first ≡ flat_view cq.first)
finished-IsInput cq k =
    let (cq', run, q, same, ds, e) = chunkqueue_remove_finished_chunks_lem cq k.queue in
    let m = All-behind IsMem ds cq'.first (rw e at k.in_mem) in
    (
      cq',
      run,
      record { queue = q; in_mem = m },
      mem_octets_inj (flat_view cq'.first) (flat_view cq.first)
          (sym (IsText-stream cq'.first m) ∙ same ∙ IsText-stream cq.first k.in_mem),
    )

-- The state of a connection whose header is not complete after `n` bytes
abbrev pub waiting_state : State → ℕ → ReadResult → State
waiting_state st n result =
    if ltb 65536 n then State.handle_request else elim result [ read_closed ↦ State.error | _ ↦ st ]

-- What became of the connection, by what the search in the bytes `s` gives
abbrev pub Handled : Connection → ReadResult → Bytes → Option ℕ → Connection → Type 0
Handled con result s (some n) con' =
    (con'.state ≡ State.request_end)
    × Stores con'.request (take n s)
    × (flat_view con'.read_queue.first ≡ drop n s)
Handled con result s none con' =
    (con'.state ≡ waiting_state con.state (length s) result)
    × (con'.http_status ≡ (if ltb 65536 (length s) then 414 else con.http_status))
    × (con'.request ≡ con.request)
    × (flat_view con'.read_queue.first ≡ s)

pub Handled-same :
    (con con1 con' : Connection) (result : ReadResult) (s : Bytes) (n : Option ℕ)
    → con1.state ≡ con.state
    → con1.http_status ≡ con.http_status
    → con1.request ≡ con.request
    → Handled con1 result s n con'
    → Handled con result s n con'
Handled-same con con1 con' result s (some n) es eh er d = d
Handled-same con con1 con' result s none es eh er d = (
  subst (λ (st : State). con'.state ≡ waiting_state st (length s) result) es (d.0),
  subst (λ (n : ℕ). con'.http_status ≡ (if ltb 65536 (length s) then 414 else n)) eh (d.1),
  d.2 ∙ er,
  d.3,
)

pub Handled-left :
    (con con1 : Connection) (cq : Chunkqueue) (result : ReadResult) (s : Bytes) (n : Option ℕ)
    → flat_view cq.first ≡ flat_view con1.read_queue.first
    → Handled con result s n con1
    → Handled con result s n (record con1 { read_queue = cq })
Handled-left con con1 cq result s (some n) e d = (d.0, d.1, e ∙ d.2)
Handled-left con con1 cq result s none e d = (d.0, d.1, d.2, e ∙ d.3)

pub search_none :
    (cs : List Chunk) → header_length (flat_view cs) ≡ none → find_header_end 0 cs ≡ none
search_none [] e = unfold find_header_end in refl
search_none (c ∷ cs) e =
    nothing (header_length (flat_view (c ∷ cs))) (find_header_end-Finds 0 c cs) e
  where
    nothing :
        (n : Option ℕ)
        → Finds 0 0 (view c) cs (find_header_end 0 (c ∷ cs)) n
        → n ≡ none
        → find_header_end 0 (c ∷ cs) ≡ none
    nothing none f e = f
    nothing (some n) f e = cc

header_length-nil : header_length (flat_view []) ≡ none
unfolding flat_view header_length
header_length-nil = refl

pub search_some :
    (cs : List Chunk) (n : ℕ)
    → header_length (flat_view cs) ≡ some n
    → (d : Chunk) × (ds : List Chunk) × (cs ≡ d ∷ ds)
      × (i : ℕ) × (o : ℕ) × (find_header_end 0 cs ≡ some (i, o))
      × Placed 0 0 (view d) ds i o n
search_some [] n e = cc header_length-nil
search_some (c ∷ cs) n e =
    let (i, o, found, p) =
      place (header_length (flat_view (c ∷ cs))) (find_header_end-Finds 0 c cs) e in
    (c, cs, refl, i, o, found, p)
  where
    place :
        (m : Option ℕ)
        → Finds 0 0 (view c) cs (find_header_end 0 (c ∷ cs)) m
        → m ≡ some n
        → (i : ℕ) × (o : ℕ) × (find_header_end 0 (c ∷ cs) ≡ some (i, o))
          × Placed 0 0 (view c) cs i o n
    place none f e = cc
    place (some m) (i, o, found, p) e =
        let same : m ≡ n = ground (arith, e) in (i, o, found, rw same at p)

pub sum_of :
    (cq : Chunkqueue) → IsInput cq → chunkqueue_length cq ≡ ok (length (flat_view cq.first))
sum_of cq k =
    chunkqueue_length-IsQueue cq k.queue
    ∙ ap ok (
        omega (
          arith,
          k.queue.balance,
          ap length (IsText-stream cq.first k.in_mem),
          length-mem_octets (flat_view cq.first),
        ))

pub kept_first :
    (con : Connection) (n : ℕ) (result : ReadResult)
    → (no_header_end con n result).read_queue.first ≡ con.read_queue.first
unfolding no_header_end
kept_first con n read_ok = ground arith
kept_first con n read_error = ground arith
kept_first con n read_closed = ground arith

pub kept_request :
    (con : Connection) (n : ℕ) (result : ReadResult)
    → (no_header_end con n result).request ≡ con.request
unfolding no_header_end
kept_request con n read_ok = ground arith
kept_request con n read_error = ground arith
kept_request con n read_closed = ground arith

pub kept_state :
    (con : Connection) (n : ℕ) (result : ReadResult)
    → ((no_header_end con n result).state ≡ waiting_state con.state n result)
      × ((no_header_end con n result).http_status ≡ (if ltb 65536 n then 414 else con.http_status))
unfolding no_header_end
kept_state con n read_ok = (ground arith, ground arith)
kept_state con n read_error = (ground arith, ground arith)
kept_state con n read_closed = (ground arith, ground arith)

pub kept-IsInput :
    (con : Connection) (n : ℕ) (result : ReadResult)
    → IsInput con.read_queue
    → IsInput (no_header_end con n result).read_queue
unfolding no_header_end
kept-IsInput con n read_ok k = elim (Bool-cases (ltb 65536 n)) [ inl y ↦ rw y k | inr m ↦ rw m k ]
kept-IsInput con n read_error k = elim (Bool-cases (ltb 65536 n)) [
  | inl y ↦ rw y k
  | inr m ↦ rw m k
]
kept-IsInput con n read_closed k = elim (Bool-cases (ltb 65536 n)) [
  | inl y ↦ rw y k
  | inr m ↦ rw m k
]

pub note_start_same :
    (clock : Clock) (b : Bool) (con : Connection)
    → ((note_start clock b con).read_queue ≡ con.read_queue)
      × ((note_start clock b con).state ≡ con.state)
      × ((note_start clock b con).http_status ≡ con.http_status)
      × ((note_start clock b con).request ≡ con.request)
unfolding note_start
note_start_same clock b con = elim (Bool-cases (ltb 1 con.request_count && b)) [
  | inl y ↦ rw y (refl, refl, refl, refl)
  | inr n ↦ rw n (refl, refl, refl, refl)
]
