-- ===== src/Splay.antt =====
-- The top-down splay tree of src/splaytree.c. A key is an `int` without sign bit, as the callers in
-- src/stat_cache.c make them, so that the subtraction `compare` does not overflow; a size is an
-- `int` as well. A null pointer is `leaf`; the data is a pointer of any type.
pub mod Order
pub mod Sizes
pub mod Splits
pub mod Entry
pub mod Update
use lighttpd.Base.{
  ℕ, zero, suc, ◌+◌, ◌-◌, Bool, false, List, [], ◌∷◌, ◌++◌, ltb, ◌==◌, if◌then◌else◌,
}
use lighttpd.Memory.{Outcome, ok, aborted, fault, ◌>>=◌, ◌>>◌}

pub data Tree {ℓ} (A : Type ℓ) : Type ℓ where
  leaf : Tree A
  node : Tree A → ℕ → A → Tree A → ℕ → Tree A

-- `splaytree_size`
unfoldable pub node_size {ℓ} : {A : Type ℓ} → Tree A → ℕ
node_size leaf = 0
node_size (node l k a r n) = n

-- A node that was linked to one side: its own child there, key and data. Its other child is the
-- next node that is linked, and its size is set at the end.
pub record Linked {ℓ} (A : Type ℓ) : Type ℓ where
  pub child : Tree A
  pub key : ℕ
  pub entry : A

-- The paths from `N.right` and from `N.left`, in the order of linking, with their sizes
pub record Sides {ℓ} (A : Type ℓ) : Type ℓ where
  pub lefts : List (Linked A)
  pub rights : List (Linked A)
  pub l_size : ℕ
  pub r_size : ℕ

unfoldable pub link_right {ℓ} : {A : Type ℓ} → Sides A → ℕ → A → Tree A → Sides A
link_right p k a r = record p {
  rights = p.rights ++ (record { child = r; key = k; entry = a } ∷ []);
  r_size = p.r_size + (1 + node_size r);
}

unfoldable pub link_left {ℓ} : {A : Type ℓ} → Sides A → Tree A → ℕ → A → Sides A
link_left p l k a = record p {
  lefts = p.lefts ++ (record { child = l; key = k; entry = a } ∷ []);
  l_size = p.l_size + (1 + node_size l);
}

-- The loops that correct the sizes, with the last node's child put in. No size goes below 0 where
-- the sizes of the tree are right.
unfoldable pub close_left {ℓ} : {A : Type ℓ} → List (Linked A) → ℕ → Tree A → Tree A
close_left [] l_size t = t
close_left (y ∷ ys) l_size t =
    node y.child y.key y.entry (close_left ys (l_size - (1 + node_size y.child)) t) l_size

unfoldable pub close_right {ℓ} : {A : Type ℓ} → List (Linked A) → ℕ → Tree A → Tree A
close_right [] r_size t = t
close_right (y ∷ ys) r_size t =
    node (close_right ys (r_size - (1 + node_size y.child)) t) y.key y.entry y.child r_size

-- What follows the loop, at the node where it stopped
unfoldable pub assemble {ℓ} : {A : Type ℓ} → Sides A → Tree A → ℕ → A → Tree A → Tree A
assemble p l k a r =
    node (close_left p.lefts (p.l_size + node_size l) l) k a
      (close_right p.rights (p.r_size + node_size r) r)
      (p.l_size + node_size l + (p.r_size + node_size r) + 1)

-- A node with its size computed
unfoldable pub sized {ℓ} : {A : Type ℓ} → Tree A → ℕ → A → Tree A → Tree A
sized l k a r = node l k a r (node_size l + node_size r + 1)

-- How a round ends: with the tree assembled, or further down
pub data Round {ℓ} (A : Type ℓ) : Type ℓ where
  stopped : Tree A → Round A
  onward : Sides A → Tree A → Round A

unfoldable pub go_left {ℓ} : {A : Type ℓ} → Sides A → Tree A → ℕ → A → Tree A → Round A
go_left p leaf k a r = stopped (assemble p leaf k a r)
go_left p (node ll lk la lr n) k a r = onward (link_right p k a r) (node ll lk la lr n)

unfoldable pub go_right {ℓ} : {A : Type ℓ} → Sides A → Tree A → ℕ → A → Tree A → Round A
go_right p l k a leaf = stopped (assemble p l k a leaf)
go_right p l k a (node rl rk ra rr n) = onward (link_left p l k a) (node rl rk ra rr n)

-- The key is to the left: rotate right if it is even left of the child, then link right.
unfoldable pub left_round {ℓ} : {A : Type ℓ} → ℕ → Sides A → Tree A → ℕ → A → Tree A → Round A
left_round i p leaf k a r = stopped (assemble p leaf k a r)
left_round i p (node ll lk la lr n) k a r =
    if ltb i lk then go_left p ll lk la (sized lr k a r) else go_left p (node ll lk la lr n) k a r

unfoldable pub right_round {ℓ} : {A : Type ℓ} → ℕ → Sides A → Tree A → ℕ → A → Tree A → Round A
right_round i p l k a leaf = stopped (assemble p l k a leaf)
right_round i p l k a (node rl rk ra rr n) =
    if ltb rk i then go_right p (sized l k a rl) rk ra rr else go_right p l k a (node rl rk ra rr n)

unfoldable pub splay_round {ℓ} : {A : Type ℓ} → ℕ → Sides A → Tree A → Round A
splay_round i p leaf = stopped leaf
splay_round i p (node l k a r n) =
    if ltb i k
    then left_round i p l k a r
    else if ltb k i
    then right_round i p l k a r
    else stopped (assemble p l k a r)

unfoldable pub splay_loop {ℓ} : {A : Type ℓ} → ℕ → ℕ → Sides A → Tree A → Outcome (Tree A)
splay_loop zero i p t = fault
splay_loop (suc fuel) i p t = elim (splay_round i p t) [
  | stopped t' ↦ ok t'
  | onward p' t' ↦ splay_loop fuel i p' t'
]

-- The number of nodes, which is the fuel of the loop
unfoldable pub count {ℓ} : {A : Type ℓ} → Tree A → ℕ
count leaf = 0
count (node l k a r n) = count l + count r + 1

abbrev pub no_sides {ℓ} : {A : Type ℓ} → Sides A
no_sides = record { lefts = []; rights = []; l_size = 0; r_size = 0 }

unfoldable pub splaytree_splay {ℓ} : {A : Type ℓ} → Tree A → ℕ → Outcome (Tree A)
splaytree_splay leaf i = ok leaf
splaytree_splay (node l k a r n) i = splay_loop (count (node l k a r n)) i no_sides (node l k a r n)

-- The new node takes one side of the splayed tree, which keeps the other.
unfoldable pub put_root {ℓ} : {A : Type ℓ} → ℕ → A → Tree A → Tree A
put_root i new leaf = sized leaf i new leaf
put_root i new (node l k a r n) =
    if ltb i k
    then sized l i new (node leaf k a r (1 + node_size r))
    else sized (node l k a leaf (1 + node_size l)) i new r

abbrev pub has_root {ℓ} : {A : Type ℓ} → ℕ → Tree A → Bool
has_root i leaf = false
has_root i (node l k a r n) = k == i

-- `granted` is whether `malloc` gives the node.
unfoldable pub splaytree_insert {ℓ} : {A : Type ℓ} → Bool → Tree A → ℕ → A → Outcome (Tree A)
splaytree_insert granted t i new = do
  t' ← splaytree_splay t i
  if has_root i t' then ok t' else if granted then ok (put_root i new t') else aborted

-- `x->right = ...` and `x->size = ...`, where `x` is not null
unfoldable pub set_right {ℓ} : {A : Type ℓ} → Tree A → Tree A → Tree A
set_right leaf r = leaf
set_right (node l k a _ n) r = node l k a r n

unfoldable pub set_size {ℓ} : {A : Type ℓ} → Tree A → ℕ → Tree A
set_size leaf n = leaf
set_size (node l k a r _) n = node l k a r n

-- The two sides of the deleted root put together
unfoldable pub join_sides {ℓ} : {A : Type ℓ} → ℕ → Tree A → Tree A → Outcome (Tree A)
join_sides i leaf r = ok r
join_sides i (node ll lk la lr n) r =
    splaytree_splay (node ll lk la lr n) i >>= λ x. ok (set_right x r)

unfoldable pub delete_root {ℓ} : {A : Type ℓ} → ℕ → ℕ → Tree A → Outcome (Tree A)
delete_root i tsize leaf = ok leaf
delete_root i tsize (node l k a r n) =
    if k == i then (join_sides i l r >>= λ x. ok (set_size x (tsize - 1))) else ok (node l k a r n)

unfoldable pub splaytree_delete {ℓ} : {A : Type ℓ} → Tree A → ℕ → Outcome (Tree A)
splaytree_delete t i = splaytree_splay t i >>= λ t'. delete_root i (node_size t) t'
