-- ===== src/Splay/Sizes.antt =====
-- The size fields of the splay tree (src/splaytree.c).
use lighttpd.Base.{
  ℕ, zero, suc, ◌+◌, ◌-◌, ◌≡◌, refl, inl, inr, Bool, true, ◌&&◌, List, [], ◌∷◌, ◌++◌, arith, ltb,
  ◌==◌, Bool-cases, length, length-append, all, all-append,
}
use lighttpd.Memory.{ok}
use lighttpd.Splay.{
  Tree, leaf, node, node_size, Linked, Sides, link_right, link_left, close_left, close_right,
  assemble, sized, Round, stopped, onward, go_left, go_right, left_round, right_round, splay_round,
  splay_loop, count, no_sides, splaytree_splay,
}
use lighttpd.Splay.Order.{inorder}

unfoldable pub sizes_ok {ℓ} : {A : Type ℓ} → Tree A → Bool
sizes_ok leaf = true
sizes_ok (node l k a r n) = sizes_ok l && (sizes_ok r && n == node_size l + node_size r + 1)

unfoldable total {ℓ} : {A : Type ℓ} → List (Linked A) → ℕ
total [] = 0
total (y ∷ ys) = 1 + node_size y.child + total ys

abbrev children_ok {ℓ} : {A : Type ℓ} → List (Linked A) → Bool
children_ok ys = all (λ y. sizes_ok y.child) ys

module _ {ℓ} {A : Type ℓ} where
  total-append : (xs ys : List (Linked A)) → total (xs ++ ys) ≡ total xs + total ys
  unfolding total
  total-append [] ys = omega arith
  total-append (x ∷ xs) ys = omega (arith, total-append xs ys)

  pub node_size-inorder : (t : Tree A) → sizes_ok t ≡ true → node_size t ≡ length (inorder t)
  unfolding sizes_ok inorder node_size
  node_size-inorder leaf h = refl
  node_size-inorder (node l k a r n) h = ground (
    arith,
    node_size-inorder l,
    node_size-inorder r,
    length-append (inorder l) ((k, a) ∷ inorder r),
  )

  sizes_ok-grown :
      (l : Tree A) (k : ℕ) (a : A) (r : Tree A) (n : ℕ)
      → sizes_ok l ≡ true
      → sizes_ok r ≡ true
      → n ≡ node_size l + node_size r + 1
      → (sizes_ok (node l k a r n) ≡ true) × (node_size (node l k a r n) ≡ n)
  unfolding sizes_ok node_size
  sizes_ok-grown l k a r n hl hr e = (ground (arith, hl, hr, e), refl)

  close_left-sizes_ok :
      (ys : List (Linked A)) (t : Tree A)
      → children_ok ys ≡ true
      → sizes_ok t ≡ true
      → (sizes_ok (close_left ys (total ys + node_size t) t) ≡ true)
        × (node_size (close_left ys (total ys + node_size t) t) ≡ total ys + node_size t)
  unfolding total close_left
  close_left-sizes_ok [] t c h = (h, omega arith)
  close_left-sizes_ok (y ∷ ys) t c h =
      let (s, e) = close_left-sizes_ok ys t (ground arith) h in
      let rest : 1 + node_size y.child + total ys + node_size t - (1 + node_size y.child)
          ≡ total ys + node_size t =
        omega arith in
      rw rest (
        sizes_ok-grown y.child y.key y.entry (close_left ys (total ys + node_size t) t)
          (1 + node_size y.child + total ys + node_size t) (ground arith) s (omega (arith, e)))

  close_right-sizes_ok :
      (ys : List (Linked A)) (t : Tree A)
      → children_ok ys ≡ true
      → sizes_ok t ≡ true
      → (sizes_ok (close_right ys (total ys + node_size t) t) ≡ true)
        × (node_size (close_right ys (total ys + node_size t) t) ≡ total ys + node_size t)
  unfolding total close_right
  close_right-sizes_ok [] t c h = (h, omega arith)
  close_right-sizes_ok (y ∷ ys) t c h =
      let (s, e) = close_right-sizes_ok ys t (ground arith) h in
      let rest : 1 + node_size y.child + total ys + node_size t - (1 + node_size y.child)
          ≡ total ys + node_size t =
        omega arith in
      rw rest (
        sizes_ok-grown (close_right ys (total ys + node_size t) t) y.key y.entry y.child
          (1 + node_size y.child + total ys + node_size t) s (ground arith) (omega (arith, e)))

  -- The counters are the sizes of what is linked.
  record Counts (p : Sides A) : Type 0 where
    left_children : children_ok p.lefts ≡ true
    right_children : children_ok p.rights ≡ true
    left_total : p.l_size ≡ total p.lefts
    right_total : p.r_size ≡ total p.rights

  assemble-sizes_ok :
      (p : Sides A) (l : Tree A) (k : ℕ) (a : A) (r : Tree A)
      → Counts p
      → sizes_ok l ≡ true
      → sizes_ok r ≡ true
      → sizes_ok (assemble p l k a r) ≡ true
  unfolding assemble
  assemble-sizes_ok p l k a r c hl hr =
      let (sl, el) = close_left-sizes_ok p.lefts l c.left_children hl in
      let (sr, er) = close_right-sizes_ok p.rights r c.right_children hr in
      rw (c.left_total, c.right_total) (unfold sizes_ok in ground (arith, sl, el, sr, er))

  abbrev SizesKept : Round A → Type 0
  SizesKept (stopped t) = sizes_ok t ≡ true
  SizesKept (onward p t) = Counts p × (sizes_ok t ≡ true)

  go_left-SizesKept :
      (p : Sides A) (l : Tree A) (k : ℕ) (a : A) (r : Tree A)
      → Counts p
      → sizes_ok l ≡ true
      → sizes_ok r ≡ true
      → SizesKept (go_left p l k a r)
  unfolding go_left link_right
  go_left-SizesKept p leaf k a r c hl hr = assemble-sizes_ok p leaf k a r c hl hr
  go_left-SizesKept p (node ll lk la lr n) k a r c hl hr =
      let y : Linked A = record { child = r; key = k; entry = a } in
      (
        record {
          left_children = c.left_children;
          right_children = all-append _ p.rights (y ∷ []) c.right_children (ground arith);
          left_total = c.left_total;
          right_total =
              unfold total in omega (arith, c.right_total, total-append p.rights (y ∷ []));
        },
        hl,
      )

  go_right-SizesKept :
      (p : Sides A) (l : Tree A) (k : ℕ) (a : A) (r : Tree A)
      → Counts p
      → sizes_ok l ≡ true
      → sizes_ok r ≡ true
      → SizesKept (go_right p l k a r)
  unfolding go_right link_left
  go_right-SizesKept p l k a leaf c hl hr = assemble-sizes_ok p l k a leaf c hl hr
  go_right-SizesKept p l k a (node rl rk ra rr n) c hl hr =
      let y : Linked A = record { child = l; key = k; entry = a } in
      (
        record {
          left_children = all-append _ p.lefts (y ∷ []) c.left_children (ground arith);
          right_children = c.right_children;
          left_total = unfold total in omega (arith, c.left_total, total-append p.lefts (y ∷ []));
          right_total = c.right_total;
        },
        hr,
      )

  sized-sizes_ok :
      (l : Tree A) (k : ℕ) (a : A) (r : Tree A)
      → sizes_ok l ≡ true
      → sizes_ok r ≡ true
      → sizes_ok (sized l k a r) ≡ true
  unfolding sizes_ok sized
  sized-sizes_ok l k a r hl hr = ground (arith, hl, hr)

  sizes_ok-node :
      (l : Tree A) (k : ℕ) (a : A) (r : Tree A) (n : ℕ)
      → sizes_ok (node l k a r n) ≡ true
      → (sizes_ok l ≡ true) × (sizes_ok r ≡ true)
  unfolding sizes_ok
  sizes_ok-node l k a r n h = (ground arith, ground arith)

  left_round-SizesKept :
      (i : ℕ) (p : Sides A) (l : Tree A) (k : ℕ) (a : A) (r : Tree A)
      → Counts p
      → sizes_ok l ≡ true
      → sizes_ok r ≡ true
      → SizesKept (left_round i p l k a r)
  unfolding left_round
  left_round-SizesKept i p leaf k a r c hl hr = assemble-sizes_ok p leaf k a r c hl hr
  left_round-SizesKept i p (node ll lk la lr n) k a r c hl hr =
      let (h1, h2) = sizes_ok-node ll lk la lr n hl in
      elim (Bool-cases (ltb i lk)) [
        | inl y ↦
            rw y
              (go_left-SizesKept p ll lk la (sized lr k a r) c h1 (sized-sizes_ok lr k a r h2 hr))
        | inr back ↦ rw back (go_left-SizesKept p (node ll lk la lr n) k a r c hl hr)
      ]

  right_round-SizesKept :
      (i : ℕ) (p : Sides A) (l : Tree A) (k : ℕ) (a : A) (r : Tree A)
      → Counts p
      → sizes_ok l ≡ true
      → sizes_ok r ≡ true
      → SizesKept (right_round i p l k a r)
  unfolding right_round
  right_round-SizesKept i p l k a leaf c hl hr = assemble-sizes_ok p l k a leaf c hl hr
  right_round-SizesKept i p l k a (node rl rk ra rr n) c hl hr =
      let (h1, h2) = sizes_ok-node rl rk ra rr n hr in
      elim (Bool-cases (ltb rk i)) [
        | inl y ↦
            rw y
              (go_right-SizesKept p (sized l k a rl) rk ra rr c (sized-sizes_ok l k a rl hl h1) h2)
        | inr back ↦ rw back (go_right-SizesKept p l k a (node rl rk ra rr n) c hl hr)
      ]

  splay_round-SizesKept :
      (i : ℕ) (p : Sides A) (t : Tree A)
      → Counts p
      → sizes_ok t ≡ true
      → SizesKept (splay_round i p t)
  unfolding splay_round
  splay_round-SizesKept i p leaf c h = h
  splay_round-SizesKept i p (node l k a r n) c h =
      let (hl, hr) = sizes_ok-node l k a r n h in
      elim (Bool-cases (ltb i k)) [
        | inl y ↦ rw y (left_round-SizesKept i p l k a r c hl hr)
        | inr back ↦ rw back (elim (Bool-cases (ltb k i)) [
          | inl y ↦ rw y (right_round-SizesKept i p l k a r c hl hr)
          | inr same ↦ rw same (assemble-sizes_ok p l k a r c hl hr)
        ])
      ]

  splay_loop-sizes_ok :
      (fuel i : ℕ) (p : Sides A) (t t' : Tree A)
      → Counts p
      → sizes_ok t ≡ true
      → splay_loop fuel i p t ≡ ok t'
      → sizes_ok t' ≡ true
  unfolding splay_loop
  splay_loop-sizes_ok zero i p t t' c h e = cc
  splay_loop-sizes_ok (suc fuel) i p t t' c h e =
      after_round (splay_round i p t) (splay_round-SizesKept i p t c h)
        (λ q u. splay_loop-sizes_ok fuel i q u t') e
    where
      after_round :
          (w : Round A)
          → SizesKept w
          → ((q : Sides A) (u : Tree A)
              → Counts q
              → sizes_ok u ≡ true
              → splay_loop fuel i q u ≡ ok t'
              → sizes_ok t' ≡ true)
          → (elim w [ stopped u ↦ ok u | onward q u ↦ splay_loop fuel i q u ]) ≡ ok t'
          → sizes_ok t' ≡ true
      after_round (stopped u) s again e = cc
      after_round (onward q u) s again e = again q u (s.0) (s.1) e

  -- Splaying keeps the sizes right.
  pub splaytree_splay-sizes_ok :
      (t : Tree A) (i : ℕ) (t' : Tree A)
      → sizes_ok t ≡ true
      → splaytree_splay t i ≡ ok t'
      → sizes_ok t' ≡ true
  unfolding splaytree_splay
  splaytree_splay-sizes_ok leaf i t' h e = cc
  splaytree_splay-sizes_ok (node l k a r n) i t' h e =
      let c : Counts no_sides = record {
        left_children = refl;
        right_children = refl;
        left_total = unfold total in refl;
        right_total = unfold total in refl;
      } in
      splay_loop-sizes_ok (count (node l k a r n)) i no_sides (node l k a r n) t' c h e
