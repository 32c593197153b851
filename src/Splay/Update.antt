-- ===== src/Splay/Update.antt =====
-- `splaytree_insert` and `splaytree_delete` (src/splaytree.c), seen as an ascending list.
use lighttpd.Base.{
  ℕ, ◌-◌, ◌≡◌, refl, sym, ap, ◌∙◌, inl, inr, Bool, true, false, ◌&&◌, [], ◌∷◌, ◌++◌, append_assoc,
  arith, ltb, ◌==◌, ==→eq, Bool-cases, length, length-append,
}
use lighttpd.Memory.{ok, ◌>>=◌}
use lighttpd.Splay.{
  Tree, leaf, node, node_size, sized, splaytree_splay, put_root, has_root, splaytree_insert,
  set_right, set_size, join_sides, delete_root, splaytree_delete,
}
use lighttpd.Splay.Entry.{
  insert_entry, remove_entry, insert_entry-under, insert_entry-over, insert_entry-here,
  insert_entry-before, insert_entry-behind, insert_entry-ascending, remove_entry-under,
  remove_entry-here, remove_entry-other, remove_entry-ascending,
}
use lighttpd.Splay.Order.{
  Entries, under, over, ascending, inorder, inorder-node, all-right, ascending-Around,
}
use lighttpd.Splay.Sizes.{sizes_ok, node_size-inorder, splaytree_splay-sizes_ok}
use lighttpd.Splay.Splits.{Parts, splaytree_splay-Parts}

abbrev parts_ok {ℓ} : {A : Type ℓ} → Tree A → Bool
parts_ok leaf = true
parts_ok (node l k a r n) = sizes_ok l && sizes_ok r

module _ {ℓ} {A : Type ℓ} where
  sizes_ok-parts_ok : (t : Tree A) → sizes_ok t ≡ true → parts_ok t ≡ true
  unfolding sizes_ok
  sizes_ok-parts_ok leaf h = refl
  sizes_ok-parts_ok (node l k a r n) h = ground (arith, h)

  set_size-sizes_ok :
      (t : Tree A) (n : ℕ)
      → parts_ok t ≡ true
      → n ≡ length (inorder t)
      → sizes_ok (set_size t n) ≡ true
  unfolding sizes_ok inorder set_size
  set_size-sizes_ok leaf n h e = refl
  set_size-sizes_ok (node l k a r m) n h e = ground (
    arith,
    e,
    node_size-inorder l,
    node_size-inorder r,
    length-append (inorder l) ((k, a) ∷ inorder r),
  )

  inorder-set_size : (t : Tree A) (n : ℕ) → inorder (set_size t n) ≡ inorder t
  unfolding inorder set_size
  inorder-set_size leaf n = refl
  inorder-set_size (node l k a r m) n = refl

  inorder-put_root :
      (i : ℕ) (new : A) (xs : Entries A) (t : Tree A)
      → Parts i xs t
      → has_root i t ≡ false
      → inorder (put_root i new t) ≡ insert_entry i new xs
  unfolding inorder put_root sized
  inorder-put_root i new xs leaf e h = rw e (unfold insert_entry in refl)
  inorder-put_root i new xs (node l k a r n) p h = elim (Bool-cases (ltb i k)) [
    | inl y ↦ rw y (
        sym (
          ap (insert_entry i new) (sym (p.0))
          ∙ insert_entry-under i new (inorder l) ((k, a) ∷ inorder r) (p.1)
          ∙ ap (λ ys. inorder l ++ ys) (insert_entry-before i k new a (inorder r) y)))
    | inr back ↦ rw back (
        append_assoc (inorder l) ((k, a) ∷ []) ((i, new) ∷ inorder r)
        ∙ sym (
            ap (insert_entry i new) (sym (p.0))
            ∙ insert_entry-under i new (inorder l) ((k, a) ∷ inorder r) (p.1)
            ∙ ap (λ ys. inorder l ++ ys)
                (insert_entry-behind i k new a (inorder r) (ground (arith, h, back))
                  ∙ ap (λ ys. (k, a) ∷ ys) (insert_entry-over i new (inorder r) (p.2)))))
  ]

  insert_entry-root :
      (i : ℕ) (new : A) (xs : Entries A) (t : Tree A)
      → Parts i xs t
      → has_root i t ≡ true
      → inorder t ≡ insert_entry i new xs
  unfolding inorder
  insert_entry-root i new xs leaf e h = cc
  insert_entry-root i new xs (node l k a r n) p h =
      let same : k ≡ i = ==→eq k i h in
      sym (
        ap (insert_entry i new) (sym (p.0))
        ∙ insert_entry-under i new (inorder l) ((k, a) ∷ inorder r) (p.1)
        ∙ ap (λ ys. inorder l ++ ys) (rw same (insert_entry-here i new a (inorder r))))

  put_root-sizes_ok :
      (i : ℕ) (new : A) (t : Tree A) → sizes_ok t ≡ true → sizes_ok (put_root i new t) ≡ true
  unfolding sizes_ok put_root sized node_size
  put_root-sizes_ok i new leaf h = refl
  put_root-sizes_ok i new (node l k a r n) h = ground (arith, h)

  -- Where the keys of a tree grow from left to right and its size fields are right, and malloc
  -- gives a node, `splaytree_insert` returns a tree whose entries are the old ones and the new one
  -- in its place (or the old ones, where the key is there already); keys grow and sizes are right
  -- in it, too.
  pub splaytree_insert_lem :
      (t : Tree A) (i : ℕ) (new : A)
      → ascending (inorder t) ≡ true
      → sizes_ok t ≡ true
      → (t' : Tree A) × (splaytree_insert true t i new ≡ ok t')
        × (inorder t' ≡ insert_entry i new (inorder t))
        × (ascending (inorder t') ≡ true)
        × (sizes_ok t' ≡ true)
  unfolding splaytree_insert
  splaytree_insert_lem t i new g h =
      let (s, run, parts) = splaytree_splay-Parts t i g in
      let hs = splaytree_splay-sizes_ok t i s h run in
      let gi = insert_entry-ascending i new (inorder t) g in
      elim (Bool-cases (has_root i s)) [
        | inl y ↦
            let e = insert_entry-root i new (inorder t) s parts y in
            (s, rw (run, y) refl, e, rw e gi, hs)
        | inr no_root ↦
            let e = inorder-put_root i new (inorder t) s parts no_root in
            (put_root i new s, rw (run, no_root) refl, e, rw e gi, put_root-sizes_ok i new s hs)
      ]

  empty_between : (i : ℕ) (ys : Entries A) → under i ys ≡ true → over i ys ≡ true → ys ≡ []
  empty_between i [] u o = refl
  empty_between i (e ∷ ys) u o = absurd (ground arith)

  inorder_nonempty :
      (l : Tree A) (k : ℕ) (a : A) (r : Tree A) (n : ℕ) → inorder (node l k a r n) ≡ [] → ⊥
  unfolding inorder
  inorder_nonempty l k a r n e =
      omega (arith, ap length e, length-append (inorder l) ((k, a) ∷ inorder r))

  -- The greatest entry becomes the root, which has nothing to its right.
  join_lem :
      (i : ℕ) (l r : Tree A)
      → ascending (inorder l) ≡ true
      → under i (inorder l) ≡ true
      → sizes_ok l ≡ true
      → sizes_ok r ≡ true
      → (x : Tree A) × (join_sides i l r ≡ ok x)
        × (inorder x ≡ inorder l ++ inorder r)
        × (parts_ok x ≡ true)
  unfolding join_sides
  join_lem i leaf r g u hl hr = (r, refl, unfold inorder in refl, sizes_ok-parts_ok r hr)
  join_lem i (node ll lk la lr n) r g u hl hr =
      let l = node ll lk la lr n in
      let (x, run, parts) = splaytree_splay-Parts l i g in
      let hx = splaytree_splay-sizes_ok l i x hl run in
      joined_at x run parts (sizes_ok-parts_ok x hx)
    where
      joined_at :
          (x : Tree A)
          → splaytree_splay (node ll lk la lr n) i ≡ ok x
          → Parts i (inorder (node ll lk la lr n)) x
          → parts_ok x ≡ true
          → (x' : Tree A) × ((splaytree_splay (node ll lk la lr n) i >>= λ y. ok (set_right y r))
              ≡ ok x')
            × (inorder x' ≡ inorder (node ll lk la lr n) ++ inorder r)
            × (parts_ok x' ≡ true)
      joined_at leaf run e h = absurd (inorder_nonempty ll lk la lr n e)
      joined_at (node xl k a xr m) run p h =
          let none_right =
            empty_between i (inorder xr)
              (ground (
                arith,
                all-right (λ d. ltb (d.0) i) (inorder xl) ((k, a) ∷ inorder xr) (rw (p.0) u),
              ))
              (p.2) in
          (
            set_right (node xl k a xr m) r,
            rw run refl,
            unfold set_right inorder in
                (sym (append_assoc (inorder xl) ((k, a) ∷ []) (inorder r))
                  ∙ ap (λ ys. ys ++ inorder r)
                      (ap (λ ys. inorder xl ++ ((k, a) ∷ ys)) (sym none_right) ∙ p.0)),
            unfold set_right in ground (arith, h, hr),
          )

  remove_entry-root :
      (i : ℕ) (xs : Entries A) (l : Tree A) (k : ℕ) (a : A) (r : Tree A) (n : ℕ)
      → Parts i xs (node l k a r n)
      → (k == i) ≡ true
      → remove_entry i xs ≡ inorder l ++ inorder r
  remove_entry-root i xs l k a r n p y =
      let same : k ≡ i = ==→eq k i y in
      ap (remove_entry i) (sym (p.0))
      ∙ remove_entry-under i (inorder l) ((k, a) ∷ inorder r) (p.1)
      ∙ ap (λ ys. inorder l ++ ys) (rw same (remove_entry-here i a (inorder r)))

  remove_entry-absent :
      (i : ℕ) (xs : Entries A) (l : Tree A) (k : ℕ) (a : A) (r : Tree A) (n : ℕ)
      → Parts i xs (node l k a r n)
      → (k == i) ≡ false
      → remove_entry i xs ≡ xs
  remove_entry-absent i xs l k a r n p y =
      ap (remove_entry i) (sym (p.0))
      ∙ remove_entry-under i (inorder l) ((k, a) ∷ inorder r) (p.1)
      ∙ ap (λ ys. inorder l ++ ys) (remove_entry-other i k a (inorder r) y (p.2))
      ∙ p.0

  sizes_ok-sides :
      (l : Tree A) (k : ℕ) (a : A) (r : Tree A) (n : ℕ)
      → sizes_ok (node l k a r n) ≡ true
      → (sizes_ok l ≡ true) × (sizes_ok r ≡ true)
  unfolding sizes_ok
  sizes_ok-sides l k a r n h = (ground arith, ground arith)

  delete_root_lem :
      (i : ℕ) (xs : Entries A) (t : Tree A)
      → Parts i xs t
      → ascending xs ≡ true
      → sizes_ok t ≡ true
      → (t' : Tree A) × (delete_root i (length xs) t ≡ ok t')
        × (inorder t' ≡ remove_entry i xs)
        × (sizes_ok t' ≡ true)
  unfolding delete_root
  delete_root_lem i xs leaf e g h = (leaf, refl, rw e (unfold inorder remove_entry in refl), h)
  delete_root_lem i xs (node l k a r n) p g h = elim (Bool-cases (k == i)) [
    | inl y ↦
        let (hl, hr) = sizes_ok-sides l k a r n h in
        let w = ascending-Around (inorder l) k a (inorder r) (ap ascending (p.0) ∙ g) in
        let (x, run, e, hx) = join_lem i l r w.left_part (p.1) hl hr in
        let size : length xs - 1 ≡ length (inorder x) = omega (
          arith,
          ap length e,
          ap length (p.0),
          length-append (inorder l) ((k, a) ∷ inorder r),
          length-append (inorder l) (inorder r),
        ) in
        (
          set_size x (length xs - 1),
          rw (y, run) refl,
          inorder-set_size x (length xs - 1) ∙ e ∙ sym (remove_entry-root i xs l k a r n p y),
          set_size-sizes_ok x (length xs - 1) hx size,
        )
    | inr other ↦ (
      node l k a r n,
      rw other refl,
      inorder-node l k a r n ∙ p.0 ∙ sym (remove_entry-absent i xs l k a r n p other),
      h,
    )
  ]

  -- Where the keys of a tree grow from left to right and its size fields are right,
  -- `splaytree_delete` returns a tree whose entries are the old ones without the one at the key;
  -- keys grow and sizes are right in it, too.
  pub splaytree_delete_lem :
      (t : Tree A) (i : ℕ)
      → ascending (inorder t) ≡ true
      → sizes_ok t ≡ true
      → (t' : Tree A) × (splaytree_delete t i ≡ ok t')
        × (inorder t' ≡ remove_entry i (inorder t))
        × (ascending (inorder t') ≡ true)
        × (sizes_ok t' ≡ true)
  unfolding splaytree_delete
  splaytree_delete_lem t i g h =
      let (s, run, parts) = splaytree_splay-Parts t i g in
      let hs = splaytree_splay-sizes_ok t i s h run in
      let (x, run2, e, hx) = delete_root_lem i (inorder t) s parts g hs in
      (
        x,
        rw (run, node_size-inorder t h) run2,
        e,
        rw e (remove_entry-ascending i (inorder t) g),
        hx,
      )
