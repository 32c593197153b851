-- ===== src/Splay/Splits.antt =====
-- The entries around the loop of `splaytree_splay` (src/splaytree.c), round by round.
use lighttpd.Base.{
  ℕ, zero, suc, ◌+◌, ◌<◌, ◌≡◌, refl, sym, ap, ◌∙◌, inl, inr, true, [], ◌∷◌, ◌++◌, append-nil,
  append_assoc, arith, ltb, Bool-cases, all-append,
}
use lighttpd.Memory.{ok}
use lighttpd.Splay.{
  Tree, leaf, node, node_size, Sides, link_right, link_left, assemble, sized, Round, stopped,
  onward, go_left, go_right, left_round, right_round, splay_round, splay_loop, count, no_sides,
  splaytree_splay,
}
use lighttpd.Splay.Order.{
  Entries, under, over, ascending, inorder, before, after, before-link, after-link,
  inorder-close_left, inorder-close_right, over_trans, under_trans, ascending-Around,
}

abbrev IsNode {ℓ} : {A : Type ℓ} → Tree A → Type 0
IsNode leaf = ⊥
IsNode (node l k a r n) = Unit

-- The root parts the entries `xs` at the key `i`.
abbrev pub Parts {ℓ} : {A : Type ℓ} → ℕ → Entries A → Tree A → Type ℓ
Parts i xs leaf = xs ≡ []
Parts i xs (node l k a r n) =
    (inorder l ++ ((k, a) ∷ inorder r) ≡ xs)
    × (under i (inorder l) ≡ true)
    × (over i (inorder r) ≡ true)

module _ {ℓ} {A : Type ℓ} where
  -- The state of the loop: what is linked is on the right side of the key.
  record Descends (i : ℕ) (xs : Entries A) (p : Sides A) (t : Tree A) : Type ℓ where
    is_node : IsNode t
    lows : under i (before p.lefts) ≡ true
    highs : over i (after p.rights) ≡ true
    grows : ascending (inorder t) ≡ true
    total : before p.lefts ++ (inorder t ++ after p.rights) ≡ xs

  abbrev Continues : ℕ → Entries A → ℕ → Round A → Type ℓ
  Continues i xs fuel (stopped t) = IsNode t × Parts i xs t
  Continues i xs fuel (onward p t) = Descends i xs p t × (count t < fuel)

  assemble-Parts :
      (i : ℕ) (xs : Entries A) (p : Sides A) (l : Tree A) (k : ℕ) (a : A) (r : Tree A)
      → under i (before p.lefts) ≡ true
      → over i (after p.rights) ≡ true
      → under i (inorder l) ≡ true
      → over i (inorder r) ≡ true
      → before p.lefts ++ ((inorder l ++ ((k, a) ∷ inorder r)) ++ after p.rights) ≡ xs
      → IsNode (assemble p l k a r) × Parts i xs (assemble p l k a r)
  unfolding assemble
  assemble-Parts i xs p l k a r low high u o e =
      let el = inorder-close_left p.lefts (p.l_size + node_size l) l in
      let er = inorder-close_right p.rights (p.r_size + node_size r) r in
      (
        tt,
        (
          rw (el, er)
              (append_assoc (before p.lefts) (inorder l) ((k, a) ∷ (inorder r ++ after p.rights))
                ∙ ap (λ ys. before p.lefts ++ ys)
                    (sym (append_assoc (inorder l) ((k, a) ∷ inorder r) (after p.rights)))
                ∙ e),
          rw el (all-append _ (before p.lefts) (inorder l) low u),
          rw er (all-append _ (inorder r) (after p.rights) o high),
        ),
      )

  go_left-Continues :
      (fuel i : ℕ) (xs : Entries A) (p : Sides A) (l : Tree A) (k : ℕ) (a : A) (r : Tree A)
      → ltb i k ≡ true
      → under i (before p.lefts) ≡ true
      → over i (after p.rights) ≡ true
      → ascending (inorder l ++ ((k, a) ∷ inorder r)) ≡ true
      → before p.lefts ++ ((inorder l ++ ((k, a) ∷ inorder r)) ++ after p.rights) ≡ xs
      → count l + count r < fuel
      → Continues i xs fuel (go_left p l k a r)
  unfolding go_left link_right
  go_left-Continues fuel i xs p leaf k a r h low high g e f =
      let w = ascending-Around (inorder leaf) k a (inorder r) g in
      assemble-Parts i xs p leaf k a r low high (unfold inorder in refl)
        (over_trans i k (inorder r) (ground (arith, h)) w.upper) e
  go_left-Continues fuel i xs p (node ll lk la lr n) k a r h low high g e f =
      let l = node ll lk la lr n in
      let w = ascending-Around (inorder l) k a (inorder r) g in
      let link = after-link p.rights r k a in
      (
        record {
          is_node = tt;
          lows = low;
          highs = rw link (
              ground (
                arith,
                all-append _ (inorder r) (after p.rights)
                    (over_trans i k (inorder r) (ground arith) w.upper) high,
              ));
          grows = w.left_part;
          total = rw link (
              ap (λ ys. before p.lefts ++ ys)
                (sym (append_assoc (inorder l) ((k, a) ∷ inorder r) (after p.rights)))
              ∙ e);
        },
        omega arith,
      )

  go_right-Continues :
      (fuel i : ℕ) (xs : Entries A) (p : Sides A) (l : Tree A) (k : ℕ) (a : A) (r : Tree A)
      → ltb k i ≡ true
      → under i (before p.lefts) ≡ true
      → over i (after p.rights) ≡ true
      → ascending (inorder l ++ ((k, a) ∷ inorder r)) ≡ true
      → before p.lefts ++ ((inorder l ++ ((k, a) ∷ inorder r)) ++ after p.rights) ≡ xs
      → count l + count r < fuel
      → Continues i xs fuel (go_right p l k a r)
  unfolding go_right link_left
  go_right-Continues fuel i xs p l k a leaf h low high g e f =
      let w = ascending-Around (inorder l) k a (inorder leaf) g in
      assemble-Parts i xs p l k a leaf low high
        (under_trans i k (inorder l) (ground (arith, h)) w.lower) (unfold inorder in refl) e
  go_right-Continues fuel i xs p l k a (node rl rk ra rr n) h low high g e f =
      let r = node rl rk ra rr n in
      let w = ascending-Around (inorder l) k a (inorder r) g in
      let link = before-link p.lefts l k a in
      let u = under_trans i k (inorder l) (ground (arith, h)) w.lower in
      (
        record {
          is_node = tt;
          lows = rw link (
              all-append _ (before p.lefts) (inorder l ++ ((k, a) ∷ [])) low
                (all-append _ (inorder l) ((k, a) ∷ []) u (ground (arith, h))));
          highs = high;
          grows = w.right_part;
          total = rw link (
              append_assoc (before p.lefts) (inorder l ++ ((k, a) ∷ []))
                (inorder r ++ after p.rights)
              ∙ ap (λ ys. before p.lefts ++ ys)
                  (append_assoc (inorder l) ((k, a) ∷ []) (inorder r ++ after p.rights)
                    ∙ sym (append_assoc (inorder l) ((k, a) ∷ inorder r) (after p.rights)))
              ∙ e);
        },
        omega arith,
      )

  turn_right-Continues :
      (fuel i : ℕ) (xs : Entries A) (p : Sides A) (ll : Tree A) (lk : ℕ) (la : A) (lr : Tree A)
      (n k : ℕ) (a : A) (r : Tree A)
      → ltb i lk ≡ true
      → under i (before p.lefts) ≡ true
      → over i (after p.rights) ≡ true
      → ascending (inorder (node ll lk la lr n) ++ ((k, a) ∷ inorder r)) ≡ true
      → before p.lefts ++ ((inorder (node ll lk la lr n) ++ ((k, a) ∷ inorder r)) ++ after p.rights)
        ≡ xs
      → count (node ll lk la lr n) + count r < fuel
      → Continues i xs fuel (go_left p ll lk la (sized lr k a r))
  unfolding inorder sized count
  turn_right-Continues fuel i xs p ll lk la lr n k a r y low high g e f =
      let turn = append_assoc (inorder ll) ((lk, la) ∷ inorder lr) ((k, a) ∷ inorder r) in
      go_left-Continues fuel i xs p ll lk la (sized lr k a r) y low high
        (ap ascending (sym turn) ∙ g)
        (ap (λ ys. before p.lefts ++ (ys ++ after p.rights)) (sym turn) ∙ e) (omega arith)

  turn_left-Continues :
      (fuel i : ℕ) (xs : Entries A) (p : Sides A) (l : Tree A) (k : ℕ) (a : A) (rl : Tree A)
      (rk : ℕ) (ra : A) (rr : Tree A) (n : ℕ)
      → ltb rk i ≡ true
      → under i (before p.lefts) ≡ true
      → over i (after p.rights) ≡ true
      → ascending (inorder l ++ ((k, a) ∷ inorder (node rl rk ra rr n))) ≡ true
      → before p.lefts ++ ((inorder l ++ ((k, a) ∷ inorder (node rl rk ra rr n))) ++ after p.rights)
        ≡ xs
      → count l + count (node rl rk ra rr n) < fuel
      → Continues i xs fuel (go_right p (sized l k a rl) rk ra rr)
  unfolding inorder sized count
  turn_left-Continues fuel i xs p l k a rl rk ra rr n y low high g e f =
      let turn = append_assoc (inorder l) ((k, a) ∷ inorder rl) ((rk, ra) ∷ inorder rr) in
      go_right-Continues fuel i xs p (sized l k a rl) rk ra rr y low high (ap ascending turn ∙ g)
        (ap (λ ys. before p.lefts ++ (ys ++ after p.rights)) turn ∙ e) (omega arith)

  left_round-Continues :
      (fuel i : ℕ) (xs : Entries A) (p : Sides A) (l : Tree A) (k : ℕ) (a : A) (r : Tree A)
      → ltb i k ≡ true
      → under i (before p.lefts) ≡ true
      → over i (after p.rights) ≡ true
      → ascending (inorder l ++ ((k, a) ∷ inorder r)) ≡ true
      → before p.lefts ++ ((inorder l ++ ((k, a) ∷ inorder r)) ++ after p.rights) ≡ xs
      → count l + count r < fuel
      → Continues i xs fuel (left_round i p l k a r)
  unfolding left_round
  left_round-Continues fuel i xs p leaf k a r h low high g e f =
      unfold go_left in go_left-Continues fuel i xs p leaf k a r h low high g e f
  left_round-Continues fuel i xs p (node ll lk la lr n) k a r h low high g e f =
      elim (Bool-cases (ltb i lk)) [
        | inl y ↦ rw y (turn_right-Continues fuel i xs p ll lk la lr n k a r y low high g e f)
        | inr back ↦
            rw back (go_left-Continues fuel i xs p (node ll lk la lr n) k a r h low high g e f)
      ]

  right_round-Continues :
      (fuel i : ℕ) (xs : Entries A) (p : Sides A) (l : Tree A) (k : ℕ) (a : A) (r : Tree A)
      → ltb k i ≡ true
      → under i (before p.lefts) ≡ true
      → over i (after p.rights) ≡ true
      → ascending (inorder l ++ ((k, a) ∷ inorder r)) ≡ true
      → before p.lefts ++ ((inorder l ++ ((k, a) ∷ inorder r)) ++ after p.rights) ≡ xs
      → count l + count r < fuel
      → Continues i xs fuel (right_round i p l k a r)
  unfolding right_round
  right_round-Continues fuel i xs p l k a leaf h low high g e f =
      unfold go_right in go_right-Continues fuel i xs p l k a leaf h low high g e f
  right_round-Continues fuel i xs p l k a (node rl rk ra rr n) h low high g e f =
      elim (Bool-cases (ltb rk i)) [
        | inl y ↦ rw y (turn_left-Continues fuel i xs p l k a rl rk ra rr n y low high g e f)
        | inr back ↦
            rw back (go_right-Continues fuel i xs p l k a (node rl rk ra rr n) h low high g e f)
      ]

  splay_round-Continues :
      (fuel i : ℕ) (xs : Entries A) (p : Sides A) (t : Tree A)
      → Descends i xs p t
      → count t < suc fuel
      → Continues i xs fuel (splay_round i p t)
  unfolding splay_round count inorder
  splay_round-Continues fuel i xs p leaf d f = absurd d.is_node
  splay_round-Continues fuel i xs p (node l k a r n) d f = elim (Bool-cases (ltb i k)) [
    | inl y ↦
        rw y
          (left_round-Continues fuel i xs p l k a r y d.lows d.highs d.grows d.total (omega arith))
    | inr back ↦ rw back (elim (Bool-cases (ltb k i)) [
      | inl y ↦
          rw y (
            right_round-Continues fuel i xs p l k a r y d.lows d.highs d.grows d.total
              (omega arith))
      | inr same ↦ rw same (
          let w = ascending-Around (inorder l) k a (inorder r) d.grows in
          assemble-Parts i xs p l k a r d.lows d.highs (under_trans i k (inorder l) back w.lower)
            (over_trans i k (inorder r) same w.upper) d.total)
    ])
  ]

  splay_loop-Parts :
      (fuel i : ℕ) (xs : Entries A) (p : Sides A) (t : Tree A)
      → Descends i xs p t
      → count t < suc fuel
      → (t' : Tree A) × (splay_loop fuel i p t ≡ ok t') × IsNode t' × Parts i xs t'
  unfolding splay_loop count
  splay_loop-Parts fuel i xs p leaf d f = absurd d.is_node
  splay_loop-Parts zero i xs p (node l k a r n) d f = absurd (omega arith)
  splay_loop-Parts (suc fuel) i xs p (node l k a r n) d f =
      after_round (splay_round i p (node l k a r n))
        (splay_round-Continues (suc fuel) i xs p (node l k a r n) d f)
        (λ q u d' f'. splay_loop-Parts fuel i xs q u d' f')
    where
      after_round :
          (w : Round A)
          → Continues i xs (suc fuel) w
          → ((q : Sides A) (u : Tree A)
              → Descends i xs q u
              → count u < suc fuel
              → (t' : Tree A) × (splay_loop fuel i q u ≡ ok t') × IsNode t' × Parts i xs t')
          → (t' : Tree A) × ((elim w [ stopped u ↦ ok u | onward q u ↦ splay_loop fuel i q u ])
              ≡ ok t')
            × IsNode t'
            × Parts i xs t'
      after_round (stopped t) c again = (t, refl, c.0, c.1)
      after_round (onward q t) c again = again q t (c.0) (c.1)

  -- Where the keys of a tree grow from left to right, `splaytree_splay` returns a tree with the
  -- same entries in the same order, with smaller keys only to the left of its root and greater
  -- keys only to the right.
  pub splaytree_splay-Parts :
      (t : Tree A) (i : ℕ)
      → ascending (inorder t) ≡ true
      → (t' : Tree A) × (splaytree_splay t i ≡ ok t') × Parts i (inorder t) t'
  unfolding splaytree_splay
  splaytree_splay-Parts leaf i g = (leaf, refl, unfold inorder in refl)
  splaytree_splay-Parts (node l k a r n) i g =
      let t = node l k a r n in
      let (t', run, is_node, parts) =
        splay_loop-Parts (count t) i (inorder t) no_sides t
          (record {
            is_node = tt;
            lows = unfold before in refl;
            highs = unfold after in refl;
            grows = g;
            total = unfold before after in append-nil (inorder t);
          })
          (omega arith) in
      (t', run, parts)
