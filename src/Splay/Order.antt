-- ===== src/Splay/Order.antt =====
-- The entries of a splay tree in order (src/splaytree.c), and the parts of an ascending list.
use lighttpd.Base.{
  ℕ, ◌+◌, ◌-◌, ◌≡◌, refl, sym, ap, Bool, true, false, ◌&&◌, List, [], ◌∷◌, ◌++◌, append-nil,
  append_assoc, arith, ltb, all,
}
use lighttpd.Splay.{Tree, leaf, node, node_size, Linked, close_left, close_right}

abbrev pub Entries {ℓ} : Type ℓ → Type ℓ
Entries A = List (ℕ × A)

abbrev pub under {ℓ} : {A : Type ℓ} → ℕ → Entries A → Bool
under i xs = all (λ e. ltb (e.0) i) xs

abbrev pub over {ℓ} : {A : Type ℓ} → ℕ → Entries A → Bool
over i xs = all (λ e. ltb i (e.0)) xs

-- Keys grow, and none stands twice.
unfoldable pub ascending {ℓ} : {A : Type ℓ} → Entries A → Bool
ascending [] = true
ascending (e ∷ xs) = over (e.0) xs && ascending xs

unfoldable pub inorder {ℓ} : {A : Type ℓ} → Tree A → Entries A
inorder leaf = []
inorder (node l k a r n) = inorder l ++ ((k, a) ∷ inorder r)

-- The entries on the two sides
unfoldable pub before {ℓ} : {A : Type ℓ} → List (Linked A) → Entries A
before [] = []
before (y ∷ ys) = inorder y.child ++ ((y.key, y.entry) ∷ before ys)

unfoldable pub after {ℓ} : {A : Type ℓ} → List (Linked A) → Entries A
after [] = []
after (y ∷ ys) = after ys ++ ((y.key, y.entry) ∷ inorder y.child)

module _ {ℓ} {A : Type ℓ} where
  pub inorder-node :
      (l : Tree A) (k : ℕ) (a : A) (r : Tree A) (n : ℕ)
      → inorder (node l k a r n) ≡ inorder l ++ ((k, a) ∷ inorder r)
  unfolding inorder
  inorder-node l k a r n = refl

  pub before-link :
      (ys : List (Linked A)) (l : Tree A) (k : ℕ) (a : A)
      → before (ys ++ (record { child = l; key = k; entry = a } ∷ []))
        ≡ before ys ++ (inorder l ++ ((k, a) ∷ []))
  unfolding before
  before-link [] l k a = refl
  before-link (y ∷ ys) l k a = rw (before-link ys l k a) (
      sym (
        append_assoc (inorder y.child) ((y.key, y.entry) ∷ before ys) (inorder l ++ ((k, a) ∷ []))))

  pub after-link :
      (ys : List (Linked A)) (r : Tree A) (k : ℕ) (a : A)
      → after (ys ++ (record { child = r; key = k; entry = a } ∷ []))
        ≡ (k, a) ∷ (inorder r ++ after ys)
  unfolding after
  after-link [] r k a = rw append-nil refl
  after-link (y ∷ ys) r k a =
      rw (after-link ys r k a)
        (ap (◌∷◌ (k, a)) (append_assoc (inorder r) (after ys) ((y.key, y.entry) ∷ inorder y.child)))

  pub inorder-close_left :
      (ys : List (Linked A)) (n : ℕ) (t : Tree A)
      → inorder (close_left ys n t) ≡ before ys ++ inorder t
  unfolding inorder before close_left
  inorder-close_left [] n t = refl
  inorder-close_left (y ∷ ys) n t =
      rw (inorder-close_left ys (n - (1 + node_size y.child)) t)
        (sym (append_assoc (inorder y.child) ((y.key, y.entry) ∷ before ys) (inorder t)))

  pub inorder-close_right :
      (ys : List (Linked A)) (n : ℕ) (t : Tree A)
      → inorder (close_right ys n t) ≡ inorder t ++ after ys
  unfolding inorder after close_right
  inorder-close_right [] n t = sym (append-nil (inorder t))
  inorder-close_right (y ∷ ys) n t =
      rw (inorder-close_right ys (n - (1 + node_size y.child)) t)
        (append_assoc (inorder t) (after ys) ((y.key, y.entry) ∷ inorder y.child))

  pub over_trans :
      (i k : ℕ) (xs : Entries A) → ltb k i ≡ false → over k xs ≡ true → over i xs ≡ true
  over_trans i k [] h q = refl
  over_trans i k (e ∷ xs) h q = ground (arith, over_trans i k xs)

  pub under_trans :
      (i k : ℕ) (xs : Entries A) → ltb i k ≡ false → under k xs ≡ true → under i xs ≡ true
  under_trans i k [] h q = refl
  under_trans i k (e ∷ xs) h q = ground (arith, under_trans i k xs)

  pub all-left : (p : ℕ × A → Bool) (xs ys : Entries A) → all p (xs ++ ys) ≡ true → all p xs ≡ true
  all-left p [] ys q = refl
  all-left p (x ∷ xs) ys q = ground (arith, all-left p xs ys)

  pub all-right : (p : ℕ × A → Bool) (xs ys : Entries A) → all p (xs ++ ys) ≡ true → all p ys ≡ true
  all-right p [] ys q = q
  all-right p (x ∷ xs) ys q = ground (arith, all-right p xs ys)

  -- What stands around an entry of an ascending list
  pub record Around (k : ℕ) (xs ys : Entries A) : Type 0 where
    pub lower : under k xs ≡ true
    pub upper : over k ys ≡ true
    pub left_part : ascending xs ≡ true
    pub right_part : ascending ys ≡ true

  pub ascending-Around :
      (xs : Entries A) (k : ℕ) (a : A) (ys : Entries A)
      → ascending (xs ++ ((k, a) ∷ ys)) ≡ true
      → Around k xs ys
  unfolding ascending
  ascending-Around [] k a ys q = record {
    lower = refl;
    upper = ground arith;
    left_part = refl;
    right_part = ground arith;
  }
  ascending-Around (e ∷ xs) k a ys q =
      let w = ascending-Around xs k a ys (ground arith) in
      let o : over (e.0) (xs ++ ((k, a) ∷ ys)) ≡ true = ground arith in
      let o' = all-right (λ d. ltb (e.0) (d.0)) xs ((k, a) ∷ ys) o in
      let o'' = all-left (λ d. ltb (e.0) (d.0)) xs ((k, a) ∷ ys) o in
      record {
        lower = ground (arith, o', w.lower);
        upper = w.upper;
        left_part = ground (arith, o'', w.left_part);
        right_part = w.right_part;
      }
