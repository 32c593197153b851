-- ===== src/Splay/Entry.antt =====
-- What the operations of src/splaytree.c do, seen as an ascending list of entries.
use lighttpd.Base.{ℕ, ◌≡◌, refl, true, false, [], ◌∷◌, ◌++◌, arith, ltb, ◌==◌, if◌then◌else◌}
use lighttpd.Splay.Order.{Entries, under, over, ascending, over_trans}

-- An entry that is there already stays.
unfoldable pub insert_entry {ℓ} : {A : Type ℓ} → ℕ → A → Entries A → Entries A
insert_entry i new [] = (i, new) ∷ []
insert_entry i new (e ∷ xs) =
    if ltb (e.0) i
    then e ∷ insert_entry i new xs
    else if (e.0) == i
    then e ∷ xs
    else (i, new) ∷ e ∷ xs

unfoldable pub remove_entry {ℓ} : {A : Type ℓ} → ℕ → Entries A → Entries A
remove_entry i [] = []
remove_entry i (e ∷ xs) = if (e.0) == i then xs else e ∷ remove_entry i xs

module _ {ℓ} {A : Type ℓ} where
  pub insert_entry-under :
      (i : ℕ) (new : A) (xs ys : Entries A)
      → under i xs ≡ true
      → insert_entry i new (xs ++ ys) ≡ xs ++ insert_entry i new ys
  unfolding insert_entry
  insert_entry-under i new [] ys u = refl
  insert_entry-under i new (e ∷ xs) ys u = ground (arith, insert_entry-under i new xs ys)

  pub insert_entry-over :
      (i : ℕ) (new : A) (ys : Entries A) → over i ys ≡ true → insert_entry i new ys ≡ (i, new) ∷ ys
  unfolding insert_entry
  insert_entry-over i new [] o = refl
  insert_entry-over i new (e ∷ ys) o = ground arith

  pub insert_entry-here :
      (i : ℕ) (new a : A) (ys : Entries A) → insert_entry i new ((i, a) ∷ ys) ≡ (i, a) ∷ ys
  unfolding insert_entry
  insert_entry-here i new a ys = ground arith

  pub insert_entry-before :
      (i k : ℕ) (new a : A) (ys : Entries A)
      → ltb i k ≡ true
      → insert_entry i new ((k, a) ∷ ys) ≡ (i, new) ∷ (k, a) ∷ ys
  unfolding insert_entry
  insert_entry-before i k new a ys h = ground (arith, h)

  pub insert_entry-behind :
      (i k : ℕ) (new a : A) (ys : Entries A)
      → ltb k i ≡ true
      → insert_entry i new ((k, a) ∷ ys) ≡ (k, a) ∷ insert_entry i new ys
  unfolding insert_entry
  insert_entry-behind i k new a ys h = ground (arith, h)

  over-insert_entry :
      (k i : ℕ) (new : A) (xs : Entries A)
      → ltb k i ≡ true
      → over k xs ≡ true
      → over k (insert_entry i new xs) ≡ true
  unfolding insert_entry
  over-insert_entry k i new [] h o = ground (arith, h)
  over-insert_entry k i new (e ∷ xs) h o = ground (arith, h, over-insert_entry k i new xs)

  pub insert_entry-ascending :
      (i : ℕ) (new : A) (xs : Entries A)
      → ascending xs ≡ true
      → ascending (insert_entry i new xs) ≡ true
  unfolding insert_entry ascending
  insert_entry-ascending i new [] g = refl
  insert_entry-ascending i new (e ∷ xs) g = ground (
    arith,
    insert_entry-ascending i new xs,
    over-insert_entry (e.0) i new xs,
    over_trans i (e.0) xs,
  )

  pub remove_entry-under :
      (i : ℕ) (xs ys : Entries A)
      → under i xs ≡ true
      → remove_entry i (xs ++ ys) ≡ xs ++ remove_entry i ys
  unfolding remove_entry
  remove_entry-under i [] ys u = refl
  remove_entry-under i (e ∷ xs) ys u = ground (arith, remove_entry-under i xs ys)

  pub remove_entry-over : (i : ℕ) (ys : Entries A) → over i ys ≡ true → remove_entry i ys ≡ ys
  unfolding remove_entry
  remove_entry-over i [] o = refl
  remove_entry-over i (e ∷ ys) o = ground (arith, remove_entry-over i ys)

  pub remove_entry-here : (i : ℕ) (a : A) (ys : Entries A) → remove_entry i ((i, a) ∷ ys) ≡ ys
  unfolding remove_entry
  remove_entry-here i a ys = ground arith

  pub remove_entry-other :
      (i k : ℕ) (a : A) (ys : Entries A)
      → (k == i) ≡ false
      → over i ys ≡ true
      → remove_entry i ((k, a) ∷ ys) ≡ (k, a) ∷ ys
  unfolding remove_entry
  remove_entry-other i k a ys h o = ground (arith, h, remove_entry-over i ys o)

  over-remove_entry :
      (k i : ℕ) (xs : Entries A) → over k xs ≡ true → over k (remove_entry i xs) ≡ true
  unfolding remove_entry
  over-remove_entry k i [] o = refl
  over-remove_entry k i (e ∷ xs) o = ground (arith, over-remove_entry k i xs)

  pub remove_entry-ascending :
      (i : ℕ) (xs : Entries A) → ascending xs ≡ true → ascending (remove_entry i xs) ≡ true
  unfolding remove_entry ascending
  remove_entry-ascending i [] g = refl
  remove_entry-ascending i (e ∷ xs) g =
      ground (arith, remove_entry-ascending i xs, over-remove_entry (e.0) i xs)
