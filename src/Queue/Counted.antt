-- ===== src/Queue/Counted.antt =====
-- How often an item is in the lists of common/system/queue_enhance.go.
use walletus.Base.{
  ℕ, suc, List, [], ◌∷◌, ◌++◌, true, false, if◌then◌else◌, reject, Comparable, ◌==◌, ◌≡◌, refl, sym,
  ap, ◌∙◌, ◌+◌, ◌-◌, arith, Bool-cases, inl, inr,
}
use walletus.Queue.Locked.{is_locked}

module _ {T : Type 0} ⦃c : Comparable T⦄ where
  -- How often an item is in a list.
  abbrev pub count : T → List T → ℕ
  count x [] = 0
  count x (y ∷ ys) = if y == x then suc (count x ys) else count x ys

  -- 1 when the item's lock is held, else 0.
  abbrev pub held : T → List T → ℕ
  held x locks = if is_locked x locks then 1 else 0

  pub count-append : (x : T) (xs ys : List T) → count x (xs ++ ys) ≡ count x xs + count x ys
  count-append x [] ys = omega arith
  count-append x (z ∷ zs) ys = ground (arith, count-append x zs ys)

  -- The first occurrence of an item is taken out.
  abbrev pub remove : T → List T → List T
  remove x [] = []
  remove x (y ∷ ys) = let rest = remove x ys in if y == x then ys else y ∷ rest

  pub test_refl : (x : T) → (x == x) ≡ true
  test_refl x = (c.decides x x).1 refl

  test_sym : (x y : T) → (x == y) ≡ true → (y == x) ≡ true
  test_sym x y h = (c.decides y x).1 (sym ((c.decides x y).0 h))

  pub test_ne : (x y z : T) → (z == y) ≡ true → (y == x) ≡ false → (z == x) ≡ false
  test_ne x y z same ne = ap (λ w. w == x) ((c.decides z y).0 same) ∙ ne

  pub count-remove : (x y : T) (ys : List T) → (y == x) ≡ false → count x (remove y ys) ≡ count x ys
  count-remove x y [] ne = refl
  count-remove x y (z ∷ zs) ne = elim (Bool-cases (z == y)) [
    | inl same ↦ ground (arith, same, test_ne x y z same ne)
    | inr other ↦ ground (arith, other, count-remove x y zs ne)
  ]

  pub count-remove_self : (x : T) (ys : List T) → count x (remove x ys) ≡ count x ys - 1
  count-remove_self x [] = refl
  count-remove_self x (z ∷ zs) = ground (arith, count-remove_self x zs)

  pub held-reject :
      (x y : T) (ys : List T) → (y == x) ≡ false → held x (reject (λ z. z == y) ys) ≡ held x ys
  held-reject x y [] ne = refl
  held-reject x y (z ∷ zs) ne = elim (Bool-cases (z == y)) [
    | inl same ↦ ground (arith, same, test_ne x y z same ne, held-reject x y zs ne)
    | inr other ↦ ground (arith, other, held-reject x y zs ne)
  ]

  pub held-reject_self : (x : T) (ys : List T) → held x (reject (λ z. z == x) ys) ≡ 0
  held-reject_self x [] = refl
  held-reject_self x (z ∷ zs) = ground (arith, held-reject_self x zs)
