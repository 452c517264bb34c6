-- ===== src/Store/Order.antt =====
-- `List` of libs/core/src/profile_store.cpp gives the profiles by their ids, in whatever order the
-- system enumerates the directory.
use mathlib.Core.List.{Permᴰ}
use hardware_panel.Base.{
  String, true, false, ◌≡◌, ◌≢◌, refl, ap, ap₂, sym, ◌∙◌, subst, List, [], ◌∷◌, str_eq_iff,
  Bool-cases, inl, inr, arith,
}
use hardware_panel.Base.Assoc.{lookup, str_lt}
use hardware_panel.Base.TextOrder.{str_lt_asym, str_lt_trans, str_lt_total}
use hardware_panel.Types.{Profile}
use hardware_panel.Store.{insert_sorted, sort}

-- No two elements have one key.
module _ {A : Type 0} (key : A → String) where
  abbrev pub Misses : String → List A → Type 0
  Misses k [] = Unit {0}
  Misses k (x ∷ xs) = (k ≢ key x) × Misses k xs

  abbrev pub IsDistinct : List A → Type 0
  IsDistinct [] = Unit {0}
  IsDistinct (x ∷ xs) = Misses (key x) xs × IsDistinct xs

  Misses-Permᴰ : (k : String) {xs ys : List A} → Permᴰ xs ys → Misses k xs → Misses k ys
  Misses-Permᴰ k Permᴰ.nil m = m
  Misses-Permᴰ k (Permᴰ.cons e r) m = (subst (λ p. k ≢ key p) e m.0, Misses-Permᴰ k r m.1)
  Misses-Permᴰ k (Permᴰ.swap e f) m =
      (subst (λ p. k ≢ key p) f m.1.0, (subst (λ p. k ≢ key p) e m.0, m.1.1))
  Misses-Permᴰ k (Permᴰ.trans r s) m = Misses-Permᴰ k s (Misses-Permᴰ k r m)

  IsDistinct-Permᴰ : {xs ys : List A} → Permᴰ xs ys → IsDistinct xs → IsDistinct ys
  IsDistinct-Permᴰ Permᴰ.nil d = d
  IsDistinct-Permᴰ (Permᴰ.cons {l₂ = ys} e r) d =
      (subst (λ p. Misses (key p) ys) e (Misses-Permᴰ _ r d.0), IsDistinct-Permᴰ r d.1)
  IsDistinct-Permᴰ (Permᴰ.swap {l = l} e f) d = (
    ((λ q. d.0.0 (ap key e ∙ (sym q ∙ sym (ap key f)))), subst (λ p. Misses (key p) l) f d.1.0),
    (subst (λ p. Misses (key p) l) e d.0.1, d.1.1),
  )
  IsDistinct-Permᴰ (Permᴰ.trans r s) d = IsDistinct-Permᴰ s (IsDistinct-Permᴰ r d)

abbrev pub id_of : Profile → String
id_of p = p.id

-- No profile stands after one with a greater id.
abbrev pub IsAscending : List Profile → Type 0
IsAscending [] = Unit {0}
IsAscending (p ∷ []) = Unit {0}
IsAscending (p ∷ q ∷ ps) = (str_lt q.id p.id ≡ false) × IsAscending (q ∷ ps)

insert_past :
    (p x : Profile) (xs : List Profile)
    → str_lt x.id p.id ≡ true
    → insert_sorted p (x ∷ xs) ≡ x ∷ insert_sorted p xs
unfolding insert_sorted
insert_past p x xs l = rw l refl

insert_before :
    (p x : Profile) (xs : List Profile)
    → str_lt x.id p.id ≡ false
    → insert_sorted p (x ∷ xs) ≡ p ∷ x ∷ xs
unfolding insert_sorted
insert_before p x xs l = rw l refl

insert_sorted-less :
    (p q : Profile) (xs : List Profile)
    → str_lt p.id q.id ≡ true
    → insert_sorted p (insert_sorted q xs) ≡ insert_sorted q (insert_sorted p xs)
unfolding insert_sorted
insert_sorted-less p q [] h = rw (h, str_lt_asym p.id q.id h) refl
insert_sorted-less p q (x ∷ xs) h = elim (Bool-cases (str_lt x.id p.id)) [
  | inl l ↦
      let l' = str_lt_trans x.id p.id q.id l h in
      ap (insert_sorted p) (insert_past q x xs l')
      ∙ (insert_past p x (insert_sorted q xs) l
          ∙ (ap (◌∷◌ x) (insert_sorted-less p q xs h)
              ∙ (sym (insert_past q x (insert_sorted p xs) l')
                  ∙ ap (insert_sorted q) (sym (insert_past p x xs l)))))
  | inr l ↦ elim (Bool-cases (str_lt x.id q.id)) [
    | inl l' ↦
        ap (insert_sorted p) (insert_past q x xs l')
        ∙ (insert_before p x (insert_sorted q xs) l
            ∙ sym (
                ap (insert_sorted q) (insert_before p x xs l)
                ∙ (insert_past q p (x ∷ xs) h ∙ ap (◌∷◌ p) (insert_past q x xs l'))))
    | inr l' ↦
        ap (insert_sorted p) (insert_before q x xs l')
        ∙ (insert_before p q (x ∷ xs) (str_lt_asym p.id q.id h)
            ∙ sym (
                ap (insert_sorted q) (insert_before p x xs l)
                ∙ (insert_past q p (x ∷ xs) h ∙ ap (◌∷◌ p) (insert_before q x xs l'))))
  ]
]

insert_sorted-commute :
    (p q : Profile) (xs : List Profile)
    → p.id ≢ q.id
    → insert_sorted p (insert_sorted q xs) ≡ insert_sorted q (insert_sorted p xs)
insert_sorted-commute p q xs ne = elim (Bool-cases (str_lt p.id q.id)) [
  | inl l ↦ insert_sorted-less p q xs l
  | inr l ↦ elim (Bool-cases (str_lt q.id p.id)) [
    | inl l' ↦ sym (insert_sorted-less q p xs l')
    | inr l' ↦ absurd (ne (str_lt_total p.id q.id l l'))
  ]
]

pub sort-Permᴰ : {xs ys : List Profile} → Permᴰ xs ys → IsDistinct id_of xs → sort xs ≡ sort ys
unfolding sort
sort-Permᴰ Permᴰ.nil d = refl
sort-Permᴰ (Permᴰ.cons e r) d = ap₂ insert_sorted e (sort-Permᴰ r d.1)
sort-Permᴰ (Permᴰ.swap {a = a} {b = b} {l = l} e f) d =
    insert_sorted-commute a b (sort l) d.0.0
    ∙ ap₂ insert_sorted f (ap (λ p. insert_sorted p (sort l)) e)
sort-Permᴰ (Permᴰ.trans r s) d = sort-Permᴰ r d ∙ sort-Permᴰ s (IsDistinct-Permᴰ id_of r d)

insert_sorted-IsAscending :
    (p : Profile) (xs : List Profile) → IsAscending xs → IsAscending (insert_sorted p xs)
unfolding insert_sorted
insert_sorted-IsAscending p [] a = tt
insert_sorted-IsAscending p (x ∷ []) a = elim (Bool-cases (str_lt x.id p.id)) [
  | inl l ↦ rw l (str_lt_asym x.id p.id l, tt)
  | inr l ↦ rw l (l, tt)
]
insert_sorted-IsAscending p (x ∷ y ∷ xs) a = elim (Bool-cases (str_lt x.id p.id)) [
  | inl l ↦
      let rest = insert_sorted-IsAscending p (y ∷ xs) a.1 in
      elim (Bool-cases (str_lt y.id p.id)) [
        | inl m ↦ rw (l, m) (a.0, subst IsAscending (insert_past p y xs m) rest)
        | inr m ↦ rw (l, m) (str_lt_asym x.id p.id l, (m, a.1))
      ]
  | inr l ↦ rw l (l, a)
]

pub sort-IsAscending : (xs : List Profile) → IsAscending (sort xs)
unfolding sort
sort-IsAscending [] = tt
sort-IsAscending (p ∷ ps) = insert_sorted-IsAscending p (sort ps) (sort-IsAscending ps)

abbrev pub name_of : {B : Type 0} → String × B → String
name_of e = e.0

module _ {B : Type 0} where
  pub lookup-Permᴰ :
      {d d' : List (String × B)} (name : String)
      → Permᴰ d d'
      → IsDistinct name_of d
      → lookup name d ≡ lookup name d'
  unfolding lookup
  lookup-Permᴰ name Permᴰ.nil k = refl
  lookup-Permᴰ name (Permᴰ.cons {a = (n, b)} {b = (n', b')} {l₂ = d} e r) k =
      rw (lookup-Permᴰ name r k.1) (ap (λ x. lookup name (x ∷ d)) e)
  lookup-Permᴰ name (Permᴰ.swap {a = a} {b = b} {l = d} e f) k =
      swapped a b d k.0.0 ∙ ap₂ (λ x y. lookup name (x ∷ y ∷ d)) f e
    where
      swapped :
          (a b : String × B) (d : List (String × B))
          → a.0 ≢ b.0
          → lookup name (a ∷ b ∷ d) ≡ lookup name (b ∷ a ∷ d)
      swapped (n, x) (m, y) d ne = ground (arith, str_eq_iff n name, str_eq_iff m name)
  lookup-Permᴰ name (Permᴰ.trans r s) k =
      lookup-Permᴰ name r k ∙ lookup-Permᴰ name s (IsDistinct-Permᴰ name_of r k)
