-- ===== src/Fanout/Phases/Books.antt =====
-- The books of a step: what is owed to a subscriber, what is paid, and what it has.
use mathlib.Core.List.{Sublistᴰ}
use mathlib.Core.List.Sublistᴰ
use hardware_panel.Base.{
  ℕ, zero, suc, ◌≤◌, ◌≡◌, refl, sym, ◌∙◌, ap, Bool, true, false, List, [], ◌∷◌, ◌++◌, Option, some,
  arith, ◌==◌, ==_iff, Bool-cases, inl, inr, get_elem?, set, append_assoc, get_elem?-set_self,
  get_elem?-set_ne,
}
use hardware_panel.Fanout.Delivery.{count, get_elem?_lt}
use hardware_panel.Fanout.Stream.{Sublistᴰ_of_eq}
use hardware_panel.Fanout.Phases.{Call}
use hardware_panel.Fanout.Phases.Words.{
  keep, keep-append, keep-Sublistᴰ, copies, owed, owed_by, begun,
}
use hardware_panel.Fanout.Phases.Steps.{round_brings}

module _ {A : Type 0} where
  pub copies-Sublistᴰ : (n : ℕ) (v : A) → n ≤ 1 → Sublistᴰ (copies n v) (v ∷ [])
  copies-Sublistᴰ zero v h = Sublistᴰ.cons Sublistᴰ.slnil
  copies-Sublistᴰ (suc zero) v h = Sublistᴰ.refl (v ∷ [])
  copies-Sublistᴰ (suc (suc n)) v h = absurd (omega arith)

  -- A round pays one copy of what is owed, to the subscriber that it is about.
  pub round-owed :
      (i j : ℕ) (js : List ℕ) (v : A)
      → round_brings i v (j ∷ js) ++ copies (count i js) v ≡ copies (count i (j ∷ js)) v
  round-owed i j js v = elim (Bool-cases (i == j)) [ inl e ↦ rw e refl | inr e ↦ rw e refl ]

module _ {A : Type 0} (p : A → Bool) where
  -- The books of one step: what is received and what waits, and what is owed, on both sides of it.
  pub books_of_step :
      (got had out has new due due' begun said : List A)
      → Sublistᴰ (out ++ has) (had ++ new)
      → Sublistᴰ (keep p new ++ due') (due ++ keep p begun)
      → Sublistᴰ (keep p (got ++ had) ++ due) (keep p said)
      → Sublistᴰ (keep p (got ++ out ++ has) ++ due') (keep p (said ++ begun))
  books_of_step got had out has new due due' begun said moved paid h =
      let left : keep p (got ++ (had ++ new)) ++ due'
          ≡ keep p (got ++ had) ++ (keep p new ++ due') =
        ap (λ l. keep p l ++ due') (sym (append_assoc got had new))
        ∙ (ap (λ l. l ++ due') (keep-append p (got ++ had) new)
            ∙ append_assoc (keep p (got ++ had)) (keep p new) due') in
      let right : keep p (got ++ had) ++ (due ++ keep p begun)
          ≡ keep p (got ++ had) ++ due ++ keep p begun =
        sym (append_assoc (keep p (got ++ had)) due (keep p begun)) in
      rw (append_assoc got out has, keep-append p said begun)
        (Sublistᴰ.trans
          (Sublistᴰ.append (keep-Sublistᴰ p (Sublistᴰ.append (Sublistᴰ.refl got) moved))
            (Sublistᴰ.refl due'))
          (Sublistᴰ.trans (Sublistᴰ_of_eq left) (
            Sublistᴰ.trans (Sublistᴰ.append (Sublistᴰ.refl (keep p (got ++ had))) paid) (
              Sublistᴰ.trans (Sublistᴰ_of_eq right)
                (Sublistᴰ.append h (Sublistᴰ.refl (keep p begun)))))))

module _ {A : Type 0} (i : ℕ) (ts : List (Option (Call A))) (t u : ℕ) where
  pub owed_by-set_self :
      {o : Option (Call A)} (o' : Option (Call A))
      → (u == t) ≡ true
      → get_elem? ts u ≡ some o
      → owed_by i (get_elem? (set ts u o') t) ≡ owed i o'
  owed_by-set_self {o} o' same e =
      let q : t ≡ u = sym ((==_iff u t).0 same) in
      ap (owed_by i)
        (ap (get_elem? (set ts u o')) q ∙ get_elem?-set_self ts u o' (get_elem?_lt ts u o e))

  pub owed_by-set_ne :
      (o' : Option (Call A))
      → (u == t) ≡ false
      → owed_by i (get_elem? (set ts u o') t) ≡ owed_by i (get_elem? ts t)
  owed_by-set_ne o' other = ap (owed_by i) (get_elem?-set_ne ts o' (λ q. ground arith))
