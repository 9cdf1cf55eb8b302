-- ===== src/Links/Loose.antt =====
-- Entries that are in no list point at themselves, as `list_init` leaves them. Operations on a list
-- leave those entries alone.
use nku_os.Base.{ℕ, ◌≡◌, List, ◌∷◌, ◌++◌, arith, ◌∉◌, has-append, ◌==◌, Bool-cases, inl, inr, subst}
use nku_os.Links.{Links, list_add_before, list_del_init}
use nku_os.Links.Chain.{Ring, last, first, last-mem, Chain-prev, Chain-next_mid}
use nku_os.Links.Ops.{ne_of_mem, first-mem, has-insert}
use nku_os.Links.Rings.{list_del_init-Ring}

abbrev pub Loose : Links → ℕ → Type 0
Loose h p = (h.next p ≡ p) × (h.prev p ≡ p)

module _ (h : Links) (hd q : ℕ) (xs ys : List ℕ) where
  pub Loose-add_before :
      (e : ℕ)
      → Ring h hd (xs ++ ys)
      → q ∉ (hd ∷ xs ++ e ∷ ys)
      → Loose h q
      → Loose (list_add_before (first ys hd) e h) q
  unfolding list_add_before
  Loose-add_before e r out l =
      let prev = Chain-prev h hd xs ys hd r.chain in
      let back : q ∉ (hd ∷ xs) = ground (arith, has-append q xs (e ∷ ys)) in
      let front : q ∉ (hd ∷ ys) = ground (arith, has-append q xs (e ∷ ys)) in
      ground (
        arith,
        prev,
        has-append q xs (e ∷ ys),
        ne_of_mem q (last hd xs) (hd ∷ xs) back (last-mem hd xs),
        ne_of_mem q (first ys hd) (hd ∷ ys) front (first-mem ys hd),
      )

  Loose-del_other :
      (e : ℕ)
      → Ring h hd (xs ++ e ∷ ys)
      → q ∉ (hd ∷ xs ++ e ∷ ys)
      → Loose h q
      → Loose (list_del_init e h) q
  unfolding list_del_init
  Loose-del_other e r out l =
      let prev = Chain-prev h hd xs (e ∷ ys) hd r.chain in
      let next = Chain-next_mid h hd xs e ys hd r.chain in
      let back : q ∉ (hd ∷ xs) = ground (arith, has-append q xs (e ∷ ys)) in
      let front : q ∉ (hd ∷ ys) = ground (arith, has-append q xs (e ∷ ys)) in
      ground (
        arith,
        prev,
        next,
        has-append q xs (e ∷ ys),
        ne_of_mem q (last hd xs) (hd ∷ xs) back (last-mem hd xs),
        ne_of_mem q (first ys hd) (hd ∷ ys) front (first-mem ys hd),
      )

  -- The deleted entry joins the loose ones.
  pub Loose-del_init :
      (e : ℕ)
      → Ring h hd (xs ++ e ∷ ys)
      → q ∉ (hd ∷ xs ++ ys)
      → (q ∉ (hd ∷ xs ++ e ∷ ys) → Loose h q)
      → Loose (list_del_init e h) q
  Loose-del_init e r out l = elim (Bool-cases (q == e)) [
    | inl same ↦
        let eq : e ≡ q = ground arith in
        subst (λ z. Loose (list_del_init e h) z) eq (list_del_init-Ring e xs ys r).1.chain
    | inr other ↦
        let o : q ∉ (hd ∷ xs ++ e ∷ ys) = ground (arith, has-insert q e xs ys) in
        Loose-del_other e r o (l o)
  ]
