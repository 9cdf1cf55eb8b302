-- ===== src/Links/Rings.antt =====
-- list.h keeps its promise: each operation on a circular list is the operation on its sequence.
use nku_os.Base.{ℕ, ◌≡◌, List, [], ◌∷◌, ◌++◌, arith, ◌∉◌, ◌∈◌, true, refl, ◌↔◌}
use nku_os.Links.{
  Links, insert_between, list_init, list_add, list_add_before, list_del, list_del_init, list_empty,
}
use nku_os.Links.Chain.{last, first, Ring, Chain-next, Chain-prev, Chain-next_mid, Chain-frame}
use nku_os.Links.Ops.{insert-Chain, unlink-Chain, has-insert, NoDup-insert, NoDup-delete, ne_of_mem}

module _ {h : Links} {hd : ℕ} where
  insert-Ring :
      (e : ℕ) (xs ys : List ℕ)
      → Ring h hd (xs ++ ys)
      → e ∉ (hd ∷ xs ++ ys)
      → Ring (insert_between e (last hd xs) (first ys hd) h) hd (xs ++ e ∷ ys)
  insert-Ring e xs ys r ne = record {
    chain =
        insert-Chain h e hd xs ys hd r.chain r.apart r.apart r.nodup (ground arith) (ground arith)
          (ground arith);
    apart = ground (arith, has-insert hd e xs ys, r.apart);
    nodup = NoDup-insert e xs ys r.nodup (ground arith);
  }

  -- Adding `e`, which is not in the list, before an entry, or before the sentinel, puts it there in
  -- the sequence.
  pub list_add_before-Ring :
      (e : ℕ) (xs ys : List ℕ)
      → Ring h hd (xs ++ ys)
      → e ∉ (hd ∷ xs ++ ys)
      → Ring (list_add_before (first ys hd) e h) hd (xs ++ e ∷ ys)
  unfolding list_add_before
  list_add_before-Ring e xs ys r ne =
      rw (Chain-prev h hd xs ys hd r.chain) (insert-Ring e xs ys r ne)

  -- Adding `e`, which is not in the list, after an entry, or after the sentinel, puts it there in
  -- the sequence.
  pub list_add-Ring :
      (e : ℕ) (xs ys : List ℕ)
      → Ring h hd (xs ++ ys)
      → e ∉ (hd ∷ xs ++ ys)
      → Ring (list_add (last hd xs) e h) hd (xs ++ e ∷ ys)
  unfolding list_add
  list_add-Ring e xs ys r ne = rw (Chain-next h hd xs ys hd r.chain) (insert-Ring e xs ys r ne)

  -- Deleting an entry takes it out of the sequence.
  pub list_del-Ring :
      (e : ℕ) (xs ys : List ℕ) → Ring h hd (xs ++ e ∷ ys) → Ring (list_del e h) hd (xs ++ ys)
  unfolding list_del
  list_del-Ring e xs ys r =
      let out = NoDup-delete e xs ys r.nodup in
      record {
        chain =
            rw (Chain-prev h hd xs (e ∷ ys) hd r.chain, Chain-next_mid h hd xs e ys hd r.chain)
              (unlink-Chain h e hd xs ys hd r.chain r.apart r.apart r.nodup);
        apart = ground (arith, has-insert hd e xs ys, r.apart);
        nodup = out.0;
      }

  -- `list_del_init` of an entry takes it out of the sequence, and leaves it as an empty list of its
  -- own.
  pub list_del_init-Ring :
      (e : ℕ) (xs ys : List ℕ)
      → Ring h hd (xs ++ e ∷ ys)
      → Ring (list_del_init e h) hd (xs ++ ys) × Ring (list_del_init e h) e []
  unfolding list_del_init
  list_del_init-Ring e xs ys r = (
    record {
      chain =
          Chain-frame (list_del e h) (list_init e (list_del e h)) hd (xs ++ ys) hd
            (λ c m. ground (arith, ne_of_mem e c (hd ∷ xs ++ ys) (out e r) m))
            (λ c m. ground (arith, ne_of_mem e c (hd ∷ xs ++ ys) (out e r) m))
            (list_del-Ring e xs ys r).chain;
      apart = (list_del-Ring e xs ys r).apart;
      nodup = (list_del-Ring e xs ys r).nodup;
    },
    record { chain = ground arith; apart = refl; nodup = tt },
  )
    where
      out : (e' : ℕ) → Ring h hd (xs ++ e' ∷ ys) → e' ∉ (hd ∷ xs ++ ys)
      out e' r' =
          ground (arith, has-insert hd e' xs ys, r'.apart, (NoDup-delete e' xs ys r'.nodup).1)

  -- On a well-formed list `list_empty` is true of exactly the empty sequence.
  pub list_empty_iff : (xs : List ℕ) → Ring h hd xs → (list_empty hd h ≡ true) ↔ (xs ≡ [])
  unfolding list_empty
  list_empty_iff [] r = (λ p. refl, λ p. ground arith)
  list_empty_iff (x ∷ xs) r = (λ p. ground arith, λ p. cc)

  -- A list survives any operation on links outside it.
  pub Ring-frame :
      (g : Links) (xs : List ℕ)
      → ((c : ℕ) → c ∈ (hd ∷ xs) → (g.next c ≡ h.next c) × (g.prev c ≡ h.prev c))
      → Ring h hd xs
      → Ring g hd xs
  Ring-frame g xs same r = record {
    chain = Chain-frame h g hd xs hd (λ c m. (same c m).0) (λ c m. (same c m).1) r.chain;
    apart = r.apart;
    nodup = r.nodup;
  }

-- `list_init` makes an empty list.
pub list_init-Ring : (h : Links) (hd : ℕ) → Ring (list_init hd h) hd []
unfolding list_init
list_init-Ring h hd = record { chain = ground arith; apart = refl; nodup = tt }
