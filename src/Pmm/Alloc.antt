-- ===== src/Pmm/Alloc.antt =====
-- `default_alloc_pages`: taking a block off the free list keeps the invariant.
use nku_os.Base.{
  u32, ℕ, ◌+◌, ◌-◌, ◌^◌, ◌≤◌, ◌<◌, ◌≡◌, ◌≢◌, true, false, not, ◌&&◌, List, ◌∷◌, ◌++◌, arith, ltb,
  ◌∈◌, ◌∉◌, if◌then◌else◌, lt→ltb, ne→==,
}
use nku_os.Links.{put, list_del, list_add}
use nku_os.Links.Chain.{Ring, Chain-prev, last}
use nku_os.Links.Rings.{list_del-Ring, list_add-Ring}
use nku_os.Links.Ops.{has-insert, ne_of_mem}
use nku_os.Pmm.{Pmm, take_block}
use nku_os.Pmm.Blocks.{
  covered, within, shrunk, Blocks-mid, Blocks-shrink, total-shrink, covered-shrink, put_same,
  put_ne,
}
use nku_os.Pmm.Joins.{Blocks-remove, total-remove, covered-remove}
use nku_os.Pmm.Inv.{IsValid, Marked-frame, Marked-insert, Marked-remove, Blocks-not_mem}

-- What is left of the blocks around the one at `x` when its first `n` pages are taken.
abbrev pub rest_of : (f : ℕ → ℕ) (x n : ℕ) (pre post : List ℕ) → List ℕ
rest_of f x n pre post = if ltb n (f x) then pre ++ (x + n) ∷ post else pre ++ post

-- The allocated state: valid, with exactly the `n` pages from `x` on no longer free.
pub record Took (s : Pmm) (x n : ℕ) (xs : List ℕ) (s' : Pmm) (xs' : List ℕ) : Type 0 where
  pub valid : IsValid s' xs'
  pub fewer : s'.nr_free + n ≡ s.nr_free
  pub free : (p : ℕ) → covered s'.property p xs' ≡ (covered s.property p xs && not (within x n p))
  pub unflagged : s'.is_property x ≡ false

pub mem-ne : (x c : ℕ) (xs : List ℕ) → x ∉ xs → c ∈ xs → c ≢ x
mem-ne x c xs h m = ground (arith, ne_of_mem x c xs h m)

module _ (s : Pmm) (x n : ℕ) (pre post : List ℕ) (v : IsValid s (pre ++ x ∷ post)) (pos : 0 < n)
    (fit : n ≤ s.property x) where
  ne_null : x ≢ 0
  ne_null = omega (arith, Blocks-mid s.property 1 pre x post v.blocks)

  out_of_list : x ∉ (pre ++ post)
  out_of_list = Blocks-not_mem s.property 1 pre x post v.blocks

  property-small : s.property x < 2 ^ 32
  property-small = omega (arith, total-remove s.property x pre post, v.counted, v.small)

  del-Ring : Ring (list_del x s.links) 0 (pre ++ post)
  del-Ring = list_del-Ring x pre post v.ring

  prev-last : s.links.prev x ≡ last 0 pre
  prev-last = Chain-prev s.links 0 pre (x ∷ post) 0 v.ring.chain

  -- The block is larger: its tail goes back.
  abbrev pub split_state : Pmm
  split_state = record s {
    links = list_add (s.links.prev x) (x + n) (list_del x s.links);
    property = shrunk s.property x n;
    is_property = put (put s.is_property (x + n) true) x false;
    nr_free = s.nr_free - n;
  }

  pub take_block-eq-split : n < s.property x → take_block x n s ≡ (x, split_state)
  unfolding take_block
  take_block-eq-split lt =
      let e : u32 (s.property x - n) ≡ s.property x - n = omega (arith, property-small) in
      rw (ne→== x 0 ne_null, lt→ltb n (s.property x) lt, e)

  pub split_state-Took :
      n < s.property x → Took s x n (pre ++ x ∷ post) split_state (pre ++ (x + n) ∷ post)
  split_state-Took lt =
      let bl = Blocks-shrink s.property x n pos lt 1 pre post v.blocks in
      let out = Blocks-not_mem (shrunk s.property x n) 1 pre (x + n) post bl in
      record {
        valid = record {
          ring = rw prev-last (list_add-Ring (x + n) pre post del-Ring (ground arith));
          blocks = bl;
          counted =
              omega (arith, v.counted, total-shrink s.property x n pos lt 1 pre post v.blocks);
          small = omega (arith, v.small);
          marked =
              Marked-frame (put s.is_property (x + n) true) split_state.is_property
                (pre ++ (x + n) ∷ post)
                (λ c m. put_ne (put s.is_property (x + n) true) x false c (
                  mem-ne x c (pre ++ (x + n) ∷ post)
                    (ground (arith, has-insert x (x + n) pre post, out_of_list)) m))
                (Marked-insert (put s.is_property (x + n) true) pre (x + n) post
                  (Marked-frame s.is_property (put s.is_property (x + n) true) (pre ++ post)
                    (λ c m.
                      put_ne s.is_property (x + n) true c (mem-ne (x + n) c (pre ++ post) out m))
                    (Marked-remove s.is_property pre x post v.marked))
                  (put_same s.is_property (x + n) true));
        };
        fewer = omega (arith, v.counted, total-shrink s.property x n pos lt 1 pre post v.blocks);
        free = λ p. covered-shrink s.property x n pos lt 1 pre post p v.blocks;
        unflagged = put_same (put s.is_property (x + n) true) x false;
      }

  -- The block fits exactly.
  abbrev pub whole_state : Pmm
  whole_state = record s {
    links = list_del x s.links;
    is_property = put s.is_property x false;
    nr_free = s.nr_free - n;
  }

  pub take_block-eq-whole : s.property x ≡ n → take_block x n s ≡ (x, whole_state)
  unfolding take_block
  take_block-eq-whole e =
      let f : ltb n (s.property x) ≡ false = ground arith in rw (ne→== x 0 ne_null, f)

  pub whole_state-Took : s.property x ≡ n → Took s x n (pre ++ x ∷ post) whole_state (pre ++ post)
  whole_state-Took e = record {
    valid = record {
      ring = del-Ring;
      blocks = Blocks-remove s.property x 1 pre post v.blocks;
      counted = omega (arith, v.counted, total-remove s.property x pre post);
      small = omega (arith, v.small);
      marked =
          Marked-frame s.is_property (put s.is_property x false) (pre ++ post)
            (λ c m. put_ne s.is_property x false c (mem-ne x c (pre ++ post) out_of_list m))
            (Marked-remove s.is_property pre x post v.marked);
    };
    fewer = omega (arith, v.counted, total-remove s.property x pre post);
    free = λ p. rw (← e) (covered-remove s.property x 1 pre post p v.blocks);
    unflagged = put_same s.is_property x false;
  }
