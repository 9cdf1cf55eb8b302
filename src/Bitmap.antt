-- ===== src/Bitmap.antt =====
-- The free map lab8/kern/fs/sfs/bitmap.c: one bit for each block of the disk, set if the block is free.
use nku_os.Base.{
  ℕ, zero, suc, ◌+◌, ◌-◌, ◌*◌, ◌/◌, ◌%◌, ◌^◌, Bool, not, ◌&&◌, Option, none, some, ◌==◌, ltb,
  if◌then◌else◌, u32, ◌>>=◌, ◌>>◌, assert,
}
use nku_os.Links.{put}

-- `nbits`, `nwords` and the words of `map`, each of 32 bits.
pub record Bitmap : Type 0 where
  pub nbits : ℕ
  pub nwords : ℕ
  pub map : ℕ → ℕ

-- `word & (1 << offset)`, as a truth value.
abbrev pub bit : (word offset : ℕ) → Bool
bit w o = w / 2 ^ o % 2 == 1

-- `word ^ (1 << offset)`.
abbrev pub flip : (word offset : ℕ) → ℕ
flip w o = if bit w o then w - 2 ^ o else w + 2 ^ o

-- The loop of `bitmap_create` that marks the bits behind `nbits` as used, `left` of them.
unfoldable pub clear_rest : (left overbits word : ℕ) → ℕ
clear_rest zero o w = w
clear_rest (suc n) o w = clear_rest n (o + 1) (flip w o)

-- `bitmap_create` when both calls of `kmalloc` succeed.
unfoldable pub bitmap_create : (nbits : ℕ) → Option Bitmap
unfolding clear_rest
bitmap_create nbits = do
  assert (not (nbits == 0) && ltb nbits (u32 (nbits + 32)))
  let nwords = (nbits + 31) / 32
  let full = 2 ^ 32 - 1
  let ix = nwords - 1
  let overbits = nbits - ix * 32
  (if not (nbits == nwords * 32)
      then assert ((nbits / 32 == ix) && (ltb 0 overbits && ltb overbits 32))
      else some tt)
  some record {
    nbits = nbits;
    nwords = nwords;
    map = λ i.
        if not (nbits == nwords * 32) && (i == ix)
        then clear_rest (32 - overbits) overbits full
        else full;
  }

-- The inner loop of `bitmap_alloc`, `left` offsets being left; `none` is its `assert(0)`.
unfoldable pub bit_scan : (left offset word : ℕ) → Option ℕ
bit_scan zero o w = none
bit_scan (suc n) o w = let rest = bit_scan n (o + 1) w in if bit w o then some o else rest

-- The outer loop, `left` words being left; the index is `none` where the code returns -E_NO_MEM.
unfoldable pub word_scan : (left ix : ℕ) → Bitmap → Option (Option ℕ × Bitmap)
unfolding bit_scan
word_scan zero ix b = some (none, b)
word_scan (suc n) ix b =
    let rest = word_scan n (ix + 1) b in
    let found = do
      o ← bit_scan 32 0 (b.map ix)
      some (some (ix * 32 + o), record b { map = put b.map ix (flip (b.map ix) o) })
    in if not (b.map ix == 0) then found else rest

unfoldable pub bitmap_alloc : Bitmap → Option (Option ℕ × Bitmap)
unfolding word_scan
bitmap_alloc b = word_scan b.nwords 0 b

-- The word and the offset of an index.
unfoldable pub bitmap_translate : (index : ℕ) → Bitmap → Option (ℕ × ℕ)
bitmap_translate index b = do assert (ltb index b.nbits); some (index / 32, index % 32)

unfoldable pub bitmap_test : (index : ℕ) → Bitmap → Option Bool
unfolding bitmap_translate
bitmap_test index b = do (ix, o) ← bitmap_translate index b; some (bit (b.map ix) o)

-- `*word |= mask`.
unfoldable pub bitmap_free : (index : ℕ) → Bitmap → Option Bitmap
unfolding bitmap_translate
bitmap_free index b = do
  (ix, o) ← bitmap_translate index b
  assert (not (bit (b.map ix) o))
  some (record b { map = put b.map ix (if bit (b.map ix) o then b.map ix else b.map ix + 2 ^ o) })
