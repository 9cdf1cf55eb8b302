-- ===== src/Str.antt =====
-- lab8/libs/string.c over a memory of bytes. A `char` is unsigned, addresses do not wrap around, and
-- NULL is 0. The loops over a string run on fuel; those over a count are recursions on it.
pub mod Move
pub mod Strings
pub mod Compare
pub mod Number
mod Tests
use nku_os.Base.{
  ℕ, zero, suc, ◌+◌, ◌-◌, Bool, true, false, not, ◌&&◌, Option, none, some, ◌==◌, ltb, leb,
  if◌then◌else◌, ◌>>=◌, ◌>>◌,
}
use nku_os.Links.{put}

-- An int.
pub data ℤ : Type 0 where
  pos : ℕ → ℤ
  negsuc : ℕ → ℤ

-- `(int)((unsigned char)a - (unsigned char)b)`.
unfoldable pub difference : (a b : ℕ) → ℤ
difference a b = if ltb a b then negsuc (b - a - 1) else pos (a - b)

-- The loop of `strlen`.
unfoldable pub strlen_loop : (fuel s cnt : ℕ) → (ℕ → ℕ) → Option ℕ
strlen_loop zero s cnt m = none
strlen_loop (suc n) s cnt m =
    let rest = strlen_loop n (s + 1) (cnt + 1) m in if not (m s == 0) then rest else some cnt

unfoldable pub strlen : (fuel s : ℕ) → (ℕ → ℕ) → Option ℕ
unfolding strlen_loop
strlen fuel s m = strlen_loop fuel s 0 m

-- The loop of `strnlen`, `left` being `len - cnt`.
unfoldable pub strnlen_loop : (left s cnt : ℕ) → (ℕ → ℕ) → ℕ
strnlen_loop zero s cnt m = cnt
strnlen_loop (suc n) s cnt m =
    let rest = strnlen_loop n (s + 1) (cnt + 1) m in if not (m s == 0) then rest else cnt

unfoldable pub strnlen : (s len : ℕ) → (ℕ → ℕ) → ℕ
unfolding strnlen_loop
strnlen s len m = strnlen_loop len s 0 m

unfoldable pub strcpy : (fuel dst src : ℕ) → (ℕ → ℕ) → Option (ℕ → ℕ)
strcpy zero dst src m = none
strcpy (suc n) dst src m =
    let m' = put m dst (m src) in
    let rest = strcpy n (dst + 1) (src + 1) m' in if not (m src == 0) then rest else some m'

unfoldable pub strncpy : (dst src len : ℕ) → (ℕ → ℕ) → ℕ → ℕ
strncpy dst src zero m = m
strncpy dst src (suc len) m =
    strncpy (dst + 1) (if not (m src == 0) then src + 1 else src) len (put m dst (m src))

unfoldable pub strcat : (fuel dst src : ℕ) → (ℕ → ℕ) → Option (ℕ → ℕ)
unfolding strcpy strlen
strcat fuel dst src m = do len ← strlen fuel dst m; strcpy fuel (dst + len) src m

unfoldable pub strcmp : (fuel s1 s2 : ℕ) → (ℕ → ℕ) → Option ℤ
unfolding difference
strcmp zero s1 s2 m = none
strcmp (suc n) s1 s2 m =
    let rest = strcmp n (s1 + 1) (s2 + 1) m in
    if not (m s1 == 0) && (m s1 == m s2) then rest else some (difference (m s1) (m s2))

unfoldable pub strncmp : (s1 s2 n : ℕ) → (ℕ → ℕ) → ℤ
unfolding difference
strncmp s1 s2 zero m = pos 0
strncmp s1 s2 (suc n) m =
    let rest = strncmp (s1 + 1) (s2 + 1) n m in
    if not (m s1 == 0) && (m s1 == m s2) then rest else difference (m s1) (m s2)

unfoldable pub strchr : (fuel s c : ℕ) → (ℕ → ℕ) → Option ℕ
strchr zero s c m = none
strchr (suc n) s c m =
    let rest = strchr n (s + 1) c m in
    if not (m s == 0) then if m s == c then some s else rest else some 0

unfoldable pub strfind : (fuel s c : ℕ) → (ℕ → ℕ) → Option ℕ
strfind zero s c m = none
strfind (suc n) s c m =
    let rest = strfind n (s + 1) c m in
    if not (m s == 0) then if m s == c then some s else rest else some s

unfoldable pub memset : (s c n : ℕ) → (ℕ → ℕ) → ℕ → ℕ
memset s c zero m = m
memset s c (suc n) m = memset (s + 1) c n (put m s c)

-- `while (n -- > 0) *d ++ = *s ++;`
unfoldable pub copy_up : (d s n : ℕ) → (ℕ → ℕ) → ℕ → ℕ
copy_up d s zero m = m
copy_up d s (suc n) m = copy_up (d + 1) (s + 1) n (put m d (m s))

-- `while (n -- > 0) *-- d = *-- s;`
unfoldable pub copy_down : (d s n : ℕ) → (ℕ → ℕ) → ℕ → ℕ
copy_down d s zero m = m
copy_down d s (suc n) m = copy_down (d - 1) (s - 1) n (put m (d - 1) (m (s - 1)))

unfoldable pub memmove : (dst src n : ℕ) → (ℕ → ℕ) → ℕ → ℕ
unfolding copy_up copy_down
memmove dst src n m =
    if ltb src dst && ltb dst (src + n)
    then copy_down (dst + n) (src + n) n m
    else copy_up dst src n m

unfoldable pub memcpy : (dst src n : ℕ) → (ℕ → ℕ) → ℕ → ℕ
unfolding copy_up
memcpy dst src n m = copy_up dst src n m

unfoldable pub memcmp : (v1 v2 n : ℕ) → (ℕ → ℕ) → ℤ
unfolding difference
memcmp v1 v2 zero m = pos 0
memcmp v1 v2 (suc n) m =
    let rest = memcmp (v1 + 1) (v2 + 1) n m in
    if not (m v1 == m v2) then difference (m v1) (m v2) else rest
