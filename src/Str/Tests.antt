-- ===== src/Str/Tests.antt =====
-- The theorems on string.c at "ab" at 10, "" at 30, "-5" at 40 and "17" at 50, in a memory of zeros.
use nku_os.Base.{
  ℕ, ◌+◌, ◌<◌, ◌≡◌, ◌↔◌, ◌⊎◌, refl, List, [], ◌∷◌, arith, ◌==◌, if◌then◌else◌, some, inr, ltb, leb,
  ◌&&◌,
}
use nku_os.Str.{strlen, strcat, strcmp, strchr, memmove, memcpy, memset, pos}
use nku_os.Str.Move.{moved, memmove_lem, memcpy_lem, memset_lem}
use nku_os.Str.Strings.{IsString, strlen_lem, strcat_lem}
use nku_os.Str.Compare.{order, strcmp_lem, place, strchr_lem}
use nku_os.Str.Number.{digit, Decimal, strtol, strtol_lem}

abbrev memory : ℕ → ℕ
memory a =
    if a == 52
    then 97
    else if a == 10
    then 97
    else if a == 11
    then 98
    else if a == 40
    then 45
    else if a == 41
    then 53
    else if a == 50
    then 49
    else if a == 51
    then 55
    else 0

ab-IsString : IsString memory 10 (97 ∷ 98 ∷ [])
ab-IsString = (refl, (ground arith), (refl, (ground arith), refl))

minus_five-IsString : IsString memory 40 (45 ∷ 53 ∷ [])
minus_five-IsString = (refl, (ground arith), (refl, (ground arith), refl))

memmove_lem_example : memmove 11 10 2 memory 12 ≡ moved 11 10 2 memory 12
memmove_lem_example = memmove_lem 11 10 2 memory 12

memcpy_lem_example : memcpy 60 40 2 memory 61 ≡ moved 60 40 2 memory 61
memcpy_lem_example = memcpy_lem 60 40 2 memory 61 (inr (omega arith))

memset_lem_example :
    memset 10 7 2 memory 11 ≡ (if leb 10 11 && ltb 11 (10 + 2) then 7 else memory 11)
memset_lem_example = memset_lem 10 7 2 memory 11

strlen_lem_example : strlen 3 10 memory ≡ some 2
strlen_lem_example = strlen_lem 3 10 memory (97 ∷ 98 ∷ []) ab-IsString (omega arith)

strcat_lem_example :
    (m' : ℕ → ℕ) × (strcat 3 10 40 memory ≡ some m')
    × IsString m' 10 (97 ∷ 98 ∷ 45 ∷ 53 ∷ [])
    × ((a : ℕ) → (a < 10) ⊎ (10 + 2 + 2 < a) → m' a ≡ memory a)
strcat_lem_example =
    strcat_lem 3 10 40 memory (97 ∷ 98 ∷ []) (45 ∷ 53 ∷ []) ab-IsString minus_five-IsString
      (omega arith) (omega arith) (inr (omega arith))

strcmp_lem_example :
    (strcmp 3 10 40 memory ≡ some (order (97 ∷ 98 ∷ []) (45 ∷ 53 ∷ [])))
    × ((order (97 ∷ 98 ∷ []) (45 ∷ 53 ∷ []) ≡ pos 0)
        ↔ (◌≡◌ {A = List ℕ} (97 ∷ 98 ∷ []) (45 ∷ 53 ∷ [])))
strcmp_lem_example =
    strcmp_lem 3 10 40 memory (97 ∷ 98 ∷ []) (45 ∷ 53 ∷ []) ab-IsString minus_five-IsString
      (omega arith)

strchr_lem_example : strchr 3 10 98 memory ≡ some (place 10 98 (97 ∷ 98 ∷ []))
strchr_lem_example = strchr_lem 3 10 98 memory (97 ∷ 98 ∷ []) ab-IsString (omega arith)

seventeen-Decimal : Decimal memory 50 (1 ∷ 7 ∷ [])
unfolding digit
seventeen-Decimal = (refl, omega arith, (refl, omega arith, inr (10, refl, omega arith)))

strtol_lem_example : strtol 3 50 10 memory ≡ some (52, pos 17)
strtol_lem_example = strtol_lem 3 50 memory 1 (7 ∷ []) seventeen-Decimal (omega arith) (omega arith)
