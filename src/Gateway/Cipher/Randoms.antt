-- ===== src/Gateway/Cipher/Randoms.antt =====
-- module/RandomUtil.cpp: the million random numbers, and the places that they are taken from.
use cpp_framework.Prelude.{
  ℕ, zero, suc, ◌+◌, ◌-◌, ◌/◌, ◌%◌, ◌≤◌, ◌<◌, Bool, List, [], ◌∷◌, get_or, if◌then◌else◌, leb,
  arith,
}
use cpp_framework.Gateway.Cipher.Box.{AreBelow}

abbrev pub random_num : ℕ
random_num = 1000000

-- The static variables `i` and `j` of `getBoxofRandoms`, and `i` of `GetARandom`.
pub record RandomUtil : Type 0 where
  pub i : ℕ
  pub j : ℕ
  pub next : ℕ

abbrev bindex : List ℕ
bindex =
    1 ∷ 1562 ∷ 61 ∷ 49180 ∷ 395 ∷ 504 ∷ 200580 ∷ 247 ∷ 9 ∷ 7553 ∷ 65465 ∷ 24 ∷ 36595 ∷ 21554 ∷ 225
    ∷ 23 ∷ 54 ∷ 256 ∷ 5 ∷ 61 ∷ 265145 ∷ 6 ∷ 215 ∷ 156112 ∷ 265419 ∷ []

-- `i` after the addition: it goes back to a place of the table near the end of the numbers.
unfoldable pub go_back : RandomUtil → RandomUtil
go_back r =
    if leb (random_num - 256) r.i
    then record r { i = get_or bindex r.j 0; j = if leb 25 (suc r.j) then 0 else suc r.j }
    else r

-- `getBoxofRandoms`: the state after it, whose `i` is where the bytes begin.
unfoldable pub get_box_of_randoms : RandomUtil → RandomUtil
get_box_of_randoms r = go_back (record r { i = r.i + 256 / 4 })

-- `GetARandom`: the place of the number, and the state after it.
unfoldable pub get_a_random : RandomUtil → ℕ × RandomUtil
get_a_random r =
    let at = if leb random_num r.next then 0 else r.next in (at, record r { next = suc at })

unfoldable pub is_this_percent_happen : (ℕ → ℕ) → ℕ → RandomUtil → Bool × RandomUtil
is_this_percent_happen random percent r =
    let taken = get_a_random r in (leb (random taken.0 % 1000 + 1) percent, taken.1)

abbrev pub IsWithin : RandomUtil → Type 0
IsWithin r = (r.i < random_num - 256) × (r.j < 25) × (r.next ≤ random_num)

get_or-below : (n : ℕ) (xs : List ℕ) (j : ℕ) → 0 < n → AreBelow n xs → get_or xs j 0 < n
get_or-below n [] j p h = p
get_or-below n (x ∷ xs) zero p h = h.0
get_or-below n (x ∷ xs) (suc j) p h = get_or-below n xs j p h.1

bindex_lt : (j : ℕ) → get_or bindex j 0 < random_num - 256
bindex_lt j = get_or-below (random_num - 256) bindex j (omega arith) (ground arith)

-- The 128 bytes that a session takes and the numbers that are drawn lie within the array, and it is so
-- again after each call.
pub get_box_of_randoms-IsWithin :
    (r : RandomUtil)
    → IsWithin r
    → ((get_box_of_randoms r).i + 128 / 4 ≤ random_num)
      × ((get_a_random r).0 < random_num)
      × IsWithin (get_box_of_randoms r)
      × IsWithin (get_a_random r).1
unfolding get_box_of_randoms go_back get_a_random
get_box_of_randoms-IsWithin r h = ground (arith, bindex_lt r.j)
