-- ===== src/Login/Heroes/Dealt.antt =====
-- gateway_server/service/_login_worker_logicworker.cpp: every attribute of a hero is dealt one value.
use cpp_framework.Prelude.{
  ℕ, zero, suc, ◌%◌, ◌<◌, ◌≡◌, refl, Bool, true, false, ◌&&◌, ◌||◌, List, [], ◌∷◌, ◌==◌, nat_key,
  length, arith,
}
use cpp_framework.Router.Fault.{Result, ok, fault}
use cpp_framework.Router.Returns.{Returns, returns}
use cpp_framework.Login.Heroes.{all_free, places, deal, get_hero_att}

abbrev pub contains : ℕ → List ℕ → Bool
contains k [] = false
contains k (x ∷ xs) = (x == k) || contains k xs

unfoldable pub below : ℕ → (ℕ → Bool) → Bool
below zero p = true
below (suc n) p = p n && below n p

below-Sound : (n : ℕ) (p : ℕ → Bool) (x : ℕ) → below n p ≡ true → x < n → p x ≡ true
unfolding below
below-Sound zero p x h lt = absurd (omega arith)
below-Sound (suc n) p x h lt = ground (arith, below-Sound n p x)

is_dealt : Result (List ℕ) → Bool
unfolding below
is_dealt (fault e) = false
is_dealt (ok dealt) = (length dealt == 5) && below 5 (λ k. contains k dealt)

dealt_all :
    below 5 (λ a.
      below 4
        (λ b. below 3 (λ c. below 2 (λ d. is_dealt (deal (a ∷ b ∷ c ∷ d ∷ 0 ∷ []) all_free)))))
    ≡ true
unfolding below is_dealt deal
dealt_all = refl

is_dealt-Returns :
    (r : Result (List ℕ))
    → is_dealt r ≡ true
    → Returns (λ dealt. (length dealt ≡ 5) × ((k : ℕ) → k < 5 → contains k dealt ≡ true)) r
unfolding is_dealt
is_dealt-Returns (fault e) h = cc
is_dealt-Returns (ok dealt) h =
    returns
      (ground (arith, h), λ k l. below-Sound 5 (λ k. contains k dealt) k (ground (arith, h)) l)

below_is_dealt :
    (a b c d : ℕ)
    → a < 5
    → b < 4
    → c < 3
    → d < 2
    → is_dealt (deal (a ∷ b ∷ c ∷ d ∷ 0 ∷ []) all_free) ≡ true
below_is_dealt a b c d ha hb hc hd =
    below-Sound 2 _ d (below-Sound 3 _ c (below-Sound 4 _ b (below-Sound 5 _ a dealt_all ha) hb) hc)
      hd

places_lem :
    (a b c d e : ℕ)
    → places (a ∷ b ∷ c ∷ d ∷ e ∷ []) ≡ (a % 5) ∷ (b % 4) ∷ (c % 3) ∷ (d % 2) ∷ (e % 1) ∷ []
unfolding places
places_lem a b c d e = refl

-- Whatever random numbers are drawn, no write leaves the array, and of the five values that are dealt each of
-- the five attributes gets one.
pub get_hero_att-contains :
    (a b c d e : ℕ)
    → Returns
        (λ dealt. (length dealt ≡ 5) × ((k : ℕ) → k < 5 → contains k dealt ≡ true))
        (get_hero_att (a ∷ b ∷ c ∷ d ∷ e ∷ []))
unfolding get_hero_att
get_hero_att-contains a b c d e = rw (places_lem a b c d e) (
    let last : e % 1 ≡ 0 = omega arith in
    rw last (
      is_dealt-Returns _ (
        below_is_dealt (a % 5) (b % 4) (c % 3) (d % 2) (omega arith) (omega arith) (omega arith)
          (omega arith))))
