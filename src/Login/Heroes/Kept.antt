-- ===== src/Login/Heroes/Kept.antt =====
-- gateway_server/service/_login_worker_logicworker.cpp: a hero who was recruited cannot be dropped.
use cpp_framework.Prelude.{
  ℕ, zero, suc, ◌-◌, ◌<◌, ◌≡◌, refl, true, not, ◌&&◌, Option, none, some, List, [], ◌∷◌, nat_key,
  bytes_key, length, get_elem?, replicate, signed_le, arith, lookup-assign, bytes_eq_iff,
  get_elem?-set_self, Option-cases, inl, inr,
}
use cpp_framework.Router.Fault.{ok}
use cpp_framework.Login.State.{negative}
use cpp_framework.Login.Goods.{Equip, Hero, equips_of}
use cpp_framework.Login.Heroes.{
  Request, Effect, Tavern, emit, empty_place, hire, get_rand_hero, drop_hero,
}

empty_place-lt :
    {A : Type 0} (n : ℕ) (heroes : List (Option A)) (i : ℕ)
    → empty_place n heroes ≡ some i
    → i < length heroes
unfolding empty_place
empty_place-lt zero heroes i h = cc
empty_place-lt (suc n) [] i h = cc
empty_place-lt (suc n) (none ∷ heroes) i h = ground (arith, h)
empty_place-lt (suc n) (some a ∷ heroes) i h = elim (Option-cases (empty_place n heroes)) [
  | inl e ↦ absurd (ground (arith, e, h))
  | inr (j, e) ↦ ground (arith, e, h, empty_place-lt n heroes j e)
]

in_tavern :
    (hero_sn : ℕ)
    → 0 < hero_sn
    → hero_sn < 4
    → not (signed_le 32 hero_sn 0) && not (signed_le 32 4 hero_sn) ≡ true
unfolding signed_le
in_tavern hero_sn low high = ground arith

module _ {H : Type 0} (empty : Equip) (h : Hero H) (t : Tavern H) where
  get_rand_hero-hire :
      (hero_sn place : ℕ)
      → 0 < hero_sn
      → hero_sn < 4
      → get_elem? t.rand_hero (hero_sn - 1) ≡ some (some h)
      → empty_place 5 t.my_hero ≡ some place
      → get_rand_hero empty hero_sn t ≡ ok (hire empty place (hero_sn - 1) h t)
  unfolding get_rand_hero hire
  get_rand_hero-hire hero_sn place low high there room =
      rw (in_tavern hero_sn low high, get_rand_hero) (rw there (rw room refl))

  hire-equips_of :
      (place which : ℕ)
      → (e : Equip) × (equips : List Equip) × (equips_of h.hero_uuid
            (hire empty place which h t).hero_equip
          ≡ e ∷ equips)
  unfolding hire equips_of
  hire-equips_of place which =
      let e : Equip = record empty { witch_pannle = negative 1 } in
      (
        e,
        replicate 5 e,
        ground (
          arith,
          lookup-assign h.hero_uuid h.hero_uuid (replicate 6 e) t.hero_equip,
          bytes_eq_iff h.hero_uuid h.hero_uuid,
        ),
      )

  drop_hero-worn :
      (place : ℕ) (mine : Hero H) (e : Equip) (equips : List Equip) (u : Tavern H)
      → get_elem? u.my_hero place ≡ some (some mine)
      → equips_of mine.hero_uuid u.hero_equip ≡ e ∷ equips
      → drop_hero (suc place) u ≡ ok (emit (Effect.simple Request.drop_hero_request (negative 2)) u)
  unfolding drop_hero
  drop_hero-worn place mine e equips u there worn = ground (arith, there, worn)

-- A hero whom the player takes from the tavern, where there is one and a place for them: asking to drop them
-- straight afterwards changes nothing and is refused.
pub drop_hero-get_rand_hero :
    {H : Type 0} (empty : Equip) (hero_sn place : ℕ) (h : Hero H) (t : Tavern H)
    → 0 < hero_sn
    → hero_sn < 4
    → get_elem? t.rand_hero (hero_sn - 1) ≡ some (some h)
    → empty_place 5 t.my_hero ≡ some place
    → (u : Tavern H) × (get_rand_hero empty hero_sn t ≡ ok u)
      × (get_elem? u.my_hero place ≡ some (some (record h { job = 0; hero_sn = suc place })))
      × (drop_hero (suc place) u
          ≡ ok (emit (Effect.simple Request.drop_hero_request (negative 2)) u))
unfolding hire
drop_hero-get_rand_hero {H} empty hero_sn place h t low high there room =
    let inside = empty_place-lt 5 t.my_hero place room in
    let mine : Hero H = record h { job = 0; hero_sn = suc place } in
    let placed = get_elem?-set_self t.my_hero place (some mine) inside in
    let worn = hire-equips_of empty h t place (hero_sn - 1) in
    (
      hire empty place (hero_sn - 1) h t,
      get_rand_hero-hire empty h t hero_sn place low high there room,
      placed,
      drop_hero-worn empty h t place mine worn.0 worn.1 (hire empty place (hero_sn - 1) h t) placed
          worn.2,
    )
