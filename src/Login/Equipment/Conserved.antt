-- ===== src/Login/Equipment/Conserved.antt =====
-- gateway_server/service/_login_worker_logicworker.cpp: dressing and undressing heroes loses no equipment and
-- makes none.
use cpp_framework.Prelude.{
  ℕ, zero, suc, ◌+◌, ◌-◌, ◌<◌, ◌≡◌, refl, Bool, true, false, not, some, List, [], ◌∷◌, ◌==◌,
  nat_key, bytes_key, Bytes, Dict, lookup, insert, modify, get_elem?, set, if◌then◌else◌, signed_le,
  arith, length, get_elem?-lt, Bool-cases, inl, inr,
}
use cpp_framework.Router.Returns.{OnOk, value, none_returned, OnOk-or_fault, OnOk-option, OnOk-if}
use cpp_framework.Login.State.{negative}
use cpp_framework.Login.Goods.{
  Equip, Bonus, Hero, Player, get_backpack, get_backpack-free, equips_of, find_hero_equip_sn,
}
use cpp_framework.Login.Equipment.{
  out_of_reach, out_of_places, update_hero, put_on, enter, dress_at, dress_hero, dress_equip,
  take_off, unload_hero, unload_equip,
}

-- How often a name stands on equipment of the taken places of the backpack.
unfoldable pub packed_in : Bytes → List Bool → List Equip → ℕ
packed_in sn [] equips = 0
packed_in sn (taken ∷ status) [] = 0
packed_in sn (taken ∷ status) (e ∷ equips) =
    (if taken then (if e.equip_sn == sn then 1 else 0) else 0) + packed_in sn status equips

abbrev pub wears : Bytes → Equip → ℕ
wears sn e = if e.witch_pannle == 1 then (if e.equip_sn == sn then 1 else 0) else 0

unfoldable pub worn_in : Bytes → List Equip → ℕ
worn_in sn [] = 0
worn_in sn (e ∷ equips) = wears sn e + worn_in sn equips

unfoldable pub worn_by : Bytes → Dict Bytes (List Equip) → ℕ
worn_by sn [] = 0
worn_by sn ((uuid, equips) ∷ all) = worn_in sn equips + worn_by sn all

-- How often a player has the equipment of a name.
abbrev pub owns : {H : Type 0} → Bytes → Player H → ℕ
owns sn p = packed_in sn p.backpack_status p.my_backpack + worn_by sn p.hero_equip

packed_in-set :
    (sn : Bytes) (status : List Bool) (equips : List Equip) (i : ℕ) (old e : Equip)
    → get_elem? status i ≡ some true
    → get_elem? equips i ≡ some old
    → packed_in sn status (set equips i e) + (if old.equip_sn == sn then 1 else 0)
      ≡ packed_in sn status equips + (if e.equip_sn == sn then 1 else 0)
unfolding packed_in
packed_in-set sn [] equips i old e h k = cc
packed_in-set sn (b ∷ status) [] i old e h k = cc
packed_in-set sn (b ∷ status) (f ∷ equips) zero old e h k = ground arith
packed_in-set sn (b ∷ status) (f ∷ equips) (suc i) old e h k =
    omega (arith, packed_in-set sn status equips i old e h k)

packed_in-free :
    (sn : Bytes) (status : List Bool) (equips : List Equip) (i : ℕ) (old e : Equip)
    → get_elem? status i ≡ some true
    → get_elem? equips i ≡ some old
    → packed_in sn (set status i false) (set equips i e) + (if old.equip_sn == sn then 1 else 0)
      ≡ packed_in sn status equips
unfolding packed_in
packed_in-free sn [] equips i old e h k = cc
packed_in-free sn (b ∷ status) [] i old e h k = cc
packed_in-free sn (b ∷ status) (f ∷ equips) zero old e h k = ground arith
packed_in-free sn (b ∷ status) (f ∷ equips) (suc i) old e h k =
    omega (arith, packed_in-free sn status equips i old e h k)

packed_in-take :
    (sn : Bytes) (status : List Bool) (equips : List Equip) (i : ℕ) (e : Equip)
    → get_elem? status i ≡ some false
    → i < length equips
    → packed_in sn (set status i true) (set equips i e)
      ≡ packed_in sn status equips + (if e.equip_sn == sn then 1 else 0)
unfolding packed_in
packed_in-take sn [] equips i e h k = cc
packed_in-take sn (b ∷ status) [] i e h k = absurd (omega arith)
packed_in-take sn (b ∷ status) (f ∷ equips) zero e h k = ground arith
packed_in-take sn (b ∷ status) (f ∷ equips) (suc i) e h k =
    omega (arith, packed_in-take sn status equips i e h)

worn_in-set :
    (sn : Bytes) (equips : List Equip) (i : ℕ) (old e : Equip)
    → get_elem? equips i ≡ some old
    → worn_in sn (set equips i e) + wears sn old ≡ worn_in sn equips + wears sn e
unfolding worn_in
worn_in-set sn [] i old e h = cc
worn_in-set sn (f ∷ equips) zero old e h = ground arith
worn_in-set sn (f ∷ equips) (suc i) old e h = omega (arith, worn_in-set sn equips i old e h)

worn_by-modify :
    (sn uuid : Bytes) (equips equips' : List Equip) (all : Dict Bytes (List Equip))
    → lookup uuid all ≡ some equips
    → worn_by sn (modify uuid (λ _. equips') all) + worn_in sn equips
      ≡ worn_by sn all + worn_in sn equips'
unfolding worn_by lookup modify
worn_by-modify sn uuid equips equips' [] h = cc
worn_by-modify sn uuid equips equips' ((j, es) ∷ all) h =
    ground (arith, worn_by-modify sn uuid equips equips' all)

worn_by-insert :
    (sn uuid : Bytes) (all : Dict Bytes (List Equip))
    → worn_by sn (insert uuid [] all) ≡ worn_by sn all
unfolding worn_by insert worn_in
worn_by-insert sn uuid [] = refl
worn_by-insert sn uuid ((j, es) ∷ all) = ground (arith, worn_by-insert sn uuid all)

found_equips :
    (uuid : Bytes) (all : Dict Bytes (List Equip)) (i : ℕ) (e : Equip)
    → get_elem? (equips_of uuid all) i ≡ some e
    → lookup uuid all ≡ some (equips_of uuid all)
unfolding equips_of
found_equips uuid all i e h = ground arith

module _ {H : Type 0} (recaculate : H → Bonus → H) (sn : Bytes) where
  put_on-owns :
      (h : Hero H) (place bag : ℕ) (packed worn : Equip) (p : Player H)
      → get_elem? p.backpack_status bag ≡ some true
      → get_elem? p.my_backpack bag ≡ some packed
      → get_elem? (equips_of h.hero_uuid p.hero_equip) place ≡ some worn
      → owns sn (put_on recaculate h place bag (equips_of h.hero_uuid p.hero_equip) packed worn p)
        ≡ owns sn p
  unfolding put_on
  put_on-owns h place bag packed worn p taken at_bag at_place =
      let equips = equips_of h.hero_uuid p.hero_equip in
      let e1 : Equip = record packed {
        witch_pannle = 1;
        where_uuid = h.hero_uuid;
        position = place;
      } in
      let e : Equip = record worn { witch_pannle = 0; position = bag } in
      let found = found_equips h.hero_uuid p.hero_equip place worn at_place in
      let moved = worn_by-modify sn h.hero_uuid equips (set equips place e1) p.hero_equip found in
      let put = worn_in-set sn equips place worn e1 at_place in
      elim (Bool-cases (worn.witch_pannle == 1)) [
        | inl full ↦ rw full (
            ground (
              arith,
              moved,
              put,
              full,
              packed_in-set sn p.backpack_status p.my_backpack bag packed e taken at_bag,
            ))
        | inr free ↦ rw free (
            ground (
              arith,
              moved,
              put,
              free,
              packed_in-free sn p.backpack_status p.my_backpack bag packed e1 taken at_bag,
            ))
      ]

  dress_at-owns :
      (which : ℕ) (h : Hero H) (place bag : ℕ) (p : Player H)
      → get_elem? p.backpack_status bag ≡ some true
      → OnOk (λ q. owns sn q ≡ owns sn p) (dress_at recaculate which h place bag p)
  unfolding dress_at update_hero
  dress_at-owns which h place bag p taken =
      OnOk-or_fault _ (get_elem? (equips_of h.hero_uuid p.hero_equip) place) λ worn at_place.
        OnOk-or_fault _ (get_elem? p.my_backpack bag)
          λ packed at_bag. value (put_on-owns h place bag packed worn p taken at_bag at_place)

  enter-owns : (h : Hero H) (p : Player H) → owns sn (enter recaculate h p) ≡ owns sn p
  unfolding enter
  enter-owns h p = ground (arith, worn_by-insert sn h.hero_uuid p.hero_equip)

  enter-status :
      (h : Hero H) (p : Player H) → (enter recaculate h p).backpack_status ≡ p.backpack_status
  unfolding enter
  enter-status h p = ground arith

  dress_hero-owns :
      (which : ℕ) (h : Hero H) (place bag : ℕ) (p : Player H)
      → get_elem? p.backpack_status bag ≡ some true
      → OnOk (λ q. owns sn q ≡ owns sn p) (dress_hero recaculate which h place bag p)
  unfolding dress_hero
  dress_hero-owns which h place bag p taken =
      OnOk-if (place == negative 1)
        (λ _.
          OnOk-option (find_hero_equip_sn (equips_of h.hero_uuid p.hero_equip))
            (λ _. value (enter-owns h p))
            λ i _.
              rw (enter-owns h p) at
                (dress_at-owns which h i bag (enter recaculate h p) (rw (enter-status h p) taken)))
        λ _. dress_at-owns which h place bag p taken

  -- However equipment is put on, what the player owns of every name stays the same, on heroes and in the
  -- backpack together.
  pub dress_equip-owns :
      (which_hero bag place : ℕ) (p : Player H)
      → OnOk (λ q. owns sn q ≡ owns sn p) (dress_equip recaculate which_hero bag place p)
  unfolding dress_equip
  dress_equip-owns which_hero bag place p =
      OnOk-if (out_of_reach which_hero bag p.backpack_num) (λ _. value refl)
        λ _. OnOk-or_fault _ (get_elem? p.backpack_status bag) λ taken e.
          OnOk-or_fault _ (get_elem? p.my_hero (which_hero - 1)) λ hero _.
            OnOk-option hero (λ _. value refl)
              λ h _.
                OnOk-if (not taken) (λ _. value refl)
                  λ t.
                    OnOk-if (signed_le 32 h.cur_goods_space place) (λ _. value refl)
                      λ _. dress_hero-owns (which_hero - 1) h place bag p (ground (arith, e, t))

  take_off-owns :
      (which : ℕ) (h : Hero H) (place bag : ℕ) (equips : List Equip) (worn : Equip) (p : Player H)
      → lookup h.hero_uuid p.hero_equip ≡ some equips
      → get_elem? equips place ≡ some worn
      → worn.witch_pannle ≡ 1
      → get_elem? p.backpack_status bag ≡ some false
      → bag < length p.my_backpack
      → owns sn (take_off recaculate which h place bag equips worn p) ≡ owns sn p
  unfolding take_off update_hero
  take_off-owns which h place bag equips worn p found at_place on free inside =
      let e : Equip = record worn { witch_pannle = 0; position = bag } in
      let gone : Equip = record worn { witch_pannle = negative 1 } in
      ground (
        arith,
        on,
        worn_by-modify sn h.hero_uuid equips (set equips place gone) p.hero_equip found,
        worn_in-set sn equips place worn gone at_place,
        packed_in-take sn p.backpack_status p.my_backpack bag e free inside,
      )

  -- However equipment is taken off, what the player owns of every name stays the same, if the backpack has
  -- as many places as marks for them.
  pub unload_equip-owns :
      (which_hero place : ℕ) (p : Player H)
      → length p.backpack_status ≡ length p.my_backpack
      → OnOk (λ q. owns sn q ≡ owns sn p) (unload_equip recaculate which_hero place p)
  unfolding unload_equip unload_hero
  unload_equip-owns which_hero place p same =
      OnOk-if (out_of_places which_hero place) (λ _. value refl)
        λ _. OnOk-or_fault _ (get_elem? p.my_hero (which_hero - 1)) λ hero _.
          OnOk-option hero (λ _. value refl)
            λ h _.
              OnOk-option (lookup h.hero_uuid p.hero_equip)
                (λ _.
                  OnOk-option (get_backpack p.backpack_num p.backpack_status) (λ _. value refl)
                    λ bag _. none_returned)
                λ equips found. OnOk-or_fault _ (get_elem? equips place) λ worn at_place.
                  OnOk-if (not (worn.witch_pannle == 1)) (λ _. value refl)
                    λ on.
                      OnOk-option (get_backpack p.backpack_num p.backpack_status) (λ _. value refl)
                        λ bag e.
                          let free = get_backpack-free p.backpack_num p.backpack_status bag e in
                          value (
                            take_off-owns (which_hero - 1) h place bag equips worn p found at_place
                              (ground (arith, on)) free
                              (omega (arith, same, get_elem?-lt p.backpack_status bag false free)))
