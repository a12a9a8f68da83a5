-- ===== src/Login/Buildings.antt =====
-- gateway_server/service/_login_worker_logicworker.cpp: the buildings of a player. `now` is `time(0)` in a
-- call, and `uuid` what the generator of identifiers gives.
use cpp_framework.Prelude.{
  Dict, ℕ, suc, ◌+◌, ◌-◌, ◌/◌, ◌%◌, ◌^◌, Bool, not, ◌&&◌, Option, none, some, List, [], ◌∷◌, ◌++◌,
  ◌==◌, nat_key, bytes_key, Bytes, lookup, assign, erase, length, if◌then◌else◌, ltb, signed_le,
  int_add, int_sub,
}
use cpp_framework.Router.Fault.{Fault, Result, ok, ◌>>=◌, or_fault}
use cpp_framework.Login.State.{
  Assets, Build, BuildConfig, Config, Request, Effect, City, negative, cell, emit,
}

-- `list::remove`
unfoldable pub remove : Bytes → List Bytes → List Bytes
remove sn [] = []
remove sn (name ∷ names) = let rest = remove sn names in if name == sn then rest else name ∷ rest

-- The search of `building`, and `list::erase` of what it finds.
unfoldable pub erase_first : Bytes → List Bytes → Option (List Bytes)
erase_first sn [] = none
erase_first sn (name ∷ names) =
    let rest = erase_first sn names in
    if name == sn then some names else elim rest [ none ↦ none | some left ↦ some (name ∷ left) ]

unfoldable pub affords : BuildConfig → Assets → Bool
affords b a =
    signed_le 32 b.need_soil a.soil
    && signed_le 32 b.need_stone a.stone
    && signed_le 32 b.need_iron a.iron
    && signed_le 32 b.need_wood a.wood

unfoldable pub pay : BuildConfig → Assets → Assets
pay b a = record a {
  soil = int_sub a.soil b.need_soil;
  stone = int_sub a.stone b.need_stone;
  iron = int_sub a.iron b.need_iron;
  wood = int_sub a.wood b.need_wood;
}

unfoldable pub pay_diamond : ℕ → City → City
pay_diamond n s = record s { assets = record (s.assets) { diamond = int_sub (s.assets).diamond n } }

abbrev pub refuse : Request → City → Result City
refuse request s = ok (emit (Effect.simple request (negative 1)) s)

unfoldable pub count_of : ℕ → City → ℕ
count_of build_type s = elim (lookup build_type s.build_num) [ none ↦ 0 | some count ↦ count ]

-- A timer is started for a building that is done within 1100 seconds.
unfoldable pub en_timer : Build → City → City
en_timer b s =
    if signed_le 32 b.time 1100
    then record s { building_timer = assign b.build_sn b.time s.building_timer }
    else s

-- What creating and upgrading do with the building.
unfoldable pub begin_building : Build → City → City
unfolding en_timer
begin_building b s = en_timer b (
    emit (Effect.set_build_timer b.build_sn) (record s {
      my_build = assign b.build_sn b s.my_build;
      building = s.building ++ (b.build_sn ∷ []);
    }))

unfoldable pub send_begun : Build → City → City
send_begun b s = emit (Effect.asset s.assets) (emit (Effect.build_data b) s)

-- The seconds that are left, at least one, in steps of five minutes.
unfoldable pub diamonds_for : ℕ → Build → ℕ
diamonds_for now b =
    let remain_time = b.time + b.ctime - now in
    ((if remain_time == 0 then 1 else remain_time) / 300 + 1) % 2 ^ 32

unfoldable pub new_build : BuildConfig → ℕ → Bytes → ℕ → ℕ → ℕ → Build
new_build b now uuid build_type x y = record {
  build_sn = uuid;
  big_type = b.big_type;
  status = 1;
  ctime = now;
  time = b.build_time;
  build_type = build_type;
  build_level = 0;
  cur_hp = b.max_hp;
  cur_resource = 0;
  x = x;
  y = y;
}

unfoldable pub map_builds : (Build → Build) → Dict Bytes Build → Dict Bytes Build
map_builds f [] = []
map_builds f ((build_sn, b) ∷ builds) = (build_sn, f b) ∷ map_builds f builds

-- What `get_build_map` makes of a building: one that is done and gives resources has a new time.
unfoldable pub with_time : ℕ → Build → Build
with_time now b = if b.big_type == 2 && b.status == 0 then record b { time = now - b.ctime } else b

unfoldable pub get_build_map : ℕ → Dict Bytes Build → Dict Bytes Build
get_build_map now stored = map_builds (with_time now) stored

module _ (c : Config) (now : ℕ) where
  unfoldable pub finished : Build → Result Build
  finished b =
      or_fault Fault.bad_iterator (cell c.global_build b.build_type (int_add b.build_level 1))
      >>= λ conf. ok (record b {
        status = 0;
        time = 0;
        build_level = int_add b.build_level 1;
        cur_hp = conf.max_hp;
        ctime = if b.big_type == 2 then now else b.ctime;
        cur_resource = if b.big_type == 2 then 0 else b.cur_resource;
      })

  -- `delete building_timer[build_sn]` and the message, if there is a timer.
  unfoldable pub stop_timer : Bytes → Build → City → City
  stop_timer build_sn b s = elim (lookup build_sn s.building_timer) [
    | none ↦ s
    | some seconds ↦
        emit (Effect.build_data b) (record s { building_timer = erase build_sn s.building_timer })
  ]

  unfoldable pub build_timer_handle : Bytes → City → Result City
  unfolding stop_timer
  build_timer_handle build_sn s = elim (lookup build_sn s.my_build) [
    | none ↦ ok s
    | some b ↦ finished b >>= λ done.
        let t =
          stop_timer build_sn done (record s { my_build = assign build_sn done s.my_build }) in
        ok (emit (Effect.set_build done) (record t { building = remove build_sn t.building }))
  ]

  unfoldable pub place : Bytes → ℕ → ℕ → City → City
  place build_sn x y s = elim (lookup build_sn s.my_build) [
    | none ↦ s
    | some b ↦
        let moved = record b { x = x; y = y } in
        emit (Effect.set_build moved) (record s { my_build = assign build_sn moved s.my_build })
  ]

  -- The loop of `BuildStatusListRequestService`.
  unfoldable pub place_all : List (Bytes × ℕ × ℕ) → City → City
  place_all [] s = s
  place_all ((build_sn, x, y) ∷ values) s = place_all values (place build_sn x y s)

  -- `stored` is what redis has.
  unfoldable pub build_status_list : Dict Bytes Build → List (Bytes × ℕ × ℕ) → City → City
  build_status_list stored values s =
      place_all values (record s { my_build = get_build_map now stored })

  unfoldable pub create_build : BuildConfig → Bytes → ℕ → ℕ → ℕ → City → City
  unfolding begin_building send_begun new_build count_of
  create_build b uuid build_type x y s =
      let count = count_of build_type s in
      let newbuild = new_build b now uuid build_type x y in
      let paid = pay_diamond b.need_diamond (record s { assets = pay b s.assets }) in
      let charged =
        emit (Effect.set_material paid.assets)
          (emit (Effect.update_diamond (paid.assets).diamond) paid) in
      let begun = emit (Effect.set_build newbuild) (begin_building newbuild charged) in
      let counted = emit (Effect.set_my_build_num build_type (suc count)) (
        emit (Effect.set_build_num (suc (length begun.my_build)))
          (record begun { build_num = assign build_type (suc count) begun.build_num })) in
      send_begun newbuild counted

  -- The building fits the city hall, or nothing is done and nothing is answered.
  unfoldable pub create_within : BuildConfig → Build → Bytes → ℕ → ℕ → ℕ → City → Result City
  create_within b city_hall uuid build_type x y s =
      or_fault Fault.bad_iterator (cell c.city_limit city_hall.build_level build_type) >>= λ limit.
      if signed_le 32 limit.max_num (count_of build_type s)
      then ok s
      else ok (create_build b uuid build_type x y s)

  unfoldable pub build_create : Bytes → ℕ → ℕ → ℕ → City → Result City
  build_create uuid build_type x y s =
      if not (signed_le 32 build_type 0) && ltb build_type (length c.global_build)
      then or_fault Fault.bad_iterator (cell c.global_build build_type 0) >>= (λ b.
        if affords b s.assets && signed_le 32 b.need_diamond (s.assets).diamond
        then elim (lookup s.city_hall_uuid s.my_build) [
          | none ↦ refuse Request.build_create s
          | some city_hall ↦ create_within b city_hall uuid build_type x y s
        ]
        else refuse Request.build_create s)
      else refuse Request.build_create s

  unfoldable pub upgrade : Build → BuildConfig → City → City
  unfolding begin_building send_begun
  upgrade b res s =
      let charged =
        emit (Effect.set_material (pay res s.assets)) (record s { assets = pay res s.assets }) in
      let begun = record b { status = 1; ctime = now; time = res.build_time } in
      send_begun begun (emit (Effect.set_build begun) (begin_building begun charged))

  unfoldable pub upgrade_within : Build → Build → City → Result City
  upgrade_within city_hall b s =
      or_fault Fault.bad_iterator (cell c.city_limit city_hall.build_level b.build_type)
      >>= λ limit.
          if not (signed_le 32 limit.max_level b.build_level) && not (b.status == 1)
          then or_fault Fault.bad_iterator (cell c.global_build b.build_type b.build_level)
            >>= (λ res.
                if affords res s.assets
                then ok (upgrade b res s)
                else refuse Request.build_upgrade s)
          else refuse Request.build_upgrade s

  unfoldable pub build_upgrade : Bytes → City → Result City
  build_upgrade build_sn s = elim (lookup s.city_hall_uuid s.my_build) [
    | none ↦ refuse Request.build_upgrade s
    | some city_hall ↦ elim (lookup build_sn s.my_build) [
      | none ↦ refuse Request.build_upgrade s
      | some b ↦ upgrade_within city_hall b s
    ]
  ]

  unfoldable pub gain : ℕ → ℕ → Assets → Assets
  gain build_type n a =
      if build_type == 8
      then record a { wood = int_add a.wood n }
      else if build_type == 9
      then record a { stone = int_add a.stone n }
      else if build_type == 10
      then record a { iron = int_add a.iron n }
      else if build_type == 11
      then record a { soil = int_add a.soil n }
      else a

  unfoldable pub cur_output : Build → BuildConfig → ℕ
  cur_output b conf =
      let made = c.produced conf.output (int_sub (now % 2 ^ 32) (b.ctime % 2 ^ 32)) in
      if signed_le 32 made conf.space then made else conf.space

  unfoldable pub collect : Bytes → Build → BuildConfig → City → City
  collect build_sn b conf s =
      let emptied = record b { ctime = now } in
      let n = cur_output b conf in
      let t =
        emit (Effect.get_my_asset b.build_type n) (record (emit (Effect.set_build emptied) s) {
          my_build = assign build_sn emptied s.my_build;
          assets = gain b.build_type n s.assets;
        }) in
      emit (Effect.asset t.assets) (emit (Effect.set_material t.assets) t)

  -- The last message says that the request failed, also where it did not.
  unfoldable pub get_my_asset : Bytes → City → Result City
  get_my_asset build_sn s = elim (lookup build_sn s.my_build) [
    | none ↦ refuse Request.get_my_asset s
    | some b ↦
        if b.big_type == 2 && b.status == 0
        then or_fault Fault.bad_iterator (cell c.global_build b.build_type b.build_level)
          >>= (λ conf. refuse Request.get_my_asset (collect build_sn b conf s))
        else refuse Request.get_my_asset s
  ]

  unfoldable pub send_paid : City → City
  send_paid s = emit (Effect.asset s.assets) (emit (Effect.update_diamond (s.assets).diamond) s)

  -- A building without a timer, which is found in `building`.
  unfoldable pub finish_without_timer : Bytes → Build → ℕ → List Bytes → City → Result City
  finish_without_timer build_sn b diamond left s = finished b >>= λ done.
      let t = emit (Effect.build_data done) (
        emit (Effect.set_build done)
          (record s { my_build = assign build_sn done s.my_build; building = left })) in
      ok (send_paid (pay_diamond diamond t))

  unfoldable pub fast_finish : Bytes → City → Result City
  unfolding send_paid
  fast_finish build_sn s = elim (lookup build_sn s.my_build) [
    | none ↦ refuse Request.fast_finish s
    | some b ↦
        let diamond = diamonds_for now b in
        if signed_le 32 diamond (s.assets).diamond
        then elim (lookup build_sn s.building_timer) [
          | some seconds ↦
              build_timer_handle build_sn (pay_diamond diamond s) >>= λ t. ok (send_paid t)
          | none ↦ elim (erase_first build_sn s.building) [
            | none ↦ refuse Request.fast_finish s
            | some left ↦ finish_without_timer build_sn b diamond left s
          ]
        ]
        else refuse Request.fast_finish s
  ]
