-- ===== src/Login/State.antt =====
-- gateway_server/service/_login_worker.h and module/msgpack_struct.h: the buildings and the resources of a
-- player, the tables of the configuration, and what is written and sent. Ints are the natural numbers
-- of their bits, floats are opaque, and times are seconds.
use cpp_framework.Prelude.{ℕ, ◌-◌, ◌^◌, Option, none, some, List, ◌∷◌, Bytes, Dict, get_elem?}

-- `AssetResponse`, and the fields of `MyAttruibuteResponse` that it repeats.
pub record Assets : Type 0 where
  pub wood : ℕ
  pub stone : ℕ
  pub iron : ℕ
  pub soil : ℕ
  pub diamond : ℕ

-- `MyBuildDataResponse`; `status` is 1 while it is being built.
pub record Build : Type 0 where
  pub build_sn : Bytes
  pub big_type : ℕ
  pub status : ℕ
  pub ctime : ℕ
  pub time : ℕ
  pub build_type : ℕ
  pub build_level : ℕ
  pub cur_hp : ℕ
  pub cur_resource : ℕ
  pub x : ℕ
  pub y : ℕ

-- `BuildResponse`: what a level of a type of buildings costs and gives.
pub record BuildConfig : Type 0 where
  pub big_type : ℕ
  pub need_wood : ℕ
  pub need_stone : ℕ
  pub need_iron : ℕ
  pub need_soil : ℕ
  pub need_diamond : ℕ
  pub build_time : ℕ
  pub output : ℕ
  pub space : ℕ
  pub max_hp : ℕ

pub record CityLimit : Type 0 where
  pub max_level : ℕ
  pub max_num : ℕ

-- `global_build`, `city_limit`, and the product of floats that turns an output per hour and a time into an int.
pub record Config : Type 0 where
  pub global_build : List (List BuildConfig)
  pub city_limit : List (List CityLimit)
  pub produced : ℕ → ℕ → ℕ

pub data Request : Type 0 where
  build_create build_upgrade get_my_asset fast_finish : Request

-- A command for redis or MySQL, or a message for the player.
pub data Effect : Type 0 where
  set_build : Build → Effect
  set_material : Assets → Effect
  update_diamond : ℕ → Effect
  set_build_timer : Bytes → Effect
  set_build_num : ℕ → Effect
  set_my_build_num : ℕ → ℕ → Effect
  build_data : Build → Effect
  asset : Assets → Effect
  get_my_asset : (kind add : ℕ) → Effect
  simple : Request → (result : ℕ) → Effect

-- `building_timer` holds the seconds of each timer; `effects` has what was done, last first.
pub record City : Type 0 where
  pub assets : Assets
  pub city_hall_uuid : Bytes
  pub my_build : Dict Bytes Build
  pub build_num : Dict ℕ ℕ
  pub building_timer : Dict Bytes ℕ
  pub building : List Bytes
  pub effects : List Effect

-- `-n`
abbrev pub negative : ℕ → ℕ
negative n = 2 ^ 32 - n

-- `table[row][column]`
unfoldable pub cell {ℓ} : {A : Type ℓ} → List (List A) → ℕ → ℕ → Option A
cell table row column = elim (get_elem? table row) [
  | none ↦ none
  | some entries ↦ get_elem? entries column
]

abbrev pub emit : Effect → City → City
emit e s = record s { effects = e ∷ s.effects }
