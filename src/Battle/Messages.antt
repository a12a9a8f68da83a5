-- ===== src/Battle/Messages.antt =====
-- workers/pvp_worker/GameHandler.cpp and module/msgpack_struct.h: what a message of a player holds. The
-- reading of msgpack and `MsgpackConvert` are parameters.
use cpp_framework.Prelude.{
  ℕ, ◌+◌, ◌*◌, ◌^◌, Bool, Option, none, some, List, [], ◌∷◌, ◌++◌, ◌==◌, nat_key, Bytes, length,
  get_elem?, drop, if◌then◌else◌, ltb,
}
use cpp_framework.Router.Fault.{Fault, Result, ok, fault, ◌>>=◌, or_fault}

pub record StartAttack : Type 0 where
  pub defender_uname : Bytes
  pub race : ℕ
  pub sid_list : List Bytes
  pub hero_id : ℕ
  pub x : ℕ
  pub y : ℕ

pub record HeroCastSkill : Type 0 where
  pub hero_id : ℕ
  pub is_atk : Bool
  pub targets : List Bytes
  pub skill_id : ℕ
  pub x : ℕ
  pub y : ℕ

pub record ObjectDie : Type 0 where
  pub object_id : Bytes
  pub is_building : Bool
  pub is_townhall : Bool

pub record HeroMove : Type 0 where
  pub hero_id : ℕ
  pub dst_x : ℕ
  pub dst_y : ℕ

pub record SetRallypoint : Type 0 where
  pub x : ℕ
  pub y : ℕ
  pub target_id : Bytes
  pub tgt_is_building : Bool

-- The kinds of message that the worker reads. The lists of `cur_battle_info` and of `report_cur_state`
-- it passes on as they are.
pub data Request : Type 0 where
  start_attack : StartAttack → Request
  hero_cast_skill : HeroCastSkill → Request
  object_die : ObjectDie → Request
  hero_move : HeroMove → Request
  cur_battle_info : Bytes → Request
  dfder_isready : Bool → Request
  report_cur_state : Bytes → Request
  set_rallypoint : SetRallypoint → Request
  atker_stop_battle : Bool → Request

-- `msgpack::unpack` and `MsgpackConvert`, over the objects `O` of the library.
pub record Codec (O : Type 0) : Type 0 where
  pub unpack : Bytes → Option O
  pub start_attack : O → Option StartAttack
  pub hero_cast_skill : O → Option HeroCastSkill
  pub object_die : O → Option ObjectDie
  pub hero_move : O → Option HeroMove
  pub cur_battle_info : O → Option Bytes
  pub dfder_isready : O → Option Bool
  pub report_cur_state : O → Option Bytes
  pub set_rallypoint : O → Option SetRallypoint
  pub atker_stop_battle : O → Option Bool

-- The values of the enumeration in module/msgpack_id.h.
abbrev pub login_id : ℕ
login_id = 1013

abbrev pub logout_id : ℕ
logout_id = 1032

abbrev pub start_attack_id : ℕ
start_attack_id = 1056

abbrev pub hero_cast_skill_id : ℕ
hero_cast_skill_id = 1057

abbrev pub object_die_id : ℕ
object_die_id = 1058

abbrev pub hero_move_id : ℕ
hero_move_id = 1059

abbrev pub cur_battle_info_id : ℕ
cur_battle_info_id = 1062

abbrev pub dfder_isready_id : ℕ
dfder_isready_id = 1065

abbrev pub report_cur_state_id : ℕ
report_cur_state_id = 1066

abbrev pub set_rallypoint_id : ℕ
set_rallypoint_id = 1067

abbrev pub atker_stop_battle_id : ℕ
atker_stop_battle_id = 1068

map_option : {A : Type 0} → (A → Request) → Option A → Option Request
map_option f none = none
map_option f (some a) = some (f a)

module _ {O : Type 0} (codec : Codec O) where
  -- The choice of the `switch`, and the conversion that each case begins with.
  unfoldable pub convert : ℕ → O → Option Request
  unfolding map_option
  convert id o =
      if id == start_attack_id
      then map_option Request.start_attack (codec.start_attack o)
      else if id == hero_cast_skill_id
      then map_option Request.hero_cast_skill (codec.hero_cast_skill o)
      else if id == object_die_id
      then map_option Request.object_die (codec.object_die o)
      else if id == hero_move_id
      then map_option Request.hero_move (codec.hero_move o)
      else if id == cur_battle_info_id
      then map_option Request.cur_battle_info (codec.cur_battle_info o)
      else if id == dfder_isready_id
      then map_option Request.dfder_isready (codec.dfder_isready o)
      else if id == report_cur_state_id
      then map_option Request.report_cur_state (codec.report_cur_state o)
      else if id == set_rallypoint_id
      then map_option Request.set_rallypoint (codec.set_rallypoint o)
      else if id == atker_stop_battle_id
      then map_option Request.atker_stop_battle (codec.atker_stop_battle o)
      else none

  convert_unpacked : ℕ → Option O → Option Request
  convert_unpacked id none = none
  convert_unpacked id (some o) = convert id o

  -- The body of a message. For a message of fewer than eight bytes the length wraps around.
  unfoldable pub body_of : ℕ → Bytes → Result (Option Request)
  unfolding convert_unpacked
  body_of id bytes =
      if ltb (length bytes) 8
      then fault Fault.bad_iterator
      else ok (convert_unpacked id (codec.unpack (drop 8 bytes)))

-- The bytes of `c_str ()`, which ends with a zero.
unfoldable pub read_byte : Bytes → ℕ → Result ℕ
read_byte bytes i = or_fault Fault.bad_iterator (get_elem? (bytes ++ 0 ∷ []) i)

-- `*(unsigned int*) (data + 2)`, the lowest byte first.
unfoldable pub uid_of : Bytes → Result ℕ
unfolding read_byte
uid_of bytes = do
  a ← read_byte bytes 2
  b ← read_byte bytes 3
  c ← read_byte bytes 4
  d ← read_byte bytes 5
  ok (a + b * 2 ^ 8 + c * 2 ^ 16 + d * 2 ^ 24)

-- `*(short*) (data + 6)`
unfoldable pub id_of : Bytes → Result ℕ
unfolding read_byte
id_of bytes = do a ← read_byte bytes 6; b ← read_byte bytes 7; ok (a + b * 2 ^ 8)
