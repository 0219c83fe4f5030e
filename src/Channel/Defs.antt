-- ===== src/Channel/Defs.antt =====
-- The state of a channel (struct channel_ of include/services.h). Users are pointers, here numbers.
use oftc_blitzed.Base.{ℕ, Bool, List, Option, Bytes}

-- The bits of `Channel.mode` that the program handles, CMODE_i to CMODE_R.
pub data Flag : Type 0 where
  invite_only moderated moderated_reg no_external private_ secret topic_lock no_colour oper_only
        reg_only :
      Flag

-- A set of bits, by its members.
abbrev pub Flags : Type 0
Flags = Flag → Bool

pub record Ban : Type 0 where
  pub mask : Bytes
  pub time : ℕ

pub record Channel : Type 0 where
  pub name : Bytes
  pub mode : Flags
  pub limit : ℕ
  pub key : Option Bytes
  pub bans : List Ban
  pub users : List ℕ
  pub chanops : List ℕ
  pub voices : List ℕ
  pub server_modetime : ℕ
  pub server_modecount : ℕ
  pub chanserv_modetime : ℕ
  pub chanserv_modecount : ℕ
  pub bouncy_modes : Bool
  pub channel_id : ℕ
  pub limit_offset : ℕ
  pub limit_tolerance : ℕ
  pub limit_period : ℕ
  pub last_limit_time : ℕ
  pub bantime : ℕ
