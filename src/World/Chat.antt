-- ===== src/World/Chat.antt =====
-- world/chat.go: the message log, boss bars, scoreboards, teams and the scalars around them. The
-- fill of a boss bar is a float of any type, given with its zero.
pub mod Boards
pub mod Bounds
pub mod Log
mod Tests
use headless_minecraft.Base.{
  ℕ, ◌+◌, ◌-◌, String, Bool, true, false, not, ◌&&◌, ◌||◌, Option, none, some, List, [], ◌∷◌, ◌++◌,
  ℤ, pos, leb, ltb, length, is_empty, keep, drop, map, if◌then◌else◌, ◌==◌, string_key, int_key,
  str_leb,
}
use headless_minecraft.Base.Map
use headless_minecraft.Base.Map.{Map}
use headless_minecraft.Base.Sort.{sort}
use headless_minecraft.Event.{Collector, emit}
use headless_minecraft.Event.Chat.{
  ChatEvent, ChatTitleChanged, ChatBossBarChanged, ChatTeamsChanged, ChatAdvancementsChanged,
  ChatSoundPlayed, ChatTabCompleted,
}

abbrev pub max_chat_log : ℕ
max_chat_log = 256

abbrev pub max_boss_bars : ℕ
max_boss_bars = 64

abbrev pub max_objectives : ℕ
max_objectives = 64

abbrev pub max_scores : ℕ
max_scores = 1024

abbrev pub max_teams : ℕ
max_teams = 256

pub record Message : Type 0 where
  pub kind : String
  pub text : String
  pub sender : String
  pub index : ℤ
  pub index_known : Bool
  pub signed : Bool

pub record BossBar (F32 : Type 0) : Type 0 where
  pub uuid : String
  pub health : F32
  pub health_known : Bool

pub record Objective : Type 0 where
  pub name : String
  pub scores : Map String ℤ
  pub displayed : Bool
  pub position : ℤ

pub record Team : Type 0 where
  pub name : String
  pub players : List String

pub record Chat (F32 : Type 0) : Type 0 where
  pub log : List Message
  pub dropped_chat : ℕ
  pub boss_bars : Map String (BossBar F32)
  pub objectives : Map String Objective
  pub teams : Map String Team
  pub dropped : ℕ
  pub title_fade_in : ℤ
  pub title_stay : ℤ
  pub title_fade_out : ℤ
  pub times_known : Bool
  pub statistics : ℕ
  pub stats_known : Bool
  pub dialog_open : Bool

abbrev pub new_objective : String → Objective
new_objective name = record { name = name; scores = []; displayed = false; position = pos 0 }

abbrev pub withdraws : ℤ → Message → Bool
withdraws index m = m.index_known && m.index == index

abbrev pub Events : Type 0 → Type 0 → Type 0
Events F32 F64 = Collector (ChatEvent F32 F64)

module _ {F32 : Type 0} where
  abbrev pub new_chat : Chat F32
  new_chat = record {
    log = [];
    dropped_chat = 0;
    boss_bars = [];
    objectives = [];
    teams = [];
    dropped = 0;
    title_fade_in = pos 0;
    title_stay = pos 0;
    title_fade_out = pos 0;
    times_known = false;
    statistics = 0;
    stats_known = false;
    dialog_open = false;
  }

  log_message : Chat F32 → Message → Chat F32
  log_message s m =
      let log = s.log ++ m ∷ [] in
      if ltb max_chat_log (length log)
      then record s {
        log = drop (length log - max_chat_log) log;
        dropped_chat = s.dropped_chat + 1;
      }
      else record s { log = log }

  set_times : Chat F32 → ChatTitleChanged → Chat F32
  set_times s changed =
      if changed.times_known
      then record s {
        title_fade_in = changed.fade_in;
        title_stay = changed.stay;
        title_fade_out = changed.fade_out;
        times_known = true;
      }
      else s

module _ {F32 F64 : Type 0} where
  unfoldable pub received : Chat F32 → Events F32 F64 → Message → Bool → Chat F32 × Events F32 F64
  unfolding log_message emit
  received s c m action_bar = (
    log_message s m,
    emit c (
        ChatEvent.received (record {
          kind = m.kind;
          text = m.text;
          sender = m.sender;
          index = m.index;
          index_known = m.index_known;
          signed = m.signed;
          action_bar = action_bar;
        })),
  )

  unfoldable pub removed : Chat F32 → Events F32 F64 → ℤ → Chat F32 × Events F32 F64
  unfolding emit keep
  removed s c index = (
    record s { log = keep (λ m. not (withdraws index m)) s.log },
    emit c (ChatEvent.removed index),
  )

  unfoldable pub title_changed :
      Chat F32 → Events F32 F64 → ChatTitleChanged → Chat F32 × Events F32 F64
  unfolding set_times emit
  title_changed s c changed =
      let t = set_times s changed in
      (
        (if changed.reset then record t { times_known = false } else t),
        emit c (ChatEvent.title_changed changed),
      )

  unfoldable pub action_bar_changed : Chat F32 → Events F32 F64 → Chat F32 × Events F32 F64
  unfolding emit
  action_bar_changed s c = (s, emit c ChatEvent.action_bar_changed)

  unfoldable pub advancements_changed :
      Chat F32 → Events F32 F64 → ChatAdvancementsChanged → Chat F32 × Events F32 F64
  unfolding emit
  advancements_changed s c changed = (s, emit c (ChatEvent.advancements_changed changed))

  unfoldable pub sound_played :
      Chat F32 → Events F32 F64 → ChatSoundPlayed F32 F64 → Chat F32 × Events F32 F64
  unfolding emit
  sound_played s c sound = (s, emit c (ChatEvent.sound_played sound))

  unfoldable pub statistics_received : Chat F32 → Events F32 F64 → ℕ → Chat F32 × Events F32 F64
  unfolding emit
  statistics_received s c entries = (
    record s { statistics = entries; stats_known = true },
    emit c (ChatEvent.statistics_received entries),
  )

  unfoldable pub dialog_shown : Chat F32 → Events F32 F64 → Bool → Chat F32 × Events F32 F64
  unfolding emit
  dialog_shown s c cleared =
      (record s { dialog_open = not cleared }, emit c (ChatEvent.dialog_shown cleared))

  unfoldable pub tab_completed :
      Chat F32 → Events F32 F64 → ChatTabCompleted → Chat F32 × Events F32 F64
  unfolding emit
  tab_completed s c completed = (s, emit c (ChatEvent.tab_completed completed))
