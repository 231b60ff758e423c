-- ===== src/Event/Chat.antt =====
-- event/chat.go: the events of the chat domain, one record for each struct of two fields or more;
-- an event of one field carries it in its constructor. Floats are types of their own.
use headless_minecraft.Base.{ℕ, ℤ, String, Bool, List}

pub record ChatReceived : Type 0 where
  pub kind : String
  pub text : String
  pub sender : String
  pub index : ℤ
  pub index_known : Bool
  pub signed : Bool
  pub action_bar : Bool

pub record ChatTitleChanged : Type 0 where
  pub cleared : Bool
  pub reset : Bool
  pub fade_in : ℤ
  pub stay : ℤ
  pub fade_out : ℤ
  pub times_known : Bool

pub record ChatBossBarChanged (F32 : Type 0) : Type 0 where
  pub uuid : String
  pub removed : Bool
  pub health : F32
  pub health_known : Bool

pub record ChatScoreboardChanged : Type 0 where
  pub objective : String
  pub entry : String
  pub value : ℤ
  pub removed : Bool
  pub displayed : Bool
  pub position : ℤ

pub record ChatTeamsChanged : Type 0 where
  pub team : String
  pub mode : String
  pub players : List String
  pub removed : Bool

pub record ChatAdvancementsChanged : Type 0 where
  pub added : ℕ
  pub removed : ℕ
  pub reset : Bool

pub record ChatSoundPlayed (F32 F64 : Type 0) : Type 0 where
  pub sound : String
  pub entity_id : ℤ
  pub entity_known : Bool
  pub x : F64
  pub y : F64
  pub z : F64
  pub positioned : Bool
  pub volume : F32
  pub pitch : F32
  pub stopped : Bool

pub record ChatTabCompleted : Type 0 where
  pub matches : List String
  pub transaction_id : ℤ
  pub transaction_known : Bool

pub data ChatEvent (F32 F64 : Type 0) : Type 0 where
  received : ChatReceived → ChatEvent F32 F64
  removed : ℤ → ChatEvent F32 F64
  title_changed : ChatTitleChanged → ChatEvent F32 F64
  action_bar_changed : ChatEvent F32 F64
  boss_bar_changed : ChatBossBarChanged F32 → ChatEvent F32 F64
  scoreboard_changed : ChatScoreboardChanged → ChatEvent F32 F64
  teams_changed : ChatTeamsChanged → ChatEvent F32 F64
  advancements_changed : ChatAdvancementsChanged → ChatEvent F32 F64
  sound_played : ChatSoundPlayed F32 F64 → ChatEvent F32 F64
  statistics_received : ℕ → ChatEvent F32 F64
  dialog_shown : Bool → ChatEvent F32 F64
  tab_completed : ChatTabCompleted → ChatEvent F32 F64

module _ {F32 F64 : Type 0} where
  unfoldable pub name : ChatEvent F32 F64 → String
  name (received e) = "chat.received"
  name (removed e) = "chat.removed"
  name (title_changed e) = "chat.title_changed"
  name action_bar_changed = "chat.action_bar_changed"
  name (boss_bar_changed e) = "chat.boss_bar_changed"
  name (scoreboard_changed e) = "chat.scoreboard_changed"
  name (teams_changed e) = "chat.teams_changed"
  name (advancements_changed e) = "chat.advancements_changed"
  name (sound_played e) = "chat.sound_played"
  name (statistics_received e) = "chat.statistics_received"
  name (dialog_shown e) = "chat.dialog_shown"
  name (tab_completed e) = "chat.tab_completed"
