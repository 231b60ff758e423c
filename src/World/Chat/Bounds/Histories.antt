-- ===== src/World/Chat/Bounds/Histories.antt =====
-- The bounds of world/chat.go hold in every history of its mutators.
use headless_minecraft.Base.{ℕ, String, Bool, List, [], ◌∷◌, ℤ, string_key}
use headless_minecraft.Event.Chat.{
  ChatTitleChanged, ChatBossBarChanged, ChatTeamsChanged, ChatAdvancementsChanged, ChatSoundPlayed,
  ChatTabCompleted,
}
use headless_minecraft.World.Chat.{
  Chat, Events, Message, received, removed, title_changed, action_bar_changed, advancements_changed,
  sound_played, statistics_received, dialog_shown, tab_completed,
}
use headless_minecraft.World.Chat.Boards.{
  boss_bar_changed, objective_changed, score_changed, objective_displayed, team_changed,
}
use headless_minecraft.World.Chat.Bounds.{
  IsBounded, received-IsBounded, removed-IsBounded, title_changed-IsBounded,
}
use headless_minecraft.World.Chat.Bounds.Boards.{
  boss_bar_changed-IsBounded, objective_changed-IsBounded, score_changed-IsBounded,
  objective_displayed-IsBounded, team_changed-IsBounded,
}

-- The mutators of the store, with their arguments.
pub data Mutation (F32 F64 : Type 0) : Type 0 where
  receives : Message → Bool → Mutation F32 F64
  withdraws_at : ℤ → Mutation F32 F64
  changes_title : ChatTitleChanged → Mutation F32 F64
  changes_action_bar : Mutation F32 F64
  changes_boss_bar : ChatBossBarChanged F32 → Mutation F32 F64
  changes_objective : String → Bool → Mutation F32 F64
  changes_score : String → String → ℤ → Bool → Mutation F32 F64
  displays_objective : String → ℤ → Mutation F32 F64
  changes_team : ChatTeamsChanged → Mutation F32 F64
  changes_advancements : ChatAdvancementsChanged → Mutation F32 F64
  plays_sound : ChatSoundPlayed F32 F64 → Mutation F32 F64
  receives_statistics : ℕ → Mutation F32 F64
  shows_dialog : Bool → Mutation F32 F64
  completes_tab : ChatTabCompleted → Mutation F32 F64

module _ {F32 F64 : Type 0} (zero : F32) where
  abbrev pub mutate : Chat F32 → Events F32 F64 → Mutation F32 F64 → Chat F32 × Events F32 F64
  mutate s c (receives m action_bar) = received s c m action_bar
  mutate s c (withdraws_at index) = removed s c index
  mutate s c (changes_title changed) = title_changed s c changed
  mutate s c changes_action_bar = action_bar_changed s c
  mutate s c (changes_boss_bar bar) = boss_bar_changed zero s c bar
  mutate s c (changes_objective name gone) = objective_changed s c name gone
  mutate s c (changes_score objective entry value gone) =
      score_changed s c objective entry value gone
  mutate s c (displays_objective name position) = objective_displayed s c name position
  mutate s c (changes_team changed) = team_changed s c changed
  mutate s c (changes_advancements changed) = advancements_changed s c changed
  mutate s c (plays_sound sound) = sound_played s c sound
  mutate s c (receives_statistics entries) = statistics_received s c entries
  mutate s c (shows_dialog cleared) = dialog_shown s c cleared
  mutate s c (completes_tab completed) = tab_completed s c completed

  pub chat_history : Chat F32 → Events F32 F64 → List (Mutation F32 F64) → Chat F32 × Events F32 F64
  chat_history s c [] = (s, c)
  chat_history s c (m ∷ rest) = chat_history (mutate s c m).0 (mutate s c m).1 rest

  mutate-IsBounded :
      (s : Chat F32) (c : Events F32 F64) (m : Mutation F32 F64)
      → IsBounded s
      → IsBounded (mutate s c m).0
  unfolding action_bar_changed advancements_changed sound_played statistics_received dialog_shown
      tab_completed
  mutate-IsBounded s c (receives m action_bar) v = received-IsBounded s c m action_bar v
  mutate-IsBounded s c (withdraws_at index) v = removed-IsBounded s c index v
  mutate-IsBounded s c (changes_title changed) v = title_changed-IsBounded s c changed v
  mutate-IsBounded s c changes_action_bar v = v
  mutate-IsBounded s c (changes_boss_bar bar) v = boss_bar_changed-IsBounded zero s c bar v
  mutate-IsBounded s c (changes_objective name gone) v = objective_changed-IsBounded s c name gone v
  mutate-IsBounded s c (changes_score objective entry value gone) v =
      score_changed-IsBounded s c objective entry value gone v
  mutate-IsBounded s c (displays_objective name position) v =
      objective_displayed-IsBounded s c name position v
  mutate-IsBounded s c (changes_team changed) v = team_changed-IsBounded s c changed v
  mutate-IsBounded s c (changes_advancements changed) v = v
  mutate-IsBounded s c (plays_sound sound) v = v
  mutate-IsBounded s c (receives_statistics entries) v = record {
    log = v.log;
    boss_bars = v.boss_bars;
    objectives = v.objectives;
    each = v.each;
    teams = v.teams;
  }
  mutate-IsBounded s c (shows_dialog cleared) v = record {
    log = v.log;
    boss_bars = v.boss_bars;
    objectives = v.objectives;
    each = v.each;
    teams = v.teams;
  }
  mutate-IsBounded s c (completes_tab completed) v = v

  -- From any bounded store, every history of its mutators keeps at most 256 messages, 64 boss bars,
  -- 64 objectives of at most 1,024 scores each, and 256 teams.
  pub chat_history-IsBounded :
      (s : Chat F32) (c : Events F32 F64) (history : List (Mutation F32 F64))
      → IsBounded s
      → IsBounded (chat_history s c history).0
  unfolding chat_history
  chat_history-IsBounded s c [] v = v
  chat_history-IsBounded s c (m ∷ rest) v =
      chat_history-IsBounded (mutate s c m).0 (mutate s c m).1 rest (mutate-IsBounded s c m v)
