-- ===== src/World/Chat/Bounds.antt =====
-- The bounds of world/chat.go are kept by each mutator.
pub mod Boards
pub mod Histories
use headless_minecraft.Base.{
  ◌⊎◌, ◌<◌, ℕ, ◌+◌, ◌-◌, ◌≤◌, ◌≡◌, refl, String, Bool, true, false, not, ◌&&◌, Option, some, none,
  List, [], ◌∷◌, ◌++◌, ℤ, leb, ltb, length, if◌then◌else◌, string_key, arith, Option-cases,
  Bool-cases, inl, inr, length-append, length-drop, length-keep-le, keep, drop,
}
use headless_minecraft.Base.Map
use headless_minecraft.Base.Map.{
  Map, AllValues, AllValues-insert, AllValues-delete, AllValues-lookup, size-insert, size-delete-le,
  lookup-insert_self,
}
use headless_minecraft.Event.Chat.{
  ChatTitleChanged, ChatBossBarChanged, ChatTeamsChanged, ChatAdvancementsChanged, ChatSoundPlayed,
  ChatTabCompleted,
}
use headless_minecraft.World.Chat.{
  Chat, Events, Message, BossBar, Objective, Team, new_objective, new_chat, withdraws, received,
  removed, title_changed, set_times, action_bar_changed, advancements_changed, sound_played,
  statistics_received, dialog_shown, tab_completed, max_chat_log, max_boss_bars, max_objectives,
  max_scores, max_teams,
}
use headless_minecraft.World.Chat.Boards.{
  with_health, set_bar, put_objective, boss_bar_changed, objective_changed, score_target,
  score_changed, undisplay, undisplay_all, objective_displayed, with_players, team_changed,
}

pub record ObjectiveIsBounded (o : Objective) : Type 0 where
  pub scores : Map.size o.scores ≤ max_scores

pub record IsBounded {F32 : Type 0} (s : Chat F32) : Type 0 where
  pub log : length s.log ≤ max_chat_log
  pub boss_bars : Map.size s.boss_bars ≤ max_boss_bars
  pub objectives : Map.size s.objectives ≤ max_objectives
  pub each : AllValues ObjectiveIsBounded s.objectives
  pub teams : Map.size s.teams ≤ max_teams

size-undisplay_all :
    (position : ℤ) (m : Map String Objective) → Map.size (undisplay_all position m) ≡ Map.size m
unfolding undisplay_all
size-undisplay_all position [] = refl
size-undisplay_all position ((key, o) ∷ rest) = omega (arith, size-undisplay_all position rest)

undisplay-ObjectiveIsBounded :
    (position : ℤ) (o : Objective)
    → ObjectiveIsBounded o
    → ObjectiveIsBounded (undisplay position o)
undisplay-ObjectiveIsBounded position o v = ground (arith, v.scores)

undisplay_all-AllValues :
    (position : ℤ) (m : Map String Objective)
    → AllValues ObjectiveIsBounded m
    → AllValues ObjectiveIsBounded (undisplay_all position m)
unfolding undisplay_all
undisplay_all-AllValues position [] v = tt
undisplay_all-AllValues position ((key, o) ∷ rest) v =
    (undisplay-ObjectiveIsBounded position o v.0, undisplay_all-AllValues position rest v.1)

module _ {F32 : Type 0} where
  dropped-IsBounded : (s : Chat F32) (n : ℕ) → IsBounded s → IsBounded (record s { dropped = n })
  dropped-IsBounded s n v = record {
    log = v.log;
    boss_bars = v.boss_bars;
    objectives = v.objectives;
    each = v.each;
    teams = v.teams;
  }

  put_objective-IsBounded :
      (s : Chat F32) (name : String) (o : Objective)
      → IsBounded s
      → ObjectiveIsBounded o
      → (Map.contains name s.objectives ≡ true) ⊎ (Map.size s.objectives < max_objectives)
      → IsBounded (put_objective s name o)
  put_objective-IsBounded s name o v w room = record {
    log = v.log;
    boss_bars = v.boss_bars;
    objectives = ground (arith, v.objectives, size-insert name o s.objectives, room);
    each = AllValues-insert ObjectiveIsBounded name o s.objectives v.each w;
    teams = v.teams;
  }

module _ {F32 F64 : Type 0} where
  received-IsBounded :
      (s : Chat F32) (c : Events F32 F64) (m : Message) (action_bar : Bool)
      → IsBounded s
      → IsBounded (received s c m action_bar).0
  unfolding received
  received-IsBounded s c m action_bar v = ground (
    arith,
    v.log,
    v.boss_bars,
    v.objectives,
    v.each,
    v.teams,
    length-append s.log (m ∷ []),
    length-drop (length (s.log ++ m ∷ []) - max_chat_log) (s.log ++ m ∷ []),
  )

  removed-IsBounded :
      (s : Chat F32) (c : Events F32 F64) (index : ℤ)
      → IsBounded s
      → IsBounded (removed s c index).0
  unfolding removed
  removed-IsBounded s c index v = record {
    log = omega (arith, v.log, length-keep-le (λ m. not (withdraws index m)) s.log);
    boss_bars = v.boss_bars;
    objectives = v.objectives;
    each = v.each;
    teams = v.teams;
  }

  title_changed-IsBounded :
      (s : Chat F32) (c : Events F32 F64) (changed : ChatTitleChanged)
      → IsBounded s
      → IsBounded (title_changed s c changed).0
  unfolding title_changed
  title_changed-IsBounded s c changed v =
      ground (arith, v.log, v.boss_bars, v.objectives, v.each, v.teams)
