-- ===== src/World/Chat/Tests.antt =====
-- Concrete runs of world/chat.go, with numbers for floats.
use headless_minecraft.Base.{
  ℕ, ◌+◌, ◌-◌, ◌≡◌, Bool, true, false, List, [], ◌∷◌, ◌++◌, pos, length, drop, arith,
}
use headless_minecraft.Event.{new_collector}
use headless_minecraft.World.Chat.{Chat, Message, Events, new_chat, max_chat_log}
use headless_minecraft.World.Chat.Bounds.{IsBounded}
use headless_minecraft.World.Chat.Bounds.Histories.{
  Mutation, receives, changes_boss_bar, changes_score, displays_objective, changes_team,
  chat_history, chat_history-IsBounded,
}
use headless_minecraft.World.Chat.Log.{received_all, messages, log-received_all}

abbrev hello : Message
hello = record {
  kind = "player";
  text = "hello";
  sender = "a1";
  index = pos 7;
  index_known = true;
  signed = false;
}

abbrev empty : Chat ℕ
empty = new_chat

abbrev no_events : Events ℕ ℕ
no_events = new_collector

abbrev history : List (Mutation ℕ ℕ)
history =
    receives hello false
    ∷ changes_boss_bar (record { uuid = "w"; removed = false; health = 1; health_known = true })
    ∷ changes_score "kills" "Steve" (pos 3) false
    ∷ displays_objective "kills" (pos 1)
    ∷ changes_team
        (record { team = "red"; mode = "add"; players = "Steve" ∷ "Alex" ∷ []; removed = false })
    ∷ []

chat_history-IsBounded_example : IsBounded (chat_history 0 empty no_events history).0
chat_history-IsBounded_example = chat_history-IsBounded 0 empty no_events history (record {
  log = omega arith;
  boss_bars = omega arith;
  objectives = omega arith;
  each = tt;
  teams = omega arith;
})

log-received_all_example :
    let ms : List (Message × Bool) = (hello, false) ∷ (hello, true) ∷ [] in
    ((received_all empty no_events ms).0.log
      ≡ drop (length empty.log + length ms - max_chat_log) (empty.log ++ messages ms))
    × ((received_all empty no_events ms).0.dropped_chat
        ≡ empty.dropped_chat + (length empty.log + length ms - max_chat_log))
log-received_all_example =
    log-received_all empty no_events ((hello, false) ∷ (hello, true) ∷ []) (omega arith)
