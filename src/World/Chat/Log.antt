-- ===== src/World/Chat/Log.antt =====
-- The message log of world/chat.go.
use headless_minecraft.Base.{
  ℕ, zero, suc, ◌+◌, ◌-◌, ◌≤◌, ◌≡◌, refl, sym, ap, ◌∙◌, Bool, List, [], ◌∷◌, ◌++◌, ltb, length,
  drop, length-append, length-drop, arith, inl, inr, Bool-cases,
}
use headless_minecraft.World.Chat.{Chat, Message, Events, received, max_chat_log}

drop-append {ℓ} :
    {A : Type ℓ} (n : ℕ) (xs ys : List A) → n ≤ length xs → drop n (xs ++ ys) ≡ drop n xs ++ ys
drop-append zero xs ys h = refl
drop-append (suc n) [] ys h = absurd (omega arith)
drop-append (suc n) (x ∷ xs) ys h = drop-append n xs ys (omega arith)

drop_nothing {ℓ} : {A : Type ℓ} (m : ℕ) → drop {A = A} m [] ≡ []
drop_nothing zero = refl
drop_nothing (suc m) = refl

suc_sum : (n m : ℕ) → suc (n + m) ≡ suc n + m
suc_sum n m = omega arith

drop-drop {ℓ} : {A : Type ℓ} (m n : ℕ) (xs : List A) → drop m (drop n xs) ≡ drop (n + m) xs
drop-drop m zero xs = ap (λ k. drop k xs) (omega arith)
drop-drop m (suc n) [] = drop_nothing m ∙ sym (drop_nothing (suc n + m))
drop-drop m (suc n) (x ∷ xs) = drop-drop m n xs ∙ ap (λ k. drop k (x ∷ xs)) (suc_sum n m)

append_one {ℓ} : {A : Type ℓ} (xs zs : List A) (x : A) → (xs ++ x ∷ []) ++ zs ≡ xs ++ x ∷ zs
append_one [] zs x = refl
append_one (y ∷ xs) zs x = ap (◌∷◌ y) (append_one xs zs x)

append_nil {ℓ} : {A : Type ℓ} (xs : List A) → xs ++ [] ≡ xs
append_nil [] = refl
append_nil (x ∷ xs) = ap (◌∷◌ x) (append_nil xs)

abbrev pub messages : List (Message × Bool) → List Message
messages [] = []
messages ((m, action_bar) ∷ rest) = m ∷ messages rest

module _ {F32 F64 : Type 0} where
  pub received_all : Chat F32 → Events F32 F64 → List (Message × Bool) → Chat F32 × Events F32 F64
  received_all s c [] = (s, c)
  received_all s c ((m, action_bar) ∷ rest) =
      received_all (received s c m action_bar).0 (received s c m action_bar).1 rest

  log-received :
      (s : Chat F32) (c : Events F32 F64) (m : Message) (action_bar : Bool)
      → (received s c m action_bar).0.log ≡ drop (length s.log + 1 - max_chat_log) (s.log ++ m ∷ [])
  unfolding received
  log-received s c m action_bar = elim (Bool-cases (ltb max_chat_log (length (s.log ++ m ∷ [])))) [
    | inl full ↦ rw full (rw (length-append s.log (m ∷ [])) refl)
    | inr room ↦
        let none_over : 0 ≡ length s.log + 1 - max_chat_log =
          ground (arith, room, length-append s.log (m ∷ [])) in
        rw room (ap (λ k. drop k (s.log ++ m ∷ [])) none_over)
  ]

  dropped_chat-received :
      (s : Chat F32) (c : Events F32 F64) (m : Message) (action_bar : Bool)
      → length s.log ≤ max_chat_log
      → (received s c m action_bar).0.dropped_chat
        ≡ s.dropped_chat + (length s.log + 1 - max_chat_log)
  unfolding received
  dropped_chat-received s c m action_bar h = ground (arith, length-append s.log (m ∷ []))

  -- Over any run of messages the log keeps the last 256 of the old ones and the new ones together, in
  -- their order, and counts the others.
  pub log-received_all :
      (s : Chat F32) (c : Events F32 F64) (ms : List (Message × Bool))
      → length s.log ≤ max_chat_log
      → ((received_all s c ms).0.log
          ≡ drop (length s.log + length ms - max_chat_log) (s.log ++ messages ms))
        × ((received_all s c ms).0.dropped_chat
            ≡ s.dropped_chat + (length s.log + length ms - max_chat_log))
  unfolding received_all
  log-received_all s c [] h =
      let none_over : 0 ≡ length s.log + 0 - max_chat_log = omega arith in
      (sym (append_nil s.log) ∙ ap (λ k. drop k (s.log ++ [])) none_over, omega arith)
  log-received_all s c ((m, action_bar) ∷ rest) h =
      let t = received s c m action_bar in
      let log = log-received s c m action_bar in
      let over = length s.log + 1 - max_chat_log in
      let size : length t.0.log ≡ length s.log + 1 - over =
        ap length log
        ∙ length-drop over (s.log ++ m ∷ [])
        ∙ ap (λ k. k - over) (length-append s.log (m ∷ [])) in
      let (tail, lost) = log-received_all t.0 t.1 rest (omega (arith, size)) in
      let k = length t.0.log + length rest - max_chat_log in
      let all : over + k ≡ length s.log + suc (length rest) - max_chat_log = omega (arith, size) in
      (
        tail
            ∙ ap (λ l. drop k (l ++ messages rest)) log
            ∙ ap (drop k) (
                sym (
                  drop-append over (s.log ++ m ∷ []) (messages rest)
                    (omega (arith, length-append s.log (m ∷ [])))))
            ∙ drop-drop k over ((s.log ++ m ∷ []) ++ messages rest)
            ∙ ap (λ n. drop n ((s.log ++ m ∷ []) ++ messages rest)) all
            ∙ ap (drop (length s.log + suc (length rest) - max_chat_log))
                (append_one s.log (messages rest) m),
        omega (arith, lost, size, dropped_chat-received s c m action_bar h),
      )
