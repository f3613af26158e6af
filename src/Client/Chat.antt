-- ===== src/Client/Chat.antt =====
-- The chat window: internal/client/chat/chat.go, without its drawing. The input is the list of its
-- bytes.
pub mod Lines
use lodeen.Base.{
  ℕ, zero, suc, ◌-◌, Bool, true, false, not, ◌&&◌, ◌||◌, List, [], ◌∷◌, ◌++◌, Option, none, some,
  length, take, drop, ltb, leb, if◌then◌else◌,
}
use lodeen.Protocol.Messages.{ChatMessage}

pub record Chat : Type 0 where
  pub lines : List ChatMessage
  pub input : List ℕ
  pub is_open : Bool

abbrev pub max_lines : ℕ
max_lines = 8

abbrev pub max_input : ℕ
max_input = 200

-- What is pressed in a frame: the characters in their order, and the keys.
pub record Typed : Type 0 where
  pub characters : List ℕ
  pub backspace : Bool
  pub enter : Bool
  pub keypad_enter : Bool
  pub escape : Bool

-- `New`
unfoldable pub new_chat : Chat
new_chat = record { lines = []; input = []; is_open = false }

-- The lines after one more.
unfoldable pub push_line : ChatMessage → List ChatMessage → List ChatMessage
push_line m lines =
    let longer = lines ++ m ∷ [] in
    if ltb max_lines (length longer) then drop (length longer - max_lines) longer else longer

unfoldable pub push : ChatMessage → Chat → Chat
unfolding push_line
push m c = record c { lines = push_line m c.lines }

unfoldable pub begin : Chat → Chat
begin c = record c { is_open = true; input = [] }

unfoldable pub begin_with : List ℕ → Chat → Chat
begin_with prefix c = record c { is_open = true; input = prefix }

unfoldable pub cancel : Chat → Chat
cancel c = record c { is_open = false; input = [] }

-- The loop over the characters.
unfoldable pub type_all : List ℕ → List ℕ → List ℕ
type_all [] input = input
type_all (ch ∷ chs) input =
    let fits = leb 32 ch && ltb ch 127 && ltb (length input) max_input in
    type_all chs (if fits then input ++ ch ∷ [] else input)

unfoldable pub rub_out : List ℕ → List ℕ
rub_out input = if ltb 0 (length input) then take (length input - 1) input else input

-- The text that was sent, if any.
unfoldable pub update : Typed → Chat → Chat × Option (List ℕ)
unfolding type_all rub_out cancel
update t c =
    let typed = type_all t.characters c.input in
    let input = if t.backspace then rub_out typed else typed in
    let edited : Chat = record c { input = input } in
    if not c.is_open
    then (c, none)
    else if t.enter || t.keypad_enter
    then (cancel edited, some input)
    else ((if t.escape then cancel edited else edited), none)

-- `drainChat` of internal/client/app/update.go: all messages that wait in the channel.
unfoldable pub drain_chat : List ChatMessage → Chat → Chat
unfolding push
drain_chat [] c = c
drain_chat (m ∷ ms) c = drain_chat ms (push m c)
