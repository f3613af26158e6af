-- ===== src/Client/Chat/Lines.antt =====
-- What the chat window shows and sends.
use mathlib.Core.List.{append-nil, append_assoc}
use lodeen.Base.{
  ℕ, zero, suc, ◌+◌, ◌-◌, ◌≤◌, ◌<◌, ◌≡◌, refl, sym, ap, ◌∙◌, arith, ◌&&◌, ◌||◌, List, [], ◌∷◌, ◌++◌,
  Option, none, some, inl, inr, length, take, drop, ltb, leb, if◌then◌else◌, All, length-append,
  Bool-cases,
}
use lodeen.Protocol.Messages.{ChatMessage}
use lodeen.Client.Chat.{
  Chat, Typed, max_lines, max_input, push_line, push, cancel, type_all, rub_out, update, drain_chat,
}

module _ {ℓ} {A : Type ℓ} where
  -- The last entries, `max_lines` at most.
  abbrev pub last_lines : List A → List A
  last_lines xs = drop (length xs - max_lines) xs

  length-drop : (n : ℕ) (xs : List A) → length (drop n xs) ≡ length xs - n
  length-drop zero xs = omega arith
  length-drop (suc n) [] = omega arith
  length-drop (suc n) (x ∷ xs) = omega (arith, length-drop n xs)

  drop-append : (n : ℕ) (xs ys : List A) → n ≤ length xs → drop n (xs ++ ys) ≡ drop n xs ++ ys
  drop-append zero xs ys h = refl
  drop-append (suc n) [] ys h = absurd (omega arith)
  drop-append (suc n) (x ∷ xs) ys h = drop-append n xs ys (omega arith)

  drop-nil : (n : ℕ) → drop {A = A} n [] ≡ []
  drop-nil zero = refl
  drop-nil (suc n) = refl

  drop-drop : (m n : ℕ) (xs : List A) → drop m (drop n xs) ≡ drop (n + m) xs
  drop-drop m zero xs = ap (λ (k : ℕ). drop k xs) (omega arith)
  drop-drop m (suc n) [] = drop-nil m ∙ sym (drop-nil (suc n + m))
  drop-drop m (suc n) (x ∷ xs) =
      let e : suc (n + m) ≡ suc n + m = omega arith in
      drop-drop m n xs ∙ ap (λ (k : ℕ). drop k (x ∷ xs)) e

  last_lines-append : (xs ys : List A) → last_lines (last_lines xs ++ ys) ≡ last_lines (xs ++ ys)
  last_lines-append xs ys =
      let n = length xs - max_lines in
      let m = length (drop n xs ++ ys) - max_lines in
      ap (drop m) (sym (drop-append n xs ys (omega arith)))
      ∙ drop-drop m n (xs ++ ys)
      ∙ ap (λ (k : ℕ). drop k (xs ++ ys))
          (omega (arith, length-append (drop n xs) ys, length-append xs ys, length-drop n xs))

push_line-last :
    (m : ChatMessage) (lines : List ChatMessage) → push_line m lines ≡ last_lines (lines ++ m ∷ [])
unfolding push_line
push_line-last m lines =
    let longer = lines ++ m ∷ [] in
    elim (Bool-cases (ltb max_lines (length longer))) [
      | inl long ↦ rw long refl
      | inr short ↦
          let e : 0 ≡ length longer - max_lines = ground arith in
          rw short (ap (λ (k : ℕ). drop k longer) e)
    ]

last_lines-short : (lines : List ChatMessage) → length lines ≤ max_lines → lines ≡ last_lines lines
last_lines-short lines h =
    let e : 0 ≡ length lines - max_lines = omega arith in ap (λ (k : ℕ). drop k lines) e

drain_chat-from :
    (ms : List ChatMessage) (c : Chat) (lines : List ChatMessage)
    → c.lines ≡ last_lines lines
    → (drain_chat ms c).lines ≡ last_lines (lines ++ ms)
unfolding drain_chat push
drain_chat-from [] c lines e =
    e ∙ ap (λ (l : List ChatMessage). last_lines l) (sym (append-nil lines))
drain_chat-from (m ∷ ms) c lines e =
    drain_chat-from ms (push m c) (lines ++ m ∷ []) (
      push_line-last m c.lines
      ∙ ap (λ (l : List ChatMessage). last_lines (l ++ m ∷ [])) e
      ∙ last_lines-append lines (m ∷ []))
    ∙ ap (λ (l : List ChatMessage). last_lines l) (append_assoc lines (m ∷ []) ms)

-- However many messages wait, the window shows the last eight of the lines that it showed and of
-- those messages together, in their order.
pub drain_chat-last :
    (ms : List ChatMessage) (c : Chat)
    → length c.lines ≤ max_lines
    → (drain_chat ms c).lines ≡ last_lines (c.lines ++ ms)
drain_chat-last ms c h = drain_chat-from ms c c.lines (last_lines-short c.lines h)

-- Every byte is a printable character of ASCII.
abbrev pub IsPrintable : List ℕ → Type 0
IsPrintable = All (λ ch. (32 ≤ ch) × (ch < 127))

pub record IsInput (input : List ℕ) : Type 0 where
  pub fits : length input ≤ max_input
  pub printable : IsPrintable input

IsPrintable-append :
    (input : List ℕ) (ch : ℕ)
    → IsPrintable input
    → 32 ≤ ch
    → ch < 127
    → IsPrintable (input ++ ch ∷ [])
IsPrintable-append [] ch p h k = ((h, k), tt)
IsPrintable-append (c ∷ input) ch p h k = (p.0, IsPrintable-append input ch p.1 h k)

IsPrintable-take : (n : ℕ) (input : List ℕ) → IsPrintable input → IsPrintable (take n input)
IsPrintable-take zero input p = tt
IsPrintable-take (suc n) [] p = tt
IsPrintable-take (suc n) (c ∷ input) p = (p.0, IsPrintable-take n input p.1)

length-take : (n : ℕ) (input : List ℕ) → length (take n input) ≤ length input
length-take zero input = omega arith
length-take (suc n) [] = omega arith
length-take (suc n) (c ∷ input) = omega (arith, length-take n input)

type_all-IsInput : (chs input : List ℕ) → IsInput input → IsInput (type_all chs input)
unfolding type_all
type_all-IsInput [] input v = v
type_all-IsInput (ch ∷ chs) input v =
    elim (Bool-cases (leb 32 ch && ltb ch 127 && ltb (length input) max_input)) [
      | inl fits ↦ rw fits (
          type_all-IsInput chs (input ++ ch ∷ []) record {
            fits = ground (arith, length-append input (ch ∷ []));
            printable = IsPrintable-append input ch v.printable (ground arith) (ground arith);
          })
      | inr full ↦ rw full (type_all-IsInput chs input v)
    ]

rub_out-IsInput : (input : List ℕ) → IsInput input → IsInput (rub_out input)
unfolding rub_out
rub_out-IsInput input v = elim (Bool-cases (ltb 0 (length input))) [
  | inl some_byte ↦ rw some_byte record {
    fits = ground (arith, length-take (length input - 1) input);
    printable = IsPrintable-take (length input - 1) input v.printable;
  }
  | inr empty ↦ rw empty v
]

-- What is sent, if anything.
abbrev pub IsSentInput : Option (List ℕ) → Type 0
IsSentInput none = Unit
IsSentInput (some text) = IsInput text

-- The editing of a frame.
edit-IsInput :
    (t : Typed) (input : List ℕ)
    → IsInput input
    → IsInput
        (if t.backspace then rub_out (type_all t.characters input) else type_all t.characters input)
edit-IsInput t input v =
    let typed = type_all-IsInput t.characters input v in
    elim (Bool-cases t.backspace) [
      | inl back ↦ rw back (rub_out-IsInput (type_all t.characters input) typed)
      | inr keep ↦ rw keep typed
    ]

-- A frame of typing keeps the input printable and no longer than 200 bytes, and so is a text that
-- it sends.
pub update-IsInput :
    (t : Typed) (c : Chat)
    → IsInput c.input
    → IsInput (update t c).0.input × IsSentInput (update t c).1
unfolding update cancel
update-IsInput t c v =
    let edited = edit-IsInput t c.input v in
    let nothing : IsInput [] = record { fits = omega arith; printable = tt } in
    elim (Bool-cases c.is_open) [
      | inr shut ↦ rw shut (v, tt)
      | inl shown ↦ elim (Bool-cases (t.enter || t.keypad_enter)) [
        | inl sends ↦ rw shown (rw sends (nothing, edited))
        | inr types ↦ elim (Bool-cases t.escape) [
          | inl leaves ↦ rw shown (rw types (rw leaves (nothing, tt)))
          | inr stays ↦ rw shown (rw types (rw stays (edited, tt)))
        ]
      ]
    ]
