-- ===== src/Client/Net/History.antt =====
-- What the client remembers of each player: at most the last twenty states, at least one, in the
-- order of their arrival, none later than the clock.
use lodeen.Base.{
  ℕ, zero, suc, ◌-◌, ◌≤◌, ◌<◌, ◌≡◌, arith, List, [], ◌∷◌, ◌++◌, length, drop, All, inl, inr, ltb,
  Bool-cases,
}
use lodeen.Client.Net.{TimedState, max_history_states, keep_last}

module _ {F : Type 0} where
  -- Times do not fall along the list, and none is below `low`.
  abbrev pub Rises : ℕ → List (TimedState F) → Type 0
  Rises low [] = Unit {0}
  Rises low (s ∷ hist) = (low ≤ s.at) × Rises s.at hist

  -- No time is above `now`.
  abbrev pub IsPast : ℕ → List (TimedState F) → Type 0
  IsPast now = All (λ s. s.at ≤ now)

  pub record IsHistory (now : ℕ) (hist : List (TimedState F)) : Type 0 where
    pub some_state : 0 < length hist
    pub few_states : length hist ≤ max_history_states
    pub ordered : Rises 0 hist
    pub past : IsPast now hist

  pub Rises-append :
      (now low : ℕ) (hist : List (TimedState F)) (s : TimedState F)
      → Rises low hist
      → IsPast now hist
      → now ≤ s.at
      → low ≤ now
      → Rises low (hist ++ s ∷ [])
  Rises-append now low [] s r p h k = (omega arith, tt)
  Rises-append now low (t ∷ hist) s r p h k = (r.0, Rises-append now t.at hist s r.1 p.1 h p.0)

  pub IsPast-append :
      (now : ℕ) (hist : List (TimedState F)) (s : TimedState F)
      → IsPast now hist
      → s.at ≤ now
      → IsPast now (hist ++ s ∷ [])
  IsPast-append now [] s p h = (h, tt)
  IsPast-append now (t ∷ hist) s p h = (p.0, IsPast-append now hist s p.1 h)

  pub IsPast-later :
      (now later : ℕ) (hist : List (TimedState F))
      → now ≤ later
      → IsPast now hist
      → IsPast later hist
  IsPast-later now later [] h p = tt
  IsPast-later now later (t ∷ hist) h p = (omega arith, IsPast-later now later hist h p.1)

  Rises-lower :
      (low other : ℕ) (hist : List (TimedState F)) → other ≤ low → Rises low hist → Rises other hist
  Rises-lower low other [] h r = tt
  Rises-lower low other (t ∷ hist) h r = (omega arith, r.1)

  Rises-drop : (n : ℕ) (hist : List (TimedState F)) → Rises 0 hist → Rises 0 (drop n hist)
  Rises-drop zero hist r = r
  Rises-drop (suc n) [] r = tt
  Rises-drop (suc n) (t ∷ hist) r = Rises-drop n hist (Rises-lower t.at 0 hist (omega arith) r.1)

  IsPast-drop :
      (now n : ℕ) (hist : List (TimedState F)) → IsPast now hist → IsPast now (drop n hist)
  IsPast-drop now zero hist p = p
  IsPast-drop now (suc n) [] p = tt
  IsPast-drop now (suc n) (t ∷ hist) p = IsPast-drop now n hist p.1

length-drop {ℓ} : {A : Type ℓ} (n : ℕ) (xs : List A) → length (drop n xs) ≡ length xs - n
length-drop zero xs = omega arith
length-drop (suc n) [] = omega arith
length-drop (suc n) (x ∷ xs) = omega (arith, length-drop n xs)

pub length-keep_last {ℓ} :
    {A : Type ℓ} (xs : List A)
    → 0 < length xs
    → (0 < length (keep_last xs)) × (length (keep_last xs) ≤ max_history_states)
unfolding keep_last
length-keep_last xs h = ground (arith, length-drop (length xs - max_history_states) xs)

module _ {F : Type 0} where
  -- The newest states of a list of past states in order are a history.
  pub keep_last-IsHistory :
      (now : ℕ) (xs : List (TimedState F))
      → 0 < length xs
      → Rises 0 xs
      → IsPast now xs
      → IsHistory now (keep_last xs)
  unfolding keep_last
  keep_last-IsHistory now xs h r p = elim (Bool-cases (ltb max_history_states (length xs))) [
    | inl long ↦ rw long record {
      some_state = ground (arith, length-drop (length xs - max_history_states) xs);
      few_states = ground (arith, length-drop (length xs - max_history_states) xs);
      ordered = Rises-drop (length xs - max_history_states) xs r;
      past = IsPast-drop now (length xs - max_history_states) xs p;
    }
    | inr short ↦
        rw short record { some_state = h; few_states = ground arith; ordered = r; past = p }
  ]
