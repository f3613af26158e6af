-- ===== src/Client/Net/Recorded.antt =====
-- The client records what each snapshot shows of each player: `updatePlayers` of
-- internal/client/net/handlers.go keeps a history of each, and forgets who is not shown.
use lodeen.Protocol.Messages.{PlayerState}
use lodeen.Base.Map.{
  Map, lookup, AllValues, IsMap, insert-IsMap, insert-AllValues, lookup-AllValues,
}
use lodeen.Base.{
  ℕ, ◌≤◌, ◌≡◌, arith, List, [], ◌∷◌, ◌++◌, String, none, inl, inr, eq_iff, if◌then◌else◌,
  length-append, Bool-cases, Option-cases,
}
use lodeen.Client.Net.{
  TimedState, keep_last, Client, history_of, update_player, update_each, forget_unseen, seen,
  update_players,
}
use lodeen.Client.Net.History.{
  Rises-append, IsPast-append, IsPast-later, IsHistory, keep_last-IsHistory,
}

module _ {F : Type 0} where
  -- Histories that were recorded, each player's once.
  pub record IsRecorded (now : ℕ) (players : Map (List (TimedState F))) : Type 0 where
    pub once : IsMap players
    pub histories : AllValues (IsHistory now) players

  -- A state that arrives now is recorded after the others.
  record-IsHistory :
      (now : ℕ) (id : String) (players : Map (List (TimedState F))) (p : PlayerState F)
      → AllValues (IsHistory now) players
      → IsHistory now (keep_last (history_of id players ++ record { state = p; at = now } ∷ []))
  unfolding history_of keep_last
  record-IsHistory now id players p h =
      let s : TimedState F = record { state = p; at = now } in
      elim (Option-cases (lookup id players)) [
        | inl e ↦
            rw (e, history_of)
              (keep_last-IsHistory now (s ∷ []) (omega arith) (omega arith, tt) (omega arith, tt))
        | inr (hist, e) ↦
            let old = lookup-AllValues (IsHistory now) id hist players h e in
            rw (e, history_of)
              (keep_last-IsHistory now (hist ++ s ∷ []) (omega (arith, length-append hist (s ∷ [])))
                (Rises-append now 0 hist s old.ordered old.past (omega arith) (omega arith))
                (IsPast-append now hist s old.past (omega arith)))
      ]

  IsHistory-later :
      (now later : ℕ) (players : Map (List (TimedState F)))
      → now ≤ later
      → AllValues (IsHistory now) players
      → AllValues (IsHistory later) players
  IsHistory-later now later [] h p = tt
  IsHistory-later now later ((id, hist) ∷ players) h p = (
    record {
      some_state = p.0.some_state;
      few_states = p.0.few_states;
      ordered = p.0.ordered;
      past = IsPast-later now later hist h p.0.past;
    },
    IsHistory-later now later players h p.1,
  )

  pub IsRecorded-later :
      {now later : ℕ} {players : Map (List (TimedState F))}
      → now ≤ later
      → IsRecorded now players
      → IsRecorded later players
  IsRecorded-later {now} {later} {players} h r = record {
    once = r.once;
    histories = IsHistory-later now later players h r.histories;
  }

  update_each-IsRecorded :
      (now : ℕ) (players : List (PlayerState F)) (c : Client F)
      → IsRecorded now c.players
      → IsRecorded now (update_each now players c).players
  unfolding update_each update_player
  update_each-IsRecorded now [] c r = r
  update_each-IsRecorded now (p ∷ players) c r =
      let added = record-IsHistory now p.id c.players p r.histories in
      update_each-IsRecorded now players (update_player now p c) record {
        once = insert-IsMap p.id _ c.players r.once;
        histories = insert-AllValues (IsHistory now) p.id _ c.players r.histories added;
      }

  pub lookup-forget_unseen {ℓ} :
      {A : Type ℓ} (players : List (PlayerState F)) (id : String) (known : Map A)
      → lookup id (forget_unseen players known)
        ≡ (if seen players id then lookup id known else none)
  unfolding forget_unseen lookup
  lookup-forget_unseen players id [] = ground arith
  lookup-forget_unseen players id ((other, hist) ∷ known) =
      ground (arith, eq_iff other id, lookup-forget_unseen players id known)

  forget_unseen-IsRecorded :
      (now : ℕ) (players : List (PlayerState F)) (known : Map (List (TimedState F)))
      → IsRecorded now known
      → IsRecorded now (forget_unseen players known)
  unfolding forget_unseen
  forget_unseen-IsRecorded now players [] r = r
  forget_unseen-IsRecorded now players ((id, hist) ∷ known) r =
      let rest =
        forget_unseen-IsRecorded now players known
          (record { once = r.once.1; histories = r.histories.1 }) in
      elim (Bool-cases (seen players id)) [
        | inl e ↦ rw e record {
          once = (rw (lookup-forget_unseen players id known) (rw e r.once.0), rest.once);
          histories = (r.histories.0, rest.histories);
        }
        | inr e ↦ rw e rest
      ]

  -- A snapshot keeps the record of histories, at the time of its arrival.
  pub update_players-IsRecorded :
      (now : ℕ) (players : List (PlayerState F)) (c : Client F)
      → IsRecorded now c.players
      → IsRecorded now (update_players now players c).players
  unfolding update_players
  update_players-IsRecorded now players c r =
      forget_unseen-IsRecorded now players _ (update_each-IsRecorded now players c r)
