-- ===== src/Client/Net/View.antt =====
-- What a client sees of the players after a snapshot is what the server held when it was taken:
-- `collectSnapshot` of internal/server/net and `handleSnapshot` of internal/client/net together.
use mathlib.Core.Path.{fun_ext}
use lodeen.Protocol.Messages.{PlayerState, snapshot}
use lodeen.Client.Net.{
  Client, TimedState, history_of, update_player, update_each, seen, update_players, keep_last,
  max_history_states, handle, handle_snapshot,
}
use lodeen.Base.Map.{Map, lookup, IsMap, lookup-insert}
use lodeen.Base.{
  ℕ, zero, suc, ◌-◌, ◌<◌, ◌≡◌, refl, ◌∙◌, arith, String, true, false, List, [], ◌∷◌, ◌++◌, Option,
  none, some, ◌==◌, eq_iff, length, drop, if◌then◌else◌,
}
use mathlib.Core.Option
use lodeen.Client.Net.Recorded.{lookup-forget_unseen}
use lodeen.Server.Snapshot.{collect_all, show_player, collect_snapshot}
use lodeen.Server.State

-- The newest of a history, of a list of states and of a map of histories.
module _ {F : Type 0} where
  unfoldable pub last_state : List (TimedState F) → Option (PlayerState F)
  last_state [] = none
  last_state (s ∷ hist) =
      let rest = last_state hist in elim rest [ none ↦ some s.state | some p ↦ some p ]

  unfoldable pub latest : Map (List (TimedState F)) → String → Option (PlayerState F)
  unfolding last_state
  latest players id = elim (lookup id players) [ none ↦ none | some hist ↦ last_state hist ]

  find_last : List (PlayerState F) → String → Option (PlayerState F)
  find_last [] id = none
  find_last (p ∷ players) id = elim (find_last players id) [
    | some q ↦ some q
    | none ↦ if p.id == id then some p else none
  ]

  last_state-append :
      (hist : List (TimedState F)) (s : TimedState F) → last_state (hist ++ s ∷ []) ≡ some s.state
  unfolding last_state
  last_state-append [] s = refl
  last_state-append (t ∷ hist) s = rw (last_state-append hist s) refl

  last_state-drop :
      (n : ℕ) (hist : List (TimedState F))
      → n < length hist
      → last_state (drop n hist) ≡ last_state hist
  unfolding last_state
  last_state-drop zero hist h = refl
  last_state-drop (suc n) [] h = absurd (omega arith)
  last_state-drop (suc n) (s ∷ []) h = absurd (omega arith)
  last_state-drop (suc n) (s ∷ t ∷ hist) h =
      ground (arith, last_state-drop n (t ∷ hist) (omega arith))

  last_state-keep_last :
      (hist : List (TimedState F)) (s : TimedState F)
      → last_state (keep_last (hist ++ s ∷ [])) ≡ some s.state
  unfolding keep_last
  last_state-keep_last hist s = ground (
    arith,
    last_state-append hist s,
    last_state-drop (length (hist ++ s ∷ []) - max_history_states) (hist ++ s ∷ []),
  )

  latest-update_player :
      (now : ℕ) (p : PlayerState F) (c : Client F) (id : String)
      → latest (update_player now p c).players id
        ≡ (if p.id == id then some p else latest c.players id)
  unfolding latest update_player
  latest-update_player now p c id =
      let s : TimedState F = record { state = p; at = now } in
      let hist = history_of p.id c.players in
      ground (
        arith,
        lookup-insert p.id id (keep_last (hist ++ s ∷ [])) c.players,
        last_state-keep_last hist s,
      )

  latest-update_each :
      (now : ℕ) (players : List (PlayerState F)) (c : Client F) (id : String)
      → latest (update_each now players c).players id
        ≡ elim (find_last players id) [ some q ↦ some q | none ↦ latest c.players id ]
  unfolding update_each find_last
  latest-update_each now [] c id = refl
  latest-update_each now (p ∷ players) c id =
      latest-update_each now players (update_player now p c) id
      ∙ ground (arith, latest-update_player now p c id)

  seen-find_last :
      (players : List (PlayerState F)) (id : String)
      → seen players id ≡ elim (find_last players id) [ some _ ↦ true | none ↦ false ]
  unfolding seen find_last
  seen-find_last [] id = refl
  seen-find_last (p ∷ players) id = ground (arith, seen-find_last players id)

  latest-update_players :
      (now : ℕ) (players : List (PlayerState F)) (c : Client F) (id : String)
      → latest (update_players now players c).players id ≡ find_last players id
  unfolding update_players latest
  latest-update_players now players c id = ground (
    arith,
    lookup-forget_unseen players id (update_each now players c).players,
    seen-find_last players id,
    latest-update_each now players c id,
  )

  -- Each client is registered under the identifier in its state.
  abbrev pub IsKeyed : Map (State.Client F) → Type 0
  IsKeyed [] = Unit {0}
  IsKeyed ((id, c) ∷ clients) = (c.state.id ≡ id) × IsKeyed clients

  find_last-collect_all :
      (clients : Map (State.Client F)) (id : String)
      → IsMap clients
      → IsKeyed clients
      → find_last (collect_all show_player clients) id ≡ Option.map show_player (lookup id clients)
  unfolding find_last collect_all lookup show_player
  find_last-collect_all [] id m k = refl
  find_last-collect_all ((other, c) ∷ clients) id m k =
      ground
        (arith, eq_iff other id, eq_iff c.state.id id, find_last-collect_all clients id m.1 k.1)

  -- After a snapshot arrives, the newest state that the client shows of each player is the state
  -- and hunger of that player on the server, and who is not connected there is not shown: as
  -- functions of the identifier the two views are equal. Each server record stands once, under the
  -- identifier in its state.
  pub handle_snapshot-refines :
      (now : ℕ) (s : State.Server F) (c : Client F)
      → IsMap s.clients
      → IsKeyed s.clients
      → latest (handle now (snapshot (collect_snapshot s)) c).players
        ≡ (λ id. Option.map show_player (lookup id s.clients))
  unfolding handle handle_snapshot collect_snapshot
  handle_snapshot-refines now s c m k = fun_ext λ id.
      latest-update_players now (collect_all show_player s.clients) c id
      ∙ find_last-collect_all s.clients id m k
