-- ===== src/Proposals/Lifecycle/Complete.antt =====
-- The pages that `proposalHistory` of shared/model/proposal-lifecycle.js reads.
use beepa.Prelude.{
  ℕ, zero, suc, String, true, false, none, some, List, [], ◌∷◌, ◌++◌, ◌≡◌, sym, ◌∙◌, any,
  Option-cases, Bool-cases, inl, inr,
}
use mathlib.Core.Path.{subst}
use mathlib.Core.List.{append_assoc}
use beepa.Js.{Value, str, get, truthy, as_array, strictly_equal}
use beepa.Matrix.Client.{Method, ok}
use beepa.Matrix.Actions.{Action}
use beepa.Matrix.Actions.Inversion.{resume-ok, fail_never, pure-ok}
use beepa.Proposals.Lifecycle.{history_path, read_pages, proposal_history}

module _ {World : Type 0} (api : Method → String → Action World Value)
    (encode : Value → String) where
  -- The pages from a cursor on, to one that names no next page, with what they hold together.
  pub data Pages (room : String) : Value → World → World → List Value → Type 0 where
    last :
        (from data_ : Value) (w w' : World) (chunk : List Value)
        → api Method.get (history_path api encode room from) w ≡ (w', ok data_)
        → as_array (get data_ "chunk") ≡ some chunk
        → truthy (get data_ "end") ≡ false
        → Pages room from w w' chunk
    more :
        (from data_ : Value) (w w₁ w' : World) (chunk rest : List Value)
        → api Method.get (history_path api encode room from) w ≡ (w₁, ok data_)
        → as_array (get data_ "chunk") ≡ some chunk
        → truthy (get data_ "end") ≡ true
        → Pages room (get data_ "end") w₁ w' rest
        → Pages room from w w' (chunk ++ rest)

  read_pages-Pages :
      (n : ℕ) (room : String) (events cursors : List Value) (from : Value) (w w' : World)
      (all_events : List Value)
      → read_pages api encode n room events cursors from w ≡ (w', ok all_events)
      → (found : List Value) × (all_events ≡ events ++ found) × Pages room from w w' found
  unfolding read_pages
  read_pages-Pages zero room events cursors from w w' all_events h =
      fail_never w none w' all_events h
  read_pages-Pages (suc n) room events cursors from w w' all_events h =
      let (w₁, data_, answered, h₁) =
        resume-ok (api Method.get (history_path api encode room from) w) _ w' all_events h in
      elim (Option-cases (as_array (get data_ "chunk"))) [
        | inl missing ↦ fail_never w₁ none w' all_events (rw (missing) at h₁)
        | inr (chunk, found) ↦ elim (Bool-cases (truthy (get data_ "end"))) [
          | inr ended ↦
              let (at, same) =
                pure-ok w₁ (events ++ chunk) w' all_events (rw (found, ended) at h₁) in
              (
                chunk,
                same,
                subst (λ v. Pages room from w v chunk) (sym at)
                    (last from data_ w w₁ chunk answered found ended),
              )
          | inl goes_on ↦ elim (Bool-cases (any (strictly_equal (get data_ "end")) cursors)) [
            | inl repeated ↦ fail_never w₁ none w' all_events (rw (found, goes_on, repeated) at h₁)
            | inr new ↦
                let (rest, same, pages) =
                  read_pages-Pages n room (events ++ chunk) (get data_ "end" ∷ cursors)
                    (get data_ "end") w₁ w' all_events (rw (found, goes_on, new) at h₁) in
                (
                  chunk ++ rest,
                  same ∙ append_assoc events chunk rest,
                  more from data_ w w₁ w' chunk rest answered found goes_on pages,
                )
          ]
        ]
      ]

  -- A history that is returned is what all pages from the newest one on hold, down to a page that
  -- names no next one: neither a failure, nor a repeated cursor, nor the bound on the number of pages
  -- passes a part of it for the whole.
  pub proposal_history-Pages :
      (room : String) (w w' : World) (events : List Value)
      → proposal_history api encode room w ≡ (w', ok events)
      → Pages room (str "") w w' events
  unfolding proposal_history
  proposal_history-Pages room w w' events h =
      let (found, same, pages) = read_pages-Pages 100 room [] [] (str "") w w' events h in
      subst (λ es. Pages room (str "") w w' es) (sym same) pages
