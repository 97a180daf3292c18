-- ===== src/Client/Correlates.antt =====
-- Each call and each stream is given the responses to its own request.
use mathlib.Core.Path.{subst}
use kafka_a2a.Common.{String, ◌≡◌, refl, sym, ap, ◌∙◌, inl, inr, Option, some, List, [], ◌∷◌}
use kafka_a2a.Common.Dict.{lookup}
use kafka_a2a.Client.State.{Wire, ClientState, Response, deliver, consume, consume_all}
use kafka_a2a.Client.Brings.{
  grown, first_of, brought, answer, answers, Waits, Resolved, Same, deliver_self, deliver-Resolved,
  grown-grown, grown-nil, brings,
}

module _ {Raw : Type 0} (wire : Wire Raw) (id : String) where
  -- the stream of the id, after some responses more
  abbrev Streamed : List Response → ClientState Raw → ClientState Raw → Type 0
  Streamed more s s' = lookup id s'.streams ≡ grown (lookup id s.streams) more

  -- what holds of a run behind its first message holds of the run
  from_first :
      (P : List Response → ClientState Raw → Type 0) (raw : Raw) (raws : List Raw)
      (s c : ClientState Raw) (more : List Response)
      → consume wire raw s ≡ c
      → answer wire id (brought wire raw) (answers wire id raws) ≡ more
      → P more (consume_all wire raws c)
      → P (answers wire id (raw ∷ raws)) (consume_all wire (raw ∷ raws) s)
  unfolding consume_all answers
  from_first P raw raws s c more run told h =
      subst (λ l. P l (consume_all wire raws (consume wire raw s))) (sym told)
        (subst (λ x. P more (consume_all wire raws x)) (sym run) h)

  -- a response more, and then others
  then_more :
      (r : Response) (more : List Response) (o : Option (List Response))
      {o' o'' : Option (List Response)}
      → o' ≡ grown o (r ∷ [])
      → o'' ≡ grown o' more
      → o'' ≡ grown o (r ∷ more)
  then_more r more o h k = k ∙ ap (λ q. grown q more) h ∙ grown-grown wire o (r ∷ []) more

  Same-Resolved :
      {first : Response} {s s' : ClientState Raw}
      → Same wire id s s'
      → Resolved wire id first s
      → Resolved wire id first s'
  Same-Resolved same h = record {
    is_over = same.same_pending ∙ h.is_over;
    resolution = same.same_future ∙ h.resolution;
  }

  Same-Waits : {s s' : ClientState Raw} → Same wire id s s' → Waits wire id s → Waits wire id s'
  Same-Waits same h = record {
    is_pending = same.same_pending ∙ h.is_pending;
    unresolved = same.same_future ∙ h.unresolved;
  }

  Resolved-once :
      (first : Response) (raws : List Raw) (s : ClientState Raw)
      → Resolved wire id first s
      → Resolved wire id first (consume_all wire raws s)
        × (lookup id (consume_all wire raws s).streams
            ≡ grown (lookup id s.streams) (answers wire id raws))
  unfolding consume_all answers
  Resolved-once first [] s h = (h, sym (grown-nil wire (lookup id s.streams)))
  Resolved-once first (raw ∷ raws) s h = elim (brings wire id raw s) [
    | inl (r, run, told) ↦
        let (resolved, streamed) = deliver-Resolved wire id first r s h in
        let (resolved', streamed') = Resolved-once first raws (deliver wire id r s) resolved in
        from_first (λ more s'. Resolved wire id first s' × Streamed more s s') raw raws s _ _ run
          (told (answers wire id raws))
          (resolved', then_more r (answers wire id raws) (lookup id s.streams) streamed streamed')
    | inr (same, told) ↦
        let (resolved', streamed') =
          Resolved-once first raws (consume wire raw s) (Same-Resolved same h) in
        from_first (λ more s'. Resolved wire id first s' × Streamed more s s') raw raws s _ _ refl
          (told (answers wire id raws))
          (resolved', streamed' ∙ ap (λ o. grown o (answers wire id raws)) same.same_stream)
  ]

  -- A request that waits, after any messages of the reply topic: its future is done with the first
  -- response to it, and with no later one, or still waits if there was none; and where it has a
  -- stream, all the responses to it, in their order, and no others, were added to the stream's queue.
  -- The responses to it are the messages that decode, have its id and hold a valid response.
  pub consume_all-Correlates :
      (raws : List Raw) (s : ClientState Raw)
      → Waits wire id s
      → (lookup id (consume_all wire raws s).futures ≡ some (first_of (answers wire id raws)))
        × (lookup id (consume_all wire raws s).streams
            ≡ grown (lookup id s.streams) (answers wire id raws))
  unfolding consume_all answers
  consume_all-Correlates [] s h = (h.unresolved, sym (grown-nil wire (lookup id s.streams)))
  consume_all-Correlates (raw ∷ raws) s h = elim (brings wire id raw s) [
    | inl (r, run, told) ↦
        let (resolved, streamed) = deliver_self wire id r s h in
        let (resolved', streamed') = Resolved-once r raws (deliver wire id r s) resolved in
        from_first (λ more s'. (lookup id s'.futures ≡ some (first_of more)) × Streamed more s s')
          raw raws s _ _ run (told (answers wire id raws))
          (
            resolved'.resolution,
            then_more r (answers wire id raws) (lookup id s.streams) streamed streamed',
          )
    | inr (same, told) ↦
        let (future, streamed') =
          consume_all-Correlates raws (consume wire raw s) (Same-Waits same h) in
        from_first (λ more s'. (lookup id s'.futures ≡ some (first_of more)) × Streamed more s s')
          raw raws s _ _ refl (told (answers wire id raws))
          (future, streamed' ∙ ap (λ o. grown o (answers wire id raws)) same.same_stream)
  ]
