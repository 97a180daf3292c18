-- ===== src/Client/StreamLaws.antt =====
-- What the iterator of a stream yields, and where it stops.
use kafka_a2a.Common.{
  String, ◌≡◌, refl, ap, ◌∙◌, true, false, none, some, List, [], ◌∷◌, ◌++◌, is_some, eq_refl,
}
use kafka_a2a.Common.Dict.{lookup, remove, lookup-insert_self, lookup-remove}
use kafka_a2a.Errors.{RpcError}
use kafka_a2a.Client.State.{Wire, ClientState, Response, waiting, consume_all}
use kafka_a2a.Client.Calls.{
  StreamResult, Ending, ended, failed, invalid, is_stream_done, parse_stream_result, iterate,
  read_stream, closed, begin_stream, begin_call,
}
use kafka_a2a.Client.Brings.{grown, answers, Waits}
use kafka_a2a.Client.Correlates.{consume_all-Correlates}

module _ {Raw : Type 0} (wire : Wire Raw) (task_id context_id : String) where
  -- Responses that are results, none of which ends the stream, with what they are parsed to.
  pub data Continues : List Response → List StreamResult → Type 0 where
    nothing : Continues [] []
    more :
        {items : List Response} {results : List StreamResult} (item : Response) (r : StreamResult)
        → item.error ≡ none
        → parse_stream_result wire task_id context_id item.result ≡ some r
        → is_stream_done r ≡ false
        → Continues items results
        → Continues (item ∷ items) (r ∷ results)

  -- the response that ends a stream, and how
  pub data Ends (item : Response) : List StreamResult → Ending wire → Type 0 where
    by_result :
        (r : StreamResult)
        → item.error ≡ none
        → parse_stream_result wire task_id context_id item.result ≡ some r
        → is_stream_done r ≡ true
        → Ends item (r ∷ []) ended
    by_error : (e : RpcError) → item.error ≡ some e → Ends item [] (failed e)
    by_invalid :
        item.error ≡ none
        → parse_stream_result wire task_id context_id item.result ≡ none
        → Ends item [] invalid

  iterate-Ends :
      (item : Response) (after : List Response) {last : List StreamResult} {ending : Ending wire}
      → Ends item last ending
      → iterate wire task_id context_id (item ∷ after) ≡ (last, ending)
  unfolding iterate
  iterate-Ends item after (by_result r e parsed final) = rw (e, parsed, final, iterate) refl
  iterate-Ends item after (by_error x e) = rw (e, iterate) refl
  iterate-Ends item after (by_invalid e parsed) = rw (e, parsed, iterate) refl

  iterate-Continues :
      {items : List Response} {results : List StreamResult} (after : List Response)
      → Continues items results
      → iterate wire task_id context_id (items ++ after) ≡ (
        results ++ (iterate wire task_id context_id after).0,
        (iterate wire task_id context_id after).1,
      )
  unfolding iterate
  iterate-Continues after nothing = refl
  iterate-Continues after (more item r e parsed goes_on rest) =
      rw (e, parsed, goes_on, iterate) (ap (λ p. (r ∷ p.0, p.1)) (iterate-Continues after rest))

  Ends-closed :
      (id : String) (s : ClientState Raw) {item : Response} {last : List StreamResult}
      {ending : Ending wire}
      → Ends item last ending
      → closed wire ending id s ≡ record s { streams = remove id s.streams }
  Ends-closed id s (by_result r e parsed final) = refl
  Ends-closed id s (by_error x e) = refl
  Ends-closed id s (by_invalid e parsed) = refl

  read_stream-Ends :
      (id : String) (s : ClientState Raw) (items after : List Response) (item : Response)
      {results last : List StreamResult} {ending : Ending wire}
      → lookup id s.streams ≡ some (items ++ item ∷ after)
      → Continues items results
      → Ends item last ending
      → read_stream wire id task_id context_id s
        ≡ (results ++ last, record s { streams = remove id s.streams })
  unfolding read_stream
  read_stream-Ends id s items after item {results} {last} {ending} held goes stops =
      rw (held, read_stream, iterated) (ap (λ s'. (results ++ last, s')) (Ends-closed id s stops))
    where
      iterated : iterate wire task_id context_id (items ++ item ∷ after) ≡ (results ++ last, ending)
      iterated =
          iterate-Continues (item ∷ after) goes
          ∙ ap (λ p. (results ++ p.0, p.1)) (iterate-Ends item after stops)

  begin_stream-Waits : (id : String) (s : ClientState Raw) → Waits wire id (begin_stream wire id s)
  unfolding begin_stream begin_call
  begin_stream-Waits id s = record {
    is_pending = ap is_some (lookup-insert_self id tt s.pending);
    unresolved = lookup-insert_self id waiting s.futures;
  }

  begin_stream-empty :
      (id : String) (s : ClientState Raw) → lookup id (begin_stream wire id s).streams ≡ some []
  unfolding begin_stream begin_call
  begin_stream-empty id s = lookup-insert_self id [] s.streams

  -- A stream that was begun, after any messages of the reply topic of which the responses to it are
  -- results that do not end it, then a response that does, which is a final result, an error or a
  -- result that does not validate, and then anything: the iterator yields the results up to and
  -- including the final one and nothing behind it, in the order of the messages, and the client
  -- keeps no queue for the stream. A status update is final as it says, and a message always is.
  pub stream_yields :
      (id : String) (s : ClientState Raw) (raws : List Raw) (items after : List Response)
      (item : Response) {results last : List StreamResult} {ending : Ending wire}
      → answers wire id raws ≡ items ++ item ∷ after
      → Continues items results
      → Ends item last ending
      → ((read_stream wire id task_id context_id (consume_all wire raws (begin_stream wire id s))).0
          ≡ results ++ last)
        × (lookup id
              (read_stream wire id task_id context_id
                (consume_all wire raws (begin_stream wire id s))).1.streams
            ≡ none)
  stream_yields id s raws items after item {results} {last} told goes stops = (
    ap (λ p. p.0) run,
    ap (λ p. lookup id p.1.streams) run ∙ lookup-remove id id _ ∙ rw (eq_refl id) refl,
  )
    where
      begun : ClientState Raw
      begun = begin_stream wire id s

      held : lookup id (consume_all wire raws begun).streams ≡ some (items ++ item ∷ after)
      held =
          (consume_all-Correlates wire id raws begun (begin_stream-Waits id s)).1
          ∙ ap (λ o. grown o (answers wire id raws)) (begin_stream-empty id s)
          ∙ ap (λ l. some l) told

      run : read_stream wire id task_id context_id (consume_all wire raws begun) ≡ (
        results ++ last,
        record (consume_all wire raws begun) {
          streams = remove id (consume_all wire raws begun).streams;
        },
      )
      run = read_stream-Ends id (consume_all wire raws begun) items after item held goes stops
