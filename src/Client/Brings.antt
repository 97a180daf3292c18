-- ===== src/Client/Brings.antt =====
-- What one message of the reply topic does to a request.
use mathlib.Core.Path.{subst}
use mathlib.Core.List.{append-nil, append_assoc}
use kafka_a2a.Common.{
  String, ◌≡◌, ◌≢◌, ◌⊎◌, refl, sym, ap, ◌∙◌, Bool, true, false, Bool-cases, Option-cases, inl, inr,
  Option, none, some, List, [], ◌∷◌, ◌++◌, ◌==◌, eq_iff, eq_refl, if◌then◌else◌, arith, is_some,
}
use kafka_a2a.Common.Dict.{
  Dict, lookup, contains, lookup-insert_self, lookup-insert_ne, lookup-remove,
}
use kafka_a2a.Client.State.{
  Wire, ClientState, Response, Future, waiting, done, set_result, put_stream, settled, cancelled,
  deliver, addressed, deliver?, Envelope, consume,
}

abbrev pub grown : Option (List Response) → List Response → Option (List Response)
grown none more = none
grown (some queue) more = some (queue ++ more)

-- a future that waits, after some responses
abbrev pub first_of : List Response → Future
first_of [] = waiting
first_of (r ∷ rs) = done r

-- what the id itself finds behind a response, and what any other id finds
put_stream_self :
    (id : String) (r : Response) (streams : Dict (List Response))
    → lookup id (put_stream id r streams) ≡ grown (lookup id streams) (r ∷ [])
unfolding put_stream
put_stream_self id r streams = elim (Option-cases (lookup id streams)) [
  | inl e ↦ rw (e, put_stream) e
  | inr (q, e) ↦ rw (e, put_stream) (lookup-insert_self id (q ++ r ∷ []) streams)
]

put_stream_ne :
    (j id : String) (r : Response) (streams : Dict (List Response))
    → j ≢ id
    → lookup id (put_stream j r streams) ≡ lookup id streams
unfolding put_stream
put_stream_ne j id r streams ne = elim (Option-cases (lookup j streams)) [
  | inl e ↦ rw (e, put_stream) refl
  | inr (q, e) ↦ rw (e, put_stream) (lookup-insert_ne j id (q ++ r ∷ []) streams ne)
]

set_result_self :
    (id : String) (r : Response) (futures : Dict Future)
    → lookup id futures ≡ some waiting
    → lookup id (set_result id r futures) ≡ some (done r)
unfolding set_result
set_result_self id r futures e = rw (e, set_result) (lookup-insert_self id (done r) futures)

set_result_ne :
    (j id : String) (r : Response) (futures : Dict Future)
    → j ≢ id
    → lookup id (set_result j r futures) ≡ lookup id futures
unfolding set_result
set_result_ne j id r futures ne = unsettled (lookup j futures)
  where
    unsettled : (o : Option Future) → lookup id (settled o j r futures) ≡ lookup id futures
    unsettled none = refl
    unsettled (some waiting) = lookup-insert_ne j id (done r) futures ne
    unsettled (some (done _)) = refl
    unsettled (some cancelled) = refl

module _ {Raw : Type 0} (wire : Wire Raw) where
  -- the response that a message brings, with its id
  unfoldable pub brought : Raw → Option (String × Response)
  brought raw = elim (wire.from_bytes raw) [
    | none ↦ none
    | some env ↦ addressed wire env env.correlation_id
  ]

  abbrev pub answer : String → Option (String × Response) → List Response → List Response
  answer id none rest = rest
  answer id (some (j, r)) rest = if j == id then r ∷ rest else rest

  -- the responses to a request among the messages, in their order
  unfoldable pub answers : String → List Raw → List Response
  unfolding brought
  answers id [] = []
  answers id (raw ∷ raws) = answer id (brought raw) (answers id raws)

  -- A call that waits: it is pending, and its future is not done.
  pub record Waits (id : String) (s : ClientState Raw) : Type 0 where
    pub is_pending : contains id s.pending ≡ true
    pub unresolved : lookup id s.futures ≡ some waiting

  -- A call whose future is done is pending no longer.
  pub record Resolved (id : String) (r : Response) (s : ClientState Raw) : Type 0 where
    pub is_over : contains id s.pending ≡ false
    pub resolution : lookup id s.futures ≡ some (done r)

  pub deliver_self :
      (id : String) (r : Response) (s : ClientState Raw)
      → Waits id s
      → Resolved id r (deliver wire id r s)
        × (lookup id (deliver wire id r s).streams ≡ grown (lookup id s.streams) (r ∷ []))
  unfolding deliver
  deliver_self id r s w = (
    record {
      is_over = rw (lookup-remove id id s.pending, eq_refl) refl;
      resolution = rw (w.is_pending) (set_result_self id r s.futures w.unresolved);
    },
    put_stream_self id r s.streams,
  )

  pub deliver-Resolved :
      (id : String) (first r : Response) (s : ClientState Raw)
      → Resolved id first s
      → Resolved id first (deliver wire id r s)
        × (lookup id (deliver wire id r s).streams ≡ grown (lookup id s.streams) (r ∷ []))
  unfolding deliver
  deliver-Resolved id first r s h = (
    record {
      is_over = rw (lookup-remove id id s.pending, eq_refl) refl;
      resolution = rw h.is_over h.resolution;
    },
    put_stream_self id r s.streams,
  )

  -- An id finds the same in two states.
  pub record Same (id : String) (s s' : ClientState Raw) : Type 0 where
    pub same_pending : contains id s'.pending ≡ contains id s.pending
    pub same_future : lookup id s'.futures ≡ lookup id s.futures
    pub same_stream : lookup id s'.streams ≡ lookup id s.streams

  deliver_ne :
      (j id : String) (r : Response) (s : ClientState Raw) → j ≢ id → Same id s (deliver wire j r s)
  unfolding deliver
  deliver_ne j id r s ne = record {
    same_pending = ap is_some (lookup-remove j id s.pending ∙ rw different refl);
    same_future = chosen (contains j s.pending);
    same_stream = put_stream_ne j id r s.streams ne;
  }
    where
      different : (j == id) ≡ false
      different = ground (arith, eq_iff j id, ne)

      chosen :
          (b : Bool)
          → lookup id (if b then set_result j r s.futures else s.futures) ≡ lookup id s.futures
      chosen true = set_result_ne j id r s.futures ne
      chosen false = refl

  decoded :
      (raw : Raw) (s : ClientState Raw) {env : Envelope} (o : Option (String × Response))
      → wire.from_bytes raw ≡ some env
      → brought raw ≡ o
      → consume wire raw s ≡ deliver? wire o s
  unfolding consume brought
  decoded raw s {env} o h e =
      let read : addressed wire env env.correlation_id ≡ brought raw = rw (h, brought) refl in
      let run : consume wire raw s ≡ deliver? wire (addressed wire env env.correlation_id) s =
        rw (h, consume) refl in
      run ∙ ap (λ p. deliver? wire p s) (read ∙ e)

  pub Same-refl : (id : String) (s : ClientState Raw) → Same id s s
  Same-refl id s = record { same_pending = refl; same_future = refl; same_stream = refl }

  consume-none :
      (id : String) (raw : Raw) (s : ClientState Raw)
      → brought raw ≡ none
      → Same id s (consume wire raw s)
  unfolding consume
  consume-none id raw s e = elim (Option-cases (wire.from_bytes raw)) [
    | inl h ↦
        rw (h, consume) (record { same_pending = refl; same_future = refl; same_stream = refl })
    | inr (env, h) ↦ subst (Same id s) (sym (decoded raw s none h e)) (Same-refl id s)
  ]

  consume-some :
      (raw : Raw) (s : ClientState Raw) (p : String × Response)
      → brought raw ≡ some p
      → consume wire raw s ≡ deliver wire p.0 p.1 s
  unfolding brought
  consume-some raw s p e = elim (Option-cases (wire.from_bytes raw)) [
    | inl h ↦ let unread : brought raw ≡ none = rw (h, brought) refl in absurd cc
    | inr (env, h) ↦ decoded raw s (some p) h e
  ]

  pub grown-grown :
      (o : Option (List Response)) (a b : List Response) → grown (grown o a) b ≡ grown o (a ++ b)
  grown-grown none a b = refl
  grown-grown (some q) a b = ap (λ l. some l) (append_assoc q a b)

  pub grown-nil : (o : Option (List Response)) → grown o [] ≡ o
  grown-nil none = refl
  grown-nil (some q) = ap (λ l. some l) (append-nil q)

  -- The two cases of a message: it brings no response to the id, or it brings one.
  abbrev pub Brings : String → Raw → ClientState Raw → Type 0
  Brings id raw s =
      ((r : Response) × (consume wire raw s ≡ deliver wire id r s)
        × ((rest : List Response) → answer id (brought raw) rest ≡ r ∷ rest))
      ⊎ (Same id s (consume wire raw s)
          × ((rest : List Response) → answer id (brought raw) rest ≡ rest))

  pub brings : (id : String) (raw : Raw) (s : ClientState Raw) → Brings id raw s
  brings id raw s = elim (Option-cases (brought raw)) [
    | inl e ↦ inr (consume-none id raw s e, λ rest. rw e refl)
    | inr ((j, r), e) ↦ elim (Bool-cases (j == id)) [
      | inl same ↦ inl (
        r,
        consume-some raw s (j, r) e ∙ ap (λ i. deliver wire i r s) ((eq_iff j id).0 same),
        λ rest. rw (e, same) refl,
      )
      | inr different ↦ inr (
        subst (Same id s) (sym (consume-some raw s (j, r) e))
            (deliver_ne j id r s (ground (arith, eq_iff j id))),
        λ rest. rw (e, different) refl,
      )
    ]
  ]
