-- ===== src/Store/Feeds.antt =====
-- What a subscriber is sent.
use vtt_platform.Prelude.{
  Bool, true, false, ◌||◌, ◌≡◌, refl, sym, ap, ◌∙◌, Option, none, some, List, [], ◌∷◌, ◌++◌, arith,
  if◌then◌else◌, Bool-cases, inl, inr,
}
use vtt_platform.Prelude.Int.{ℤ, leb_ℤ}
use vtt_platform.Contract.Event.{Envelope}
use vtt_platform.Store.Subscriber.{
  Subscriber, Feed, Step, stopped, taken, handed_on, ended, timed_out, Runs, starts, offered, steps,
  enqueue, next, Next, mark_stopped, last_of, started, nothing, next_is, next_of, start_subscriber,
}

-- Each sequence is above the one before it, the first above `after`.
abbrev pub IsAscending : ℤ → List Envelope → Type 0
IsAscending after [] = Unit
IsAscending after (e ∷ rest) = (leb_ℤ e.sequence after ≡ false) × IsAscending e.sequence rest

-- The specification: of the events offered in turn, those above `top` and above all before them.
unfoldable pub fresh : ℤ → List Envelope → List Envelope
fresh top [] = []
fresh top (e ∷ rest) = if leb_ℤ e.sequence top then fresh top rest else e ∷ fresh e.sequence rest

top_of : ℤ → List Envelope → ℤ
top_of top [] = top
top_of top (e ∷ rest) = if leb_ℤ e.sequence top then top_of top rest else top_of e.sequence rest

one_more : ℤ → Envelope → List Envelope
one_more top e = if leb_ℤ e.sequence top then [] else e ∷ []

fresh-append :
    (top : ℤ) (offers : List Envelope) (e : Envelope)
    → fresh top (offers ++ e ∷ []) ≡ fresh top offers ++ one_more (top_of top offers) e
unfolding fresh top_of one_more
fresh-append top [] e = refl
fresh-append top (o ∷ rest) e = elim (Bool-cases (leb_ℤ o.sequence top)) [
  | inl c ↦ rw c (fresh-append top rest e)
  | inr c ↦ rw c (ap (λ l. o ∷ l) (fresh-append o.sequence rest e))
]

top_of-append :
    (top : ℤ) (offers : List Envelope) (e : Envelope)
    → top_of top (offers ++ e ∷ []) ≡ top_of (top_of top offers) (e ∷ [])
unfolding top_of
top_of-append top [] e = refl
top_of-append top (o ∷ rest) e = elim (Bool-cases (leb_ℤ o.sequence top)) [
  | inl c ↦ rw c (top_of-append top rest e)
  | inr c ↦ rw c (top_of-append o.sequence rest e)
]

fresh-IsAscending : (top : ℤ) (offers : List Envelope) → IsAscending top (fresh top offers)
unfolding fresh
fresh-IsAscending top [] = tt
fresh-IsAscending top (o ∷ rest) = elim (Bool-cases (leb_ℤ o.sequence top)) [
  | inl c ↦ rw c (fresh-IsAscending top rest)
  | inr c ↦ rw c (c, fresh-IsAscending o.sequence rest)
]

append_assoc {ℓ} : {A : Type ℓ} (xs ys zs : List A) → (xs ++ ys) ++ zs ≡ xs ++ (ys ++ zs)
append_assoc [] ys zs = refl
append_assoc (x ∷ xs) ys zs = ap (λ l. x ∷ l) (append_assoc xs ys zs)

append_nil {ℓ} : {A : Type ℓ} (xs : List A) → xs ++ [] ≡ xs
append_nil [] = refl
append_nil (x ∷ xs) = ap (λ l. x ∷ l) (append_nil xs)

abbrev pub held_list : Option Envelope → List Envelope
held_list none = []
held_list (some e) = e ∷ []

-- The events sent and held begin the stream; while the subscription is open, the queue is its rest
-- and `last_seq` its top.
record IsFed (stream : List Envelope) (top : ℤ) (f : Feed) : Type 0 where
  rest : List Envelope
  line : f.sent ++ (held_list f.held ++ rest) ≡ stream
  queued : f.sub.closed ≡ false → (rest ≡ f.sub.pending) × (f.sub.last_seq ≡ top)

nothing_is_next : (env : Envelope) (sub : Subscriber) → Path Next nothing (next_is env sub) → ⊥
nothing_is_next env sub h = cc

queue_of : Next → List Envelope
queue_of nothing = []
queue_of (next_is env sub) = env ∷ sub.pending

seq_of : ℤ → Next → ℤ
seq_of n nothing = n
seq_of n (next_is env sub) = sub.last_seq

next_of_parts :
    (sub sub' : Subscriber) (env : Envelope) (l : List Envelope)
    → next_of sub l ≡ next_is env sub'
    → (l ≡ env ∷ sub'.pending) × (sub'.last_seq ≡ sub.last_seq)
unfolding queue_of seq_of
next_of_parts sub sub' env [] h = cc
next_of_parts sub sub' env (x ∷ rest) h = (ap queue_of h, sym (ap (seq_of sub.last_seq) h))

next_parts :
    (sub sub' : Subscriber) (env : Envelope)
    → next sub ≡ next_is env sub'
    → (sub.closed ≡ false) × (sub.pending ≡ env ∷ sub'.pending) × (sub'.last_seq ≡ sub.last_seq)
unfolding next
next_parts sub sub' env h = by_closed sub.closed h
  where
    by_closed :
        (b : Bool)
        → Path Next (if b then nothing else next_of sub sub.pending) (next_is env sub')
        → (b ≡ false) × (sub.pending ≡ env ∷ sub'.pending) × (sub'.last_seq ≡ sub.last_seq)
    by_closed true q = absurd (nothing_is_next env sub' q)
    by_closed false q =
        let parts = next_of_parts sub sub' env sub.pending q in (refl, parts.0, parts.1)

Step-IsFed :
    (stream : List Envelope) (top : ℤ) (f g : Feed)
    → Step f g
    → IsFed stream top f
    → IsFed stream top g
unfolding mark_stopped
Step-IsFed stream top _ _ (stopped f) h = record { rest = h.rest; line = h.line; queued = λ c. cc }
Step-IsFed stream top _ _ (taken f env sub' e n q) h =
    let p = next_parts f.sub sub' env q in
    record {
      rest = sub'.pending;
      line = ap (λ l. f.sent ++ l) (sym ((h.queued p.0).0 ∙ p.1)) ∙ rw n at h.line;
      queued = λ c. (refl, p.2 ∙ (h.queued p.0).1);
    }
Step-IsFed stream top _ _ (handed_on f env e n) h = record {
  rest = h.rest;
  line = append_assoc f.sent (env ∷ []) h.rest ∙ rw n at h.line;
  queued = h.queued;
}
Step-IsFed stream top _ _ (ended f c) h = record { rest = h.rest; line = h.line; queued = h.queued }
Step-IsFed stream top _ _ (timed_out f env e n) h = record {
  rest = h.rest;
  line = h.line;
  queued = λ c. cc;
}

enqueue_same :
    (sub : Subscriber) (e : Envelope)
    → (sub.closed || leb_ℤ e.sequence sub.last_seq) ≡ true
    → enqueue sub e ≡ sub
unfolding enqueue
enqueue_same sub e h = rw h refl

enqueue_new :
    (sub : Subscriber) (e : Envelope)
    → (sub.closed || leb_ℤ e.sequence sub.last_seq) ≡ false
    → enqueue sub e ≡ record sub { pending = sub.pending ++ e ∷ []; last_seq = e.sequence }
unfolding enqueue
enqueue_new sub e h = rw h refl

extend :
    (sent held rest stream more : List Envelope)
    → sent ++ (held ++ rest) ≡ stream
    → sent ++ (held ++ (rest ++ more)) ≡ stream ++ more
extend sent held rest stream more h =
    ap (λ l. sent ++ l) (sym (append_assoc held rest more))
    ∙ (sym (append_assoc sent (held ++ rest) more) ∙ ap (λ l. l ++ more) h)

offer-IsFed :
    (stream : List Envelope) (top : ℤ) (f : Feed) (e : Envelope)
    → IsFed stream top f
    → IsFed (stream ++ one_more top e) (top_of top (e ∷ [])) (record f { sub = enqueue f.sub e })
unfolding one_more top_of
offer-IsFed stream top f e h = elim (Bool-cases f.sub.closed) [
  | inl c ↦ rw (enqueue_same f.sub e (rw c refl)) (record {
    rest = h.rest ++ one_more top e;
    line = extend f.sent (held_list f.held) h.rest stream (one_more top e) h.line;
    queued = λ d. cc;
  })
  | inr c ↦ elim (Bool-cases (leb_ℤ e.sequence f.sub.last_seq)) [
    | inl low ↦ rw (enqueue_same f.sub e (rw (c, low) refl)) (
        rw (sym (h.queued c).1, low, append_nil)
          (record { rest = h.rest; line = h.line; queued = λ d. ((h.queued d).0, refl) }))
    | inr high ↦ rw (enqueue_new f.sub e (rw (c, high) refl)) (
        rw (sym (h.queued c).1, high)
          (record {
            rest = h.rest ++ e ∷ [];
            line = extend f.sent (held_list f.held) h.rest stream (e ∷ []) h.line;
            queued = λ d. (ap (λ l. l ++ e ∷ []) (h.queued c).0, refl);
          }))
  ]
]

Runs-IsFed :
    (s : Subscriber) (offers : List Envelope) (f : Feed)
    → Runs (started s) offers f
    → s.closed ≡ false
    → IsFed (s.pending ++ fresh s.last_seq offers) (top_of s.last_seq offers) f
unfolding fresh top_of
Runs-IsFed s _ _ starts c = record {
  rest = s.pending;
  line = sym (append_nil s.pending);
  queued = λ d. (refl, refl);
}
Runs-IsFed s _ _ (offered offers f e r) c =
    rw
      (
        fresh-append s.last_seq offers e,
        top_of-append s.last_seq offers e,
        sym (
            append_assoc s.pending (fresh s.last_seq offers)
              (one_more (top_of s.last_seq offers) e)),
      )
      (offer-IsFed _ _ f e (Runs-IsFed s offers f r c))
Runs-IsFed s _ _ (steps offers f g r st) c = Step-IsFed _ _ f g st (Runs-IsFed s offers f r c)

-- Of a subscription that starts open, at any point of any run, the events sent to the consumer are
-- a beginning of the queued history followed by the offered events that were above all before them.
-- While the subscription is open, what is not sent yet is what the pump holds and the queue.
pub feed_exact :
    (s : Subscriber) (offers : List Envelope) (f : Feed)
    → s.closed ≡ false
    → Runs (started s) offers f
    → ((rest : List Envelope) × (f.sent ++ rest ≡ s.pending ++ fresh s.last_seq offers))
      × (f.sub.closed ≡ false
          → f.sent ++ (held_list f.held ++ f.sub.pending) ≡ s.pending ++ fresh s.last_seq offers)
feed_exact s offers f c r =
    let h = Runs-IsFed s offers f r c in
    (
      (held_list f.held ++ h.rest, h.line),
      λ d. ap (λ l. f.sent ++ (held_list f.held ++ l)) (sym (h.queued d).0) ∙ h.line,
    )

append-IsAscending :
    (after : ℤ) (xs ys : List Envelope)
    → IsAscending after xs
    → IsAscending (last_of after xs) ys
    → IsAscending after (xs ++ ys)
unfolding last_of
append-IsAscending after [] ys h k = k
append-IsAscending after (x ∷ xs) ys h k = (h.0, append-IsAscending x.sequence xs ys h.1 k)

front-IsAscending :
    (after : ℤ) (xs ys : List Envelope) → IsAscending after (xs ++ ys) → IsAscending after xs
front-IsAscending after [] ys h = tt
front-IsAscending after (x ∷ xs) ys h = (h.0, front-IsAscending x.sequence xs ys h.1)

start_parts :
    (after buffer : ℤ) (read : ℤ → Option (List Envelope)) (history : List Envelope)
    (s : Subscriber)
    → read after ≡ some history
    → start_subscriber after buffer read ≡ some s
    → s ≡ record { pending = history; last_seq = last_of after history; closed = false }
unfolding start_subscriber
start_parts after buffer read history s r e = ground arith

-- When the log's part above a sequence is in order, a subscription from that sequence, whatever
-- is offered to it in whatever order and however it ends, sends its consumer events in
-- strictly increasing sequence, all above the one it asked for.
pub feed-IsAscending :
    (after buffer : ℤ) (read : ℤ → Option (List Envelope)) (history : List Envelope)
    (s : Subscriber) (offers : List Envelope) (f : Feed)
    → read after ≡ some history
    → IsAscending after history
    → start_subscriber after buffer read ≡ some s
    → Runs (started s) offers f
    → IsAscending after f.sent
feed-IsAscending after buffer read history s offers f r a e runs =
    let p = start_parts after buffer read history s r e in
    let x = (feed_exact s offers f (ap (λ (q : Subscriber). q.closed) p) runs).0 in
    front-IsAscending after f.sent x.0 (
      rw x.1 (
        rw p (
          append-IsAscending after history (fresh (last_of after history) offers) a
            (fresh-IsAscending (last_of after history) offers))))
