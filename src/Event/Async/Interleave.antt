-- ===== src/Event/Async/Interleave.antt =====
-- The loop of `HandleEvents` while another thread dispatches.
use mathlib.Core.List.{append-nil, append_assoc}
use robosw.Base.{
  ℕ, ◌<◌, ◌≡◌, ◌≢◌, refl, ap, ap₂, sym, ◌∙◌, arith, true, false, none, some, List, [], ◌∷◌, ◌++◌,
  length, ◌==◌, inl, inr, List-cases, subst,
}
use robosw.Event.Queue.{try_pop}
use robosw.Event.Queue.Bounded.{push_spare}
use robosw.Event.Dispatcher.{Event, Handlers, HandlerFunc}
use robosw.Event.Async.{AsyncEventDispatcher, is_thread, claim, dispatch, handle}
use robosw.Event.Async.Threads.{after}
use robosw.Event.Async.Delivery.{handle_all, handle_all-append}

-- What can happen while one thread is in the loop of `HandleEvents`: the other thread dispatches an
-- event, or the loop makes a round.
pub data Step (Data : Type 0) : Type 0 where
  sent : Event Data → Step Data
  round : Step Data

pub record Progress (Data World : Type 0) : Type 0 where
  pub dispatcher : AsyncEventDispatcher Data World
  pub world : World
  pub delivered : List (Event Data)

module _ {Data : Type 0} where
  abbrev pub all_sent : List (Step Data) → List (Event Data)
  all_sent [] = []
  all_sent (sent e ∷ xs) = e ∷ all_sent xs
  all_sent (round ∷ xs) = all_sent xs

module _ {Data World : Type 0} where
  -- The loop with the event `e` handed out, and `q` waiting.
  abbrev popped : Progress Data World → Event Data → List (Event Data) → Progress Data World
  popped s e q = record {
    dispatcher = record s.dispatcher { event_queue = q };
    world = handle s.dispatcher.handlers e s.world;
    delivered = s.delivered ++ e ∷ [];
  }

  abbrev pub advance : ℕ → Progress Data World → Step Data → Progress Data World
  advance p s (sent e) = record s { dispatcher = after (dispatch s.dispatcher p e) }
  advance p s round = elim (try_pop s.dispatcher.event_queue) [
    | none ↦ s
    | some (e, q) ↦ popped s e q
  ]

  abbrev pub run : ℕ → Progress Data World → List (Step Data) → Progress Data World
  run p s [] = s
  run p s (x ∷ xs) = run p (advance p s x) xs

  -- No event is dispatched while 64 wait.
  abbrev pub NeverFull : ℕ → Progress Data World → List (Step Data) → Type 0
  NeverFull p s [] = Unit {0}
  NeverFull p s (sent e ∷ xs) =
      (length s.dispatcher.event_queue < 64) × NeverFull p (advance p s (sent e)) xs
  NeverFull p s (round ∷ xs) = NeverFull p (advance p s round) xs

  -- The threads are told apart, and what was delivered and what waits is `es`, in order.
  pub record Accounts (p c : ℕ) (hs : Handlers (HandlerFunc Data World)) (w : World)
      (es : List (Event Data)) (s : Progress Data World) : Type 0 where
    pub producer : s.dispatcher.dispatch_thread_id ≡ some p
    pub consumer : s.dispatcher.handle_events_thread_id ≡ some c
    pub same_handlers : s.dispatcher.handlers ≡ hs
    pub order : s.delivered ++ s.dispatcher.event_queue ≡ es
    pub effect : s.world ≡ handle_all hs s.delivered w

  -- What `Dispatch` leaves, on its own thread and with room in the queue.
  dispatch-eq :
      (p c : ℕ) (d : AsyncEventDispatcher Data World) (e : Event Data)
      → p ≢ c
      → d.dispatch_thread_id ≡ some p
      → d.handle_events_thread_id ≡ some c
      → length d.event_queue < 64
      → after (dispatch d p e)
        ≡ record d { dispatch_thread_id = some p; event_queue = d.event_queue ++ e ∷ [] }
  unfolding dispatch claim is_thread
  dispatch-eq p c d e n hp hc room =
      let same : (p == p) ≡ true = ground arith in
      let other : (c == p) ≡ false = ground (arith, n) in
      rw (hp, hc, same, other, push_spare 64 d.event_queue e room) refl

  advance-sent :
      {p c : ℕ} {hs : Handlers (HandlerFunc Data World)} {w : World} {es : List (Event Data)}
      {s : Progress Data World}
      → p ≢ c
      → (e : Event Data) → length s.dispatcher.event_queue < 64
      → Accounts p c hs w es s
      → Accounts p c hs w (es ++ e ∷ []) (advance p s (sent e))
  advance-sent {p} {c} {s = s} n e room a =
      rw (dispatch-eq p c s.dispatcher e n a.producer a.consumer room) (record {
        producer = refl;
        consumer = a.consumer;
        same_handlers = a.same_handlers;
        order =
            sym (append_assoc s.delivered s.dispatcher.event_queue (e ∷ []))
            ∙ ap (λ q. q ++ e ∷ []) a.order;
        effect = a.effect;
      })

  advance-round :
      {p c : ℕ} {hs : Handlers (HandlerFunc Data World)} {w : World} {es : List (Event Data)}
      {s : Progress Data World}
      → Accounts p c hs w es s
      → Accounts p c hs w es (advance p s round)
  unfolding try_pop
  advance-round {p} {c} {hs} {w} {es} {s} a = elim (List-cases s.dispatcher.event_queue) [
    | inl e ↦
        let stays : advance p s round ≡ s =
          ap
            (λ q. elim (try_pop {T = Event Data} q) as (λ _. Progress Data World) [
              | none ↦ s
              | some (x, l) ↦ popped s x l
            ])
            e in
        subst (Accounts p c hs w es) (sym stays) a
    | inr (x, l, e) ↦
        let moves : advance p s round ≡ popped s x l =
          ap
            (λ q. elim (try_pop {T = Event Data} q) as (λ _. Progress Data World) [
              | none ↦ s
              | some (y, k) ↦ popped s y k
            ])
            e in
        subst (Accounts p c hs w es) (sym moves) (record {
          producer = a.producer;
          consumer = a.consumer;
          same_handlers = a.same_handlers;
          order =
              append_assoc s.delivered (x ∷ []) l ∙ (ap (λ q. s.delivered ++ q) (sym e) ∙ a.order);
          effect =
              ap₂ (λ h v. handle h x v) a.same_handlers a.effect
              ∙ sym (handle_all-append hs s.delivered x w);
        })
  ]

  run-Accounts :
      {p c : ℕ} {hs : Handlers (HandlerFunc Data World)} {w : World}
      → p ≢ c
      → (xs : List (Step Data)) (es : List (Event Data)) (s : Progress Data World)
      → NeverFull p s xs
      → Accounts p c hs w es s
      → Accounts p c hs w (es ++ all_sent xs) (run p s xs)
  run-Accounts {p} {c} {hs} {w} n [] es s f a =
      subst (λ l. Accounts p c hs w l s) (sym (append-nil es)) a
  run-Accounts {p} {c} {hs} {w} n (sent e ∷ xs) es s f a =
      subst (λ l. Accounts p c hs w l (run p (advance p s (sent e)) xs))
        (append_assoc es (e ∷ []) (all_sent xs))
        (run-Accounts n xs (es ++ e ∷ []) (advance p s (sent e)) f.1 (advance-sent n e f.0 a))
  run-Accounts {p} n (round ∷ xs) es s f a =
      run-Accounts n xs es (advance p s round) f (advance-round a)

  -- However dispatches of one thread and rounds of another interleave, if no event is dispatched
  -- while 64 wait, the events handed out and the waiting ones are those sent, in order and each once,
  -- and the handlers have acted on just those handed out.
  pub run_delivers :
      (p c : ℕ) (d : AsyncEventDispatcher Data World) (w : World) (xs : List (Step Data))
      → p ≢ c
      → d.dispatch_thread_id ≡ some p
      → d.handle_events_thread_id ≡ some c
      → NeverFull p (record { dispatcher = d; world = w; delivered = [] }) xs
      → let s = run p (record { dispatcher = d; world = w; delivered = [] }) xs in
        (s.delivered ++ s.dispatcher.event_queue ≡ d.event_queue ++ all_sent xs)
        × (s.world ≡ handle_all d.handlers s.delivered w)
  run_delivers p c d w xs n hp hc f =
      let a =
        run-Accounts n xs d.event_queue (record { dispatcher = d; world = w; delivered = [] }) f
          (record {
            producer = hp;
            consumer = hc;
            same_handlers = refl;
            order = refl;
            effect = refl;
          }) in
      (a.order, a.effect)
