-- ===== src/Routes/Handler/Streamed.antt =====
-- How a stream of `create_chat_completion` in src/vortex_ai_gateway/routes.py is logged and billed.
use vortex_ai_gateway.Base.{
  ◌≡◌, ◌≢◌, ◌⊎◌, ◌↔◌, refl, sym, subst, Text, Bool, true, Option, none, some, List, [], ◌∷◌, length,
  if◌then◌else◌, inl, inr, arith,
}
use vortex_ai_gateway.Contracts.Chat.{ChatCompletionRequest, ChatCompletionChunk}
use vortex_ai_gateway.Metering.Meter.{Reservation}
use vortex_ai_gateway.Cache.Store.{Found}
use vortex_ai_gateway.Semantic.Cache.{Nearby}
use vortex_ai_gateway.Streaming.Record.{
  StreamRecord, completed, failed, abandoned, metered_request, wants_usage, observe, relay,
}
use vortex_ai_gateway.Streaming.Relay.{relay_complete, last_usage}
use vortex_ai_gateway.Providers.Errors.{Raised, provider_error, cancelled, other_exception}
use vortex_ai_gateway.Routes
use vortex_ai_gateway.Routes.{Failure}
use vortex_ai_gateway.Routes.Stream.{Chunks, stream_events, end_stream}
use vortex_ai_gateway.Routes.Flow.{
  Gateway, World, Headers, Reply, Ask, settled, discarded, headers_of,
}
use vortex_ai_gateway.Routes.Handler.{new_record, log, unopened, opened, stream_with, asked}

if_true {ℓ} : {A : Type ℓ} {b : Bool} (x y : A) → b ≡ true → (if b then x else y) ≡ x
if_true x y whole = rw whole refl

relay-outcome :
    (forward : Bool) (chunks : List ChatCompletionChunk) (b : StreamRecord)
    → (relay forward chunks b).1.outcome ≡ b.outcome
unfolding relay observe
relay-outcome forward [] b = refl
relay-outcome forward (chunk ∷ later) b =
    ground (arith, relay-outcome forward later (observe forward chunk b).1)

-- What the record of a stream says of what was taken from the provider.
Tells : Chunks → StreamRecord → Type 0
Tells taken b =
    (b.usage ≡ last_usage taken.chunks none)
    × (b.chunks ≡ length taken.chunks)
    × ((b.outcome ≡ abandoned) ↔ (taken.ending ≡ some cancelled))
    × ((b.outcome ≡ completed) ↔ (taken.ending ≡ none))

end_stream-outcome :
    (ending : Option Raised) (b : StreamRecord)
    → b.outcome ≡ completed
    → let b' = (end_stream ending b).1 in
      (b'.usage ≡ b.usage)
      × (b'.chunks ≡ b.chunks)
      × ((b'.outcome ≡ abandoned) ↔ (ending ≡ some cancelled))
      × ((b'.outcome ≡ completed) ↔ (ending ≡ none))
unfolding end_stream Routes.failed
end_stream-outcome none b new = ground (arith, new)
end_stream-outcome (some (provider_error e)) b new = ground (arith, new)
end_stream-outcome (some cancelled) b new = ground (arith, new)
end_stream-outcome (some (other_exception name)) b new = ground (arith, new)

stream_events-Tells :
    (r : ChatCompletionRequest) (taken : Chunks) (name : Text) (r' : ChatCompletionRequest)
    → Tells taken (stream_events r taken (new_record name r')).1
unfolding Tells stream_events
stream_events-Tells r taken name r' =
    let b = new_record name r' in
    let (sent, told, billed) = relay_complete (wants_usage r) taken.chunks b in
    let after = (relay (wants_usage r) taken.chunks b).1 in
    let ends =
      end_stream-outcome taken.ending after (relay-outcome (wants_usage r) taken.chunks b) in
    ground (arith, told, billed, ends)

-- A stream that ended by itself has not failed.
Tells-unfailed :
    (taken : Chunks) (b : StreamRecord) → Tells taken b → taken.ending ≡ none → b.outcome ≢ failed
unfolding Tells
Tells-unfailed taken b told whole e = absurd (ground (arith, told, whole, e))

module _ (g : Gateway) where
  -- One record `b` is logged, and the reservation is either settled with its usage, or discarded.
  Closed : Ask → Reservation → Chunks → World g → Reply × World g → Type 0
  Closed ask v taken w out =
      (b : StreamRecord) × Tells taken b
      × (((b.outcome ≡ failed)
            × (taken.chunks ≡ [])
            × (out.1 ≡ discarded g ask.weather v (log g b w)))
          ⊎ (((b.outcome ≢ failed) ⊎ (taken.chunks ≢ []))
              × (out.1 ≡ settled g ask.weather v b.usage (log g b w))))

  opened-Closed :
      (ask : Ask) (h : Headers) (v : Reservation) (taken : Chunks) (w : World g)
      → (taken.chunks ≢ []) ⊎ (taken.ending ≡ none)
      → Closed ask v taken w (opened g ask h v (new_record g.provider ask.request) taken w)
  unfolding Closed opened
  opened-Closed ask h v taken w (inl begun) =
      let (events, b) = stream_events ask.request taken (new_record g.provider ask.request) in
      (b, stream_events-Tells ask.request taken g.provider ask.request, inr (inr begun, refl))
  opened-Closed ask h v taken w (inr whole) =
      let (events, b) = stream_events ask.request taken (new_record g.provider ask.request) in
      let told = stream_events-Tells ask.request taken g.provider ask.request in
      (b, told, inr (inl (Tells-unfailed taken b told whole), refl))

  abbrev unbegun : Raised → Chunks
  unbegun e = record { chunks = []; ending = some e }

  unopened-Closed :
      (ask : Ask) (h : Headers) (v : Reservation) (e : Raised) (w : World g)
      → Closed ask v
          (unbegun e)
          w
          (unopened g ask.weather h v (new_record g.provider ask.request) (Routes.failed e) w)
  unfolding Closed unopened Tells last_usage Routes.failed
  unopened-Closed ask h v (provider_error e) w = (
    record (new_record g.provider ask.request) { outcome = failed },
    ground arith,
    inl (refl, refl, refl),
  )
  unopened-Closed ask h v cancelled w = (
    record (new_record g.provider ask.request) { outcome = abandoned },
    ground arith,
    inr (inl (λ e. absurd (ground (arith, e))), refl),
  )
  unopened-Closed ask h v (other_exception name) w = (
    record (new_record g.provider ask.request) { outcome = failed },
    ground arith,
    inl (refl, refl, refl),
  )

  stream_with-Closed :
      (ask : Ask) (h : Headers) (v : Reservation) (chunks : List ChatCompletionChunk)
      (ending : Option Raised) (w : World g)
      → let taken : Chunks = record { chunks = chunks; ending = ending } in
        Closed ask v taken w (stream_with g ask h v (new_record g.provider ask.request) taken w)
  unfolding stream_with
  stream_with-Closed ask h v [] none w =
      opened-Closed ask h v (record { chunks = []; ending = none }) w (inr refl)
  stream_with-Closed ask h v [] (some e) w = unopened-Closed ask h v e w
  stream_with-Closed ask h v (c ∷ cs) ending w =
      opened-Closed ask h v (record { chunks = c ∷ cs; ending = ending }) w
        (inl (λ e. absurd (ground (arith, e))))

  -- However a stream ends, one record of it is logged, which names the usage that was reported last,
  -- the number of chunks, and how it ended; and its reservation is closed once: discarded exactly if
  -- it failed before its first chunk, and settled with that usage if it did not fail or had begun,
  -- also if the caller hangs up.
  pub asked-streamed :
      (ask : Ask) (found : Found) (near : Nearby g.Vector) (v : Reservation) (w : World g)
      → ask.request.stream ≡ true
      → let (taken, upstream) = g.open_stream (metered_request ask.request) w.upstream in
        let w' : World g = record w { upstream = upstream } in
        let out = asked g ask found near v w in
        (b : StreamRecord) × ((b.usage ≡ last_usage taken.chunks none)
          × (b.chunks ≡ length taken.chunks)
          × ((b.outcome ≡ abandoned) ↔ (taken.ending ≡ some cancelled))
          × ((b.outcome ≡ completed) ↔ (taken.ending ≡ none)))
        × (((b.outcome ≡ failed)
              × (taken.chunks ≡ [])
              × (out.1 ≡ discarded g ask.weather v (log g b w')))
            ⊎ (((b.outcome ≢ failed) ⊎ (taken.chunks ≢ []))
                × (out.1 ≡ settled g ask.weather v b.usage (log g b w'))))
  unfolding asked Closed Tells
  asked-streamed ask found near v w streams =
      let (taken, upstream) = g.open_stream (metered_request ask.request) w.upstream in
      let closed =
        stream_with-Closed ask (headers_of g v found near) v taken.chunks taken.ending
          (record w { upstream = upstream }) in
      subst (Closed ask v taken (record w { upstream = upstream })) (sym (if_true _ _ streams))
        closed
