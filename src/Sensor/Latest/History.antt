-- ===== src/Sensor/Latest/History.antt =====
-- What the two threads are for, together: sensors' readings arrive, and now and then the sum of the
-- latest ones is sent.
use mathlib.Core.Path.{subst}
use mathlib.Core.Option.{some-injective}
use mathlib.Core.List.{append_assoc, append-nil}
use communicate_core.Common.{
  ℕ, ◌≡◌, ◌⊎◌, inl, inr, refl, sym, ap, ◌∙◌, List, [], ◌∷◌, ◌++◌, map, Bool, Bool-cases, Option,
  none, some, ◌==◌, ◌≤◌, length,
}
use communicate_core.Memory.{peek, IsBytes}
use communicate_core.Sensor.Data.{Effect, log, signal, close, send}
use communicate_core.Sensor.Collector.{
  Collector, Outside, accept_connection, drop_connection, serve_fd, receive_from,
}
use communicate_core.Sensor.Collector.Frames.{
  IsWell, receive_size, collected, collect_frame-collected,
}
use communicate_core.Sensor.Collector.Rounds.{IsSane}
use communicate_core.Sensor.Processing.{
  Arithmetic, Processor, Waited, timed_out, woken, processing_round,
}
use communicate_core.Sensor.Processing.Results.{total, processing_round-IsSum}
use communicate_core.Sensor.System.{
  System, serves, waits, Reach, here, next, IsSound, Reach-IsSound,
}
use communicate_core.Sensor.System.Messages.{messages, messages_of, served_messages}
use communicate_core.Sensor.Latest.Defs.{
  Latest, view, Reading, IsReading, AllReadings, update, replay, in_order,
}
use communicate_core.Sensor.Latest.Steps.{Agrees, update_cong, view-collected}
use communicate_core.Sensor.Latest.Refinement.{in_order_cong}

-- The abstract service from the readings `f` on: the readings that arrive, in order, and the sums
-- that are made meanwhile, each of the latest readings at its time.
pub data History (a : Arithmetic) (f : Latest) : List Reading → List ℕ → Type 0 where
  started : History a f [] []
  arrives :
      {rs : List Reading} {made : List ℕ}
      → History a f rs made
      → (r : Reading) → History a f (rs ++ (r ∷ [])) made
  sums :
      {rs : List Reading} {made : List ℕ}
      → History a f rs made
      → History a f rs (made ++ (total a (in_order (replay rs f)) ∷ []))

replay-arrived :
    (rs : List Reading) (f : Latest) (r : Reading)
    → replay (rs ++ (r ∷ [])) f ≡ update (replay rs f) r
replay-arrived [] f r = refl
replay-arrived (x ∷ rs) f r = replay-arrived rs (update f x) r

abbrev pub bytes_of : List Reading → List (List ℕ)
bytes_of rs = map (λ (r : Reading). r.bytes) rs

pub split_bytes :
    (xs ys : List (List ℕ)) (rs : List Reading)
    → xs ++ ys ≡ bytes_of rs
    → AllReadings rs
    → (before : List Reading) × (after : List Reading) × (rs ≡ before ++ after)
      × (xs ≡ bytes_of before)
      × (ys ≡ bytes_of after)
      × AllReadings before
      × AllReadings after
split_bytes [] ys rs h all = ([], rs, refl, refl, h, tt, all)
split_bytes (x ∷ xs) ys [] h all = absurd (cc h)
split_bytes (x ∷ xs) ys (r ∷ rs) h all =
    let (before, after, same, front, back, first, rest) = split_bytes xs ys rs (cc h) all.1 in
    (r ∷ before, after, cc, cc (h, front), back, (all.0, first), rest)

pub no_bytes : (rs : List Reading) → [] ≡ bytes_of rs → rs ≡ []
no_bytes [] h = refl
no_bytes (r ∷ rs) h = absurd (cc h)

pub one_reading :
    (bytes : List ℕ) (rs : List Reading)
    → bytes ∷ [] ≡ bytes_of rs
    → (r : Reading) × (rs ≡ r ∷ []) × (r.bytes ≡ bytes)
one_reading bytes [] h = absurd (cc h)
one_reading bytes (r ∷ []) h = (r, refl, cc)
one_reading bytes (r ∷ x ∷ rs) h = absurd (cc h)

-- The sums in the packets that were sent.
abbrev pub sent_sums : List Effect → List ℕ
sent_sums [] = []
sent_sums (send fd bytes ∷ es) = peek 8 bytes 11 ∷ sent_sums es
sent_sums (e ∷ es) = sent_sums es

pub sent_sums-append : (xs ys : List Effect) → sent_sums (xs ++ ys) ≡ sent_sums xs ++ sent_sums ys
sent_sums-append [] ys = refl
sent_sums-append (send fd bytes ∷ xs) ys = ap (λ l. peek 8 bytes 11 ∷ l) (sent_sums-append xs ys)
sent_sums-append (log l ∷ xs) ys = sent_sums-append xs ys
sent_sums-append (signal ∷ xs) ys = sent_sums-append xs ys
sent_sums-append (close f ∷ xs) ys = sent_sums-append xs ys

-- A descriptor that is served stores its message, or has none and leaves the shared data as they
-- are.
abbrev Stores : Collector → List (List ℕ) → Collector → Type 0
Stores c ms after =
    ((ms ≡ []) × (after.sensor_data ≡ c.sensor_data))
    ⊎ ((bytes : List ℕ) × (ms ≡ bytes ∷ []) × (after ≡ collected c bytes))

accept_connection-sensor_data :
    (c : Collector) (accepted : Option ℕ)
    → (accept_connection c accepted).sensor_data ≡ c.sensor_data
unfolding accept_connection
accept_connection-sensor_data c none = refl
accept_connection-sensor_data c (some sock) = refl

receive_from-Stores :
    (c : Collector) (fd : ℕ) (message : Option (List ℕ)) (after : Collector)
    → IsWell c
    → ((bytes : List ℕ) → message ≡ some bytes → IsBytes bytes × (length bytes ≤ receive_size))
    → receive_from c fd message ≡ some after
    → Stores c (messages_of message) after
unfolding receive_from drop_connection
receive_from-Stores c fd none after well sane done =
    inl (refl, ap (λ (d : Collector). d.sensor_data) (some-injective after _ (sym done)))
receive_from-Stores c fd (some bytes) after well sane done =
    let (are_bytes, fits) = sane bytes refl in
    inr (
      bytes,
      refl,
      some-injective after (collected c bytes)
          (sym done ∙ collect_frame-collected c bytes well are_bytes fits),
    )

serve_fd-Stores :
    (c : Collector) (is_ready : ℕ → Bool) (outside : Outside) (fd : ℕ) (after : Collector)
    → IsWell c
    → IsSane outside
    → serve_fd c is_ready outside fd ≡ some after
    → Stores c (served_messages c is_ready outside fd) after
unfolding serve_fd
serve_fd-Stores c is_ready outside fd after well sane done = elim (Bool-cases (is_ready fd)) [
  | inr idle ↦ inl (
    rw idle refl,
    ap (λ (d : Collector). d.sensor_data) (some-injective after c (sym done ∙ rw idle refl)),
  )
  | inl busy ↦ elim (Bool-cases (fd == c.server_sock)) [
    | inl server ↦ inl (
      rw (busy, server) refl,
      ap (λ (d : Collector). d.sensor_data)
            (some-injective after (accept_connection c outside.accepted)
              (sym done ∙ rw (busy, server) refl))
          ∙ accept_connection-sensor_data c outside.accepted,
    )
    | inr client ↦
        rw (busy, client)
          (receive_from-Stores c fd (outside.receives fd) after well (sane.messages fd)
            (rw (busy, client) at done))
  ]
]

-- A state of the system after readings that have arrived from `s` on.
pub record Follows (a : Arithmetic) (s t : System) (rs : List Reading) : Type 0 where
  pub made : List ℕ
  pub history : History a (view s.collector.sensor_data) rs made
  pub agrees : Agrees (view t.collector.sensor_data) (replay rs (view s.collector.sensor_data))
  pub sent : sent_sums t.processor.effects ≡ sent_sums s.processor.effects ++ made

module _ (a : Arithmetic) (m : ℕ) where
  arrived-Follows :
      {s t : System} {rs : List Reading} (r : Reading) (bytes : List ℕ) (after : Collector)
      → IsWell t.collector
      → IsReading r
      → r.bytes ≡ bytes
      → after ≡ collected t.collector bytes
      → Follows a s t rs
      → Follows a s (record t { collector = after }) (rs ++ (r ∷ []))
  arrived-Follows {s} {t} {rs} r bytes after well reading same stored f = record {
    made = f.made;
    history = arrives f.history r;
    agrees = rw (replay-arrived rs (view s.collector.sensor_data) r) λ x k q.
        ap (λ (c : Collector). view c.sensor_data x k)
          (stored ∙ ap (collected t.collector) (sym same))
        ∙ view-collected t.collector r well reading x k q
        ∙ update_cong (view t.collector.sensor_data) (replay rs (view s.collector.sensor_data)) r
            f.agrees x k q;
    sent = f.sent;
  }

  served-Follows :
      {s t : System} {rs : List Reading} (after : Collector) (ms : List (List ℕ))
      (new : List Reading)
      → IsWell t.collector
      → AllReadings new
      → ms ≡ bytes_of new
      → Stores t.collector ms after
      → Follows a s t rs
      → Follows a s (record t { collector = after }) (rs ++ new)
  served-Follows {s} {t} {rs} after ms new well all said (inl idle) f =
      let none_new = no_bytes new (sym idle.0 ∙ said) in
      subst (Follows a s (record t { collector = after }))
        (sym (append-nil rs) ∙ ap (λ l. rs ++ l) (sym none_new))
        (record {
          made = f.made;
          history = f.history;
          agrees = λ x k q. ap (λ l. view l x k) idle.1 ∙ f.agrees x k q;
          sent = f.sent;
        })
  served-Follows {s} {t} {rs} after ms new well all said (inr found) f =
      let (bytes, one, stored) = found in
      let (r, is, same) = one_reading bytes new (sym one ∙ said) in
      subst (λ l. Follows a s (record t { collector = after }) (rs ++ l)) (sym is)
        (arrived-Follows r bytes after well (subst AllReadings is all).0 same stored f)

  waited-Follows :
      {s t : System} {rs : List Reading} (w : Waited) (after : Processor)
      → IsSound m t
      → processing_round a t.processor w t.collector.sensor_data ≡ some after
      → Follows a s t rs
      → Follows a s (record t { processor = after }) rs
  waited-Follows {s} {t} {rs} timed_out after sound done f =
      let found =
        processing_round-IsSum a t.processor t.collector.sensor_data sound.held sound.room
          sound.well.sensor_size in
      subst (λ p. Follows a s (record t { processor = p }) rs)
        (some-injective t.processor after (sym found.0 ∙ done)) f
  waited-Follows {s} {t} {rs} woken after sound done f =
      let (idle, p, done', sum, effects, held, sock) =
        processing_round-IsSum a t.processor t.collector.sensor_data sound.held sound.room
          sound.well.sensor_size in
      let latest = replay rs (view s.collector.sensor_data) in
      subst (λ p. Follows a s (record t { processor = p }) rs)
        (some-injective p after (sym done' ∙ done))
        (record {
          made = f.made ++ (total a (in_order latest) ∷ []);
          history = sums f.history;
          agrees = f.agrees;
          sent =
              ap sent_sums effects
              ∙ sent_sums-append t.processor.effects _
              ∙ ap (λ l. sent_sums t.processor.effects ++ (l ∷ []))
                  (sum.azimuth
                    ∙ ap (total a) (in_order_cong (view t.collector.sensor_data) latest f.agrees))
              ∙ ap (λ l. l ++ (total a (in_order latest) ∷ [])) f.sent
              ∙ append_assoc (sent_sums s.processor.effects) f.made _;
        })

  pub Reach-Follows :
      {s t : System}
      → IsSound m s
      → (run : Reach a m s t) (rs : List Reading) → messages run ≡ bytes_of rs
      → AllReadings rs
      → Follows a s t rs
  Reach-Follows {s} sound here rs said all =
      subst (Follows a s s) (sym (no_bytes rs said)) (record {
        made = [];
        history = started;
        agrees = λ x k q. refl;
        sent = sym (append-nil (sent_sums s.processor.effects));
      })
  Reach-Follows {s} sound (next before (serves t is_ready outside fd after sane acc done)) rs said
        all =
      let sound' = Reach-IsSound a m before sound in
      let (old, new, same, front, back, first, rest) =
        split_bytes (messages before) _ rs said all in
      subst (Follows a s (record t { collector = after })) (sym same) (
        served-Follows after _ new sound'.well rest back
          (serve_fd-Stores t.collector is_ready outside fd after sound'.well sane done)
          (Reach-Follows sound before old front first))
  Reach-Follows sound (next before (waits t w after done)) rs said all =
      waited-Follows w after (Reach-IsSound a m before sound) done
        (Reach-Follows sound before rs (sym (append-nil (messages before)) ∙ said) all)
