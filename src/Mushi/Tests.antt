-- ===== src/Mushi/Tests.antt =====
-- A consumer of three messages, and the theorems about it.
use grand_line.Common.{
  ℕ, ◌≡◌, ◌<◌, refl, String, none, some, Option, [], ◌∷◌, ◌==◌, ◌+◌, if◌then◌else◌,
}
use grand_line.Mushi.Consuming.{
  max_retries, ack, send_to_dead_letter, Decoded, event, malformed, Redis, Registry, Consumer, on,
  handlers_for, run_handlers, consume_loop,
}
use grand_line.Mushi.Justified.{IsJustified, consume_loop-IsJustified}
use grand_line.Mushi.Laws.{deliveries, deliveries-end}

-- Message 3 cannot be read, and the handler counts the events 7 and raises on the others.
abbrev read_number : ℕ → Decoded ℕ
read_number fields = if fields == 0 then malformed "no data" else event fields

abbrev count_sevens : ℕ → ℕ → Option String × ℕ
count_sevens e seen = if e == 7 then (none, seen + 1) else (some "boom", seen)

abbrev handlers : Registry ℕ ℕ
handlers = on "seven" count_sevens []

abbrev kind : ℕ → String
kind e = if e == 5 then "five" else "seven"

abbrev busy : Redis ℕ
busy = record {
  xautoclaim = λ sent. (2, 9) ∷ [];
  xreadgroup = λ sent. (1, 7) ∷ (3, 0) ∷ (4, 5) ∷ [];
  xpending = λ sent id. some 3;
}

abbrev idle_consumer : Consumer ℕ
idle_consumer = record { sent = []; seen = 0 }

consume_loop_run : consume_loop busy read_number kind handlers 1 idle_consumer ≡ record {
  sent =
      send_to_dead_letter 3 "no data" 0
      ∷ ack 3
      ∷ send_to_dead_letter 2 "boom" 3
      ∷ ack 2
      ∷ ack 1
      ∷ ack 4
      ∷ [];
  seen = 1;
}
unfolding consume_loop
consume_loop_run = refl

consume_loop-IsJustified_example :
    IsJustified busy read_number kind handlers []
      (consume_loop busy read_number kind handlers 2 idle_consumer).sent
consume_loop-IsJustified_example =
    consume_loop-IsJustified busy read_number kind handlers 2 idle_consumer tt

abbrev counting : ℕ → Redis ℕ
counting k = record {
  xautoclaim = λ sent. [];
  xreadgroup = λ sent. [];
  xpending = λ sent id. some k;
}

boom : (s : ℕ) → (run_handlers (handlers_for (kind 9) handlers) 9 s).0 ≡ some "boom"
unfolding run_handlers
boom s = refl

deliveries-end_example :
    ((n : ℕ)
      → n < max_retries
      → (deliveries counting read_number kind handlers 1 n (2, 9) idle_consumer).sent ≡ [])
    × ((deliveries counting read_number kind handlers 1 max_retries (2, 9) idle_consumer).sent
        ≡ send_to_dead_letter 2 "boom" 3 ∷ ack 2 ∷ [])
deliveries-end_example =
    deliveries-end counting read_number kind handlers (2, 9) "boom" (λ k sent. refl) boom
      idle_consumer
