-- ===== src/Mushi/Consuming.antt =====
-- `claim_stale` and `read` of den_den_mushi/mushi.py, and the registry and `consume_loop` of
-- den_den_mushi/handlers.py, for one stream and one group. Redis is a parameter: what it answers may
-- depend on the commands that it got. Commands are taken to succeed.
use grand_line.Common.{
  ℕ, zero, suc, String, Option, none, some, List, [], ◌∷◌, ◌++◌, str_eq, leb, if◌then◌else◌,
}

-- `MAX_RETRIES`
abbrev pub max_retries : ℕ
max_retries = 3

-- The commands of a consumer that change a stream: `xack`, and `xadd` to the stream of dead letters with
-- the id, the error and the retry count of a message.
pub data Command : Type 0 where
  ack : ℕ → Command
  send_to_dead_letter : ℕ → String → ℕ → Command

-- What `parse_event` makes of the fields of a message: an event, or an error.
pub data Decoded (E : Type 0) : Type 0 where
  event : E → Decoded E
  malformed : String → Decoded E

-- What Redis answers: stale messages of the group that `xautoclaim` hands over, new messages of
-- `xreadgroup`, and the delivery count of a message by `xpending_range`.
pub record Redis (F : Type 0) : Type 0 where
  pub xautoclaim : List Command → List (ℕ × F)
  pub xreadgroup : List Command → List (ℕ × F)
  pub xpending : List Command → ℕ → Option ℕ

-- A handler of events `E`, on the state `S` of all handlers, returns or raises with an error text.
abbrev pub Handler : Type 0 → Type 0 → Type 0
Handler E S = E → S → Option String × S

abbrev pub Registry : Type 0 → Type 0 → Type 0
Registry E S = List (String × List (Handler E S))

-- The commands so far, and the state of the handlers.
pub record Consumer (S : Type 0) : Type 0 where
  pub sent : List Command
  pub seen : S

abbrev pub send : {S : Type 0} → List Command → Consumer S → Consumer S
send cs d = record d { sent = d.sent ++ cs }

abbrev pub times_delivered : Option ℕ → ℕ
times_delivered none = 0
times_delivered (some n) = n

-- What is sent behind the handlers, by their error and the delivery count.
abbrev pub verdict : ℕ → Option String → ℕ → List Command
verdict id none count = ack id ∷ []
verdict id (some error) count =
    if leb max_retries count then send_to_dead_letter id error count ∷ ack id ∷ [] else []

module _ {E S : Type 0} where
  -- `HandlerRegistry.on`
  abbrev pub on : String → Handler E S → Registry E S → Registry E S
  on kind h [] = (kind, h ∷ []) ∷ []
  on kind h ((k, hs) ∷ reg) =
      let rest = on kind h reg in if str_eq k kind then (k, hs ++ h ∷ []) ∷ reg else (k, hs) ∷ rest

  -- `HandlerRegistry.handlers_for`
  abbrev pub handlers_for : String → Registry E S → List (Handler E S)
  handlers_for kind [] = []
  handlers_for kind ((k, hs) ∷ reg) =
      let rest = handlers_for kind reg in if str_eq k kind then hs else rest

  -- The handlers of an event, up to the first that raises.
  unfoldable pub run_handlers : List (Handler E S) → E → S → Option String × S
  run_handlers [] e s = (none, s)
  run_handlers (h ∷ hs) e s =
      let (r, s') = h e s in elim r [ none ↦ run_handlers hs e s' | some error ↦ (some error, s') ]

  -- One turn of the loop that `read` and `claim_stale` have in common, and the turns behind it: a
  -- malformed message becomes a dead letter.
  abbrev pub take_decoded :
      ℕ
      → Decoded E
      → (Consumer S → List (ℕ × E) × Consumer S)
      → Consumer S
      → List (ℕ × E) × Consumer S
  take_decoded id (event e) more d = let (rest, d') = more d in ((id, e) ∷ rest, d')
  take_decoded id (malformed error) more d =
      more (send (send_to_dead_letter id error 0 ∷ ack id ∷ []) d)

  unfoldable pub decode_all :
      {F : Type 0} → (F → Decoded E) → List (ℕ × F) → Consumer S → List (ℕ × E) × Consumer S
  decode_all decode [] d = ([], d)
  decode_all decode ((id, fields) ∷ raw) d =
      take_decoded id (decode fields) (decode_all decode raw) d

module _ {E F S : Type 0} (redis : Redis F) (decode : F → Decoded E) (kind_of : E → String)
    (reg : Registry E S) where
  -- One message; without a handler it is only acknowledged.
  unfoldable pub handle_message : ℕ × E → Consumer S → Consumer S
  unfolding run_handlers
  handle_message (id, e) d =
      let (error, s) = run_handlers (handlers_for (kind_of e) reg) e d.seen in
      let count = times_delivered (redis.xpending d.sent id) in
      send (verdict id error count) (record d { seen = s })

  unfoldable pub handle_all : List (ℕ × E) → Consumer S → Consumer S
  unfolding handle_message
  handle_all [] d = d
  handle_all (m ∷ ms) d = handle_all ms (handle_message m d)

  -- One round of the loop: stale messages first.
  unfoldable pub consume_round : Consumer S → Consumer S
  unfolding decode_all handle_all
  consume_round d =
      let (stale, d') = decode_all decode (redis.xautoclaim d.sent) d in
      let (messages, d'') = decode_all decode (redis.xreadgroup d'.sent) d' in
      handle_all (stale ++ messages) d''

  -- `while True`, for as many rounds as the consumer lives.
  unfoldable pub consume_loop : ℕ → Consumer S → Consumer S
  unfolding consume_round
  consume_loop zero d = d
  consume_loop (suc rounds) d = consume_loop rounds (consume_round d)
