-- ===== src/Mushi/Justified.antt =====
-- Why each command of a consumer of den_den_mushi/handlers.py was sent: the dead letters and the
-- acknowledgements, by the messages that Redis handed over.
use mathlib.Core.List.{append_assoc, append-nil}
use mathlib.Core.Path.{subst}
use grand_line.Common.{
  ℕ, zero, suc, ◌≡◌, ◌∙◌, refl, sym, ap, String, true, Option, none, some, List, [], ◌∷◌, ◌++◌, leb,
  Bool-cases, inl, inr, ◌⊎◌, All,
}
use grand_line.Mushi.Consuming.{
  max_retries, Command, ack, send_to_dead_letter, Decoded, event, malformed, Redis, Registry,
  Consumer, send, times_delivered, verdict, handlers_for, run_handlers, take_decoded, decode_all,
  handle_message, handle_all, consume_round, consume_loop,
}

-- A value that occurs in a list.
abbrev Among : {A : Type 0} → A → List A → Type 0
Among a [] = ⊥
Among a (x ∷ xs) = (a ≡ x) ⊎ Among a xs

abbrev IsPrefix : List Command → List Command → Type 0
IsPrefix p cs = (q : List Command) × (cs ≡ p ++ q)

prefix_refl : (cs : List Command) → IsPrefix cs cs
prefix_refl cs = ([], sym (append-nil cs))

prefix_trans : (a b c : List Command) → IsPrefix a b → IsPrefix b c → IsPrefix a c
prefix_trans a b c (q, e) (r, f) = (q ++ r, f ∙ ap (λ x. x ++ r) e ∙ append_assoc a q r)

module _ {E F S : Type 0} (redis : Redis F) (decode : F → Decoded E) (kind_of : E → String)
    (reg : Registry E S) where
  -- Redis handed the message over, as a stale one or as a new one, when it had got the first of the
  -- commands `past`.
  abbrev IsHanded : List Command → ℕ × F → Type 0
  IsHanded past m =
      (p : List Command) × IsPrefix p past
      × (Among m (redis.xautoclaim p) ⊎ Among m (redis.xreadgroup p))

  -- A message with this id was handed over, and its fields are malformed with this error.
  abbrev IsMalformed : List Command → ℕ → String → Type 0
  IsMalformed past id error =
      (fields : F) × IsHanded past (id, fields) × (decode fields ≡ malformed error)

  -- A message with this id was handed over that holds an event, and in some state the handlers of the
  -- event end with this result.
  abbrev IsEnded : List Command → ℕ → Option String → Type 0
  IsEnded past id result =
      (fields : F) × IsHanded past (id, fields)
      × ((e : E) × (decode fields ≡ event e)
          × ((s : S) × ((run_handlers (handlers_for (kind_of e) reg) e s).0 ≡ result)))

  -- The handlers raised this error, and the delivery count that Redis reports behind the commands `past`
  -- is this one and has reached the limit.
  abbrev IsFailed : List Command → ℕ → String → ℕ → Type 0
  IsFailed past id error count =
      IsEnded past id (some error)
      × (count ≡ times_delivered (redis.xpending past id))
      × (leb max_retries count ≡ true)

  -- Behind the commands `past`: each dead letter is of a malformed message, with the count 0, or of a
  -- failed one, and the acknowledgement of that message follows it at once. The handlers returned for
  -- the message of any other acknowledgement.
  abbrev pub IsJustified : List Command → List Command → Type 0
  IsJustified past [] = Unit
  IsJustified past (ack id ∷ cs) = IsEnded past id none × IsJustified (past ++ ack id ∷ []) cs
  IsJustified past (send_to_dead_letter id error count ∷ []) = ⊥
  IsJustified past (send_to_dead_letter id error count ∷ ack other ∷ cs) =
      ((count ≡ 0) × IsMalformed past id error ⊎ IsFailed past id error count)
      × (other ≡ id)
      × IsJustified (past ++ send_to_dead_letter id error count ∷ ack other ∷ []) cs
  IsJustified past (send_to_dead_letter id error count ∷ send_to_dead_letter i r n ∷ cs) = ⊥

  append-IsJustified :
      (past cs ds : List Command)
      → IsJustified past cs
      → IsJustified (past ++ cs) ds
      → IsJustified past (cs ++ ds)
  append-IsJustified past [] ds h k = subst (λ x. IsJustified x ds) (append-nil past) k
  append-IsJustified past (ack id ∷ cs) ds (a, h) k = (
    a,
    append-IsJustified (past ++ ack id ∷ []) cs ds h
        (subst (λ x. IsJustified x ds) (sym (append_assoc past (ack id ∷ []) cs)) k),
  )
  append-IsJustified past (send_to_dead_letter id error count ∷ []) ds h k = absurd h
  append-IsJustified past (send_to_dead_letter id error count ∷ ack other ∷ cs) ds (a, e, h) k =
      let both : List Command = send_to_dead_letter id error count ∷ ack other ∷ [] in
      (
        a,
        e,
        append-IsJustified (past ++ both) cs ds h
            (subst (λ x. IsJustified x ds) (sym (append_assoc past both cs)) k),
      )
  append-IsJustified past (send_to_dead_letter i r n ∷ send_to_dead_letter j t k ∷ cs) ds h l =
      absurd h

  later-IsHanded : (a b : List Command) (m : ℕ × F) → IsPrefix a b → IsHanded a m → IsHanded b m
  later-IsHanded a b m l (p, i, h) = (p, prefix_trans p a b i l, h)

  -- A decoded message comes from one that was handed over.
  abbrev IsRead : List Command → ℕ × E → Type 0
  IsRead past (id, e) = (fields : F) × IsHanded past (id, fields) × (decode fields ≡ event e)

  later-All :
      (a b : List Command) (ms : List (ℕ × E))
      → IsPrefix a b
      → All (IsRead a) ms
      → All (IsRead b) ms
  later-All a b [] l h = tt
  later-All a b ((id, e) ∷ ms) l ((fields, i, k), h) =
      ((fields, later-IsHanded a b (id, fields) l i, k), later-All a b ms l h)

  append-All :
      (past : List Command) (xs ys : List (ℕ × E))
      → All (IsRead past) xs
      → All (IsRead past) ys
      → All (IsRead past) (xs ++ ys)
  append-All past [] ys h k = k
  append-All past (x ∷ xs) ys (a, h) k = (a, append-All past xs ys h k)

  verdict-IsJustified :
      (id : ℕ) (e : E) (s : S) (past : List Command) (result : Option String)
      → IsRead past (id, e)
      → (run_handlers (handlers_for (kind_of e) reg) e s).0 ≡ result
      → IsJustified past (verdict id result (times_delivered (redis.xpending past id)))
  verdict-IsJustified id e s past none (fields, h, k) r = ((fields, h, (e, k, (s, r))), tt)
  verdict-IsJustified id e s past (some error) (fields, h, k) r =
      elim (Bool-cases (leb max_retries (times_delivered (redis.xpending past id)))) [
        | inl l ↦ rw l (inr ((fields, h, (e, k, (s, r))), refl, l), refl, tt)
        | inr l ↦ rw l tt
      ]

  -- What a read leaves behind the commands `past`: messages that were handed over, and justified
  -- commands.
  abbrev IsTaken : List Command → List (ℕ × E) × Consumer S → Type 0
  IsTaken past (ms, d) = All (IsRead d.sent) ms × IsJustified [] d.sent × IsPrefix past d.sent

  take_decoded-IsTaken :
      (id : ℕ) (fields : F) (r : Decoded E) (more : Consumer S → List (ℕ × E) × Consumer S)
      (d : Consumer S)
      → IsHanded d.sent (id, fields)
      → decode fields ≡ r
      → ((v : Consumer S)
          → IsJustified [] v.sent
          → IsPrefix d.sent v.sent
          → IsTaken v.sent (more v))
      → IsJustified [] d.sent
      → IsTaken d.sent (take_decoded id r more d)
  take_decoded-IsTaken id fields (event e) more d a q ih h =
      let (ms, j, l) = ih d h (prefix_refl d.sent) in
      (((fields, later-IsHanded d.sent (more d).1.sent (id, fields) l a, q), ms), j, l)
  take_decoded-IsTaken id fields (malformed error) more d a q ih h =
      let letter : List Command = send_to_dead_letter id error 0 ∷ ack id ∷ [] in
      let (ms, j, l) =
        ih (send letter d)
          (append-IsJustified [] d.sent letter h (inl (refl, (fields, a, q)), refl, tt))
          (letter, refl) in
      (ms, j, prefix_trans d.sent (d.sent ++ letter) (more (send letter d)).1.sent (letter, refl) l)

  decode_all-IsTaken :
      (raw : List (ℕ × F)) (d : Consumer S)
      → ((m : ℕ × F) → Among m raw → IsHanded d.sent m)
      → IsJustified [] d.sent
      → IsTaken d.sent (decode_all decode raw d)
  unfolding decode_all
  decode_all-IsTaken [] d a h = (tt, h, prefix_refl d.sent)
  decode_all-IsTaken ((id, fields) ∷ raw) d a h =
      take_decoded-IsTaken id fields (decode fields) (decode_all decode raw) d
        (a (id, fields) (inl refl)) refl
        (λ v j l.
          decode_all-IsTaken raw v (λ m i. later-IsHanded d.sent v.sent m l (a m (inr i))) j)
        h

  handle_all-IsJustified :
      (ms : List (ℕ × E)) (d : Consumer S)
      → All (IsRead d.sent) ms
      → IsJustified [] d.sent
      → IsJustified [] (handle_all redis decode kind_of reg ms d).sent
  unfolding handle_all handle_message
  handle_all-IsJustified [] d a h = h
  handle_all-IsJustified ((id, e) ∷ ms) d (a, rest) h =
      let d' = handle_message redis decode kind_of reg (id, e) d in
      handle_all-IsJustified ms d' (later-All d.sent d'.sent ms (_, refl) rest) (
        append-IsJustified [] d.sent _ h (
          verdict-IsJustified id e d.seen d.sent
            (run_handlers (handlers_for (kind_of e) reg) e d.seen).0 a refl))

  -- However Redis answers, whatever the handlers do, and for any number of rounds: if the commands
  -- sent before are justified, then so are those sent with the rounds. Each dead letter is of a message
  -- that Redis handed over before it, and that is malformed (with the count 0) or holds an event whose
  -- handlers in some state raise the error of the letter, when Redis reports the count of the letter, at
  -- least `max_retries`; the acknowledgement of the message follows at once. Each other acknowledgement
  -- is of a message that Redis handed over before it, with an event whose handlers in some state return.
  pub consume_loop-IsJustified :
      (rounds : ℕ) (d : Consumer S)
      → IsJustified [] d.sent
      → IsJustified [] (consume_loop redis decode kind_of reg rounds d).sent
  unfolding consume_loop consume_round
  consume_loop-IsJustified zero d h = h
  consume_loop-IsJustified (suc rounds) d h =
      let (stale, d') = decode_all decode (redis.xautoclaim d.sent) d in
      let (messages, d'') = decode_all decode (redis.xreadgroup d'.sent) d' in
      let (a, h', l) =
        decode_all-IsTaken (redis.xautoclaim d.sent) d (λ m i. (d.sent, prefix_refl d.sent, inl i))
          h in
      let (a', h'', l') =
        decode_all-IsTaken (redis.xreadgroup d'.sent) d'
          (λ m i. (d'.sent, prefix_refl d'.sent, inr i)) h' in
      consume_loop-IsJustified rounds (consume_round redis decode kind_of reg d) (
        handle_all-IsJustified (stale ++ messages) d''
          (append-All d''.sent stale messages (later-All d'.sent d''.sent stale l' a) a') h'')
