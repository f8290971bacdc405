-- ===== src/Mushi/Laws.antt =====
-- When a message whose handlers raise is given up by the consumer of den_den_mushi/handlers.py.
use grand_line.Common.{
  ℕ, zero, suc, ◌≡◌, ◌∙◌, ◌+◌, ◌≤◌, ◌<◌, refl, ap, String, some, List, [], ◌∷◌, ◌++◌, arith,
}
use grand_line.Mushi.Consuming.{
  max_retries, Command, ack, send_to_dead_letter, Decoded, Redis, Registry, Consumer, verdict,
  handlers_for, run_handlers, handle_message,
}

++-nil : {A : Type 0} (xs : List A) → xs ++ [] ≡ xs
++-nil [] = refl
++-nil (x ∷ xs) = ap (λ ys. x ∷ ys) (++-nil xs)

early : (id : ℕ) (error : String) (k : ℕ) → k < max_retries → verdict id (some error) k ≡ []
early id error k h = ground arith

last :
    (id : ℕ) (error : String) (k : ℕ)
    → k ≡ max_retries
    → verdict id (some error) k ≡ send_to_dead_letter id error max_retries ∷ ack id ∷ []
last id error k h = ground arith

-- A message that is delivered again and again, the first time with the number `k`, when Redis answers
-- as `at` says for each delivery.
module _ {E F S : Type 0} (at : ℕ → Redis F) (decode : F → Decoded E) (kind_of : E → String)
    (reg : Registry E S) where
  abbrev pub deliveries : ℕ → ℕ → ℕ × E → Consumer S → Consumer S
  deliveries k zero m d = d
  deliveries k (suc n) m d = deliveries (suc k) n m (handle_message (at k) decode kind_of reg m d)

  module _ (m : ℕ × E) (error : String)
      (counts : (k : ℕ) (sent : List Command) → (at k).xpending sent m.0 ≡ some k)
      (fails : (s : S) → (run_handlers (handlers_for (kind_of m.1) reg) m.1 s).0 ≡ some error) where
    delivery :
        (k : ℕ) (d : Consumer S)
        → (handle_message (at k) decode kind_of reg m d).sent ≡ d.sent ++ verdict m.0 (some error) k
    unfolding handle_message
    delivery k d = rw (counts k d.sent, fails d.seen) refl

    still_pending :
        (n k : ℕ) (d : Consumer S) → k + n ≤ max_retries → (deliveries k n m d).sent ≡ d.sent
    still_pending zero k d h = refl
    still_pending (suc n) k d h =
        still_pending n (suc k) (handle_message (at k) decode kind_of reg m d) (omega (arith, h))
        ∙ delivery k d
        ∙ ap (λ cs. d.sent ++ cs) (early m.0 error k (omega (arith, h)))
        ∙ ++-nil d.sent

    given_up :
        (n k : ℕ) (d : Consumer S)
        → k + n ≡ max_retries
        → (deliveries k (suc n) m d).sent
          ≡ d.sent ++ send_to_dead_letter m.0 error max_retries ∷ ack m.0 ∷ []
    given_up zero k d h =
        delivery k d ∙ ap (λ cs. d.sent ++ cs) (last m.0 error k (omega (arith, h)))
    given_up (suc n) k d h =
        given_up n (suc k) (handle_message (at k) decode kind_of reg m d) (omega (arith, h))
        ∙ ap (λ cs. cs ++ send_to_dead_letter m.0 error max_retries ∷ ack m.0 ∷ [])
            (still_pending 1 k d (omega (arith, h)))

    -- If Redis reports `k` for the k-th delivery of a message, and its handlers always raise, then
    -- deliveries before the `max_retries`-th send nothing, so that the message stays pending, and with
    -- the `max_retries`-th it becomes a dead letter and is acknowledged.
    pub deliveries-end :
        (d : Consumer S)
        → ((n : ℕ) → n < max_retries → (deliveries 1 n m d).sent ≡ d.sent)
          × ((deliveries 1 max_retries m d).sent
              ≡ d.sent ++ send_to_dead_letter m.0 error max_retries ∷ ack m.0 ∷ [])
    deliveries-end d = (λ n h. still_pending n 1 d (omega (arith, h)), given_up 2 1 d refl)
