-- ===== src/Raop/Fifo/Trace.antt =====
-- Whole lives of a backlog: any sequence of calls, against the queue.
use pyatv_rs.Prelude.{
  ℕ, suc, ◌≤◌, ◌≡◌, ◌≢◌, ◌∙◌, sym, subst, refl, ap, Bool, Option, List, [], ◌∷◌, length, find_key,
  arith, length-append,
}
use pyatv_rs.Raop.Fifo.{PacketFifo, new, len, insert, get, clear}
use pyatv_rs.Raop.Fifo.Refine.{
  Queue, push, room, without_oldest, Implements, Agree, insert-Agree, new-Implements,
}

pub data Call {ℓ} (P : Type ℓ) : Type ℓ where
  put : ℕ → P → Call P
  look : ℕ → Call P
  measure : Call P
  reset : Call P

pub data Reply {ℓ} (P : Type ℓ) : Type ℓ where
  stored : Bool → Reply P
  found : Option P → Reply P
  holds : ℕ → Reply P
  emptied : Reply P

module _ {ℓ} {P : Type ℓ} where
  -- A client's calls in order, with what each returns.
  unfoldable pub run : PacketFifo P → List (Call P) → List (Reply P)
  run f [] = []
  run f (put k p ∷ calls) = let (done, f') = insert k p f in stored done ∷ run f' calls
  run f (look k ∷ calls) = found (get k f) ∷ run f calls
  run f (measure ∷ calls) = holds (len f) ∷ run f calls
  run f (reset ∷ calls) = emptied ∷ run (clear f) calls

  -- The same calls to a queue with a limit.
  unfoldable pub run_queue : ℕ → Queue P → List (Call P) → List (Reply P)
  unfolding push
  run_queue limit q [] = []
  run_queue limit q (put k p ∷ calls) =
      let (done, q') = push limit k p q in stored done ∷ run_queue limit q' calls
  run_queue limit q (look k ∷ calls) = found (find_key k q) ∷ run_queue limit q calls
  run_queue limit q (measure ∷ calls) = holds (length q) ∷ run_queue limit q calls
  run_queue limit q (reset ∷ calls) = emptied ∷ run_queue limit [] calls

  clear-Implements : (q : Queue P) (f : PacketFifo P) → Implements q f → Implements [] (clear f)
  unfolding clear find_key
  clear-Implements q f i = record {
    keys = refl;
    size = refl;
    packets = λ k. refl;
    distinct = tt;
    distinct_items = tt;
  }

  run_lem :
      (limit : ℕ) (calls : List (Call P)) (q : Queue P) (f : PacketFifo P)
      → Implements q f
      → f.upper_limit ≡ limit
      → run f calls ≡ run_queue limit q calls
  unfolding run run_queue get len
  run_lem limit [] q f i e = refl
  run_lem limit (put k p ∷ calls) q f i e =
      let (same, impl, lim) =
        subst (λ n. Agree (insert k p f) (push n k p q) n) e (insert-Agree q f k p i) in
      ap (λ b. stored b ∷ run (insert k p f).1 calls) same
      ∙ ap (λ r. stored (push limit k p q).0 ∷ r)
          (run_lem limit calls (push limit k p q).1 (insert k p f).1 impl lim)
  run_lem limit (look k ∷ calls) q f i e =
      ap (λ o. found o ∷ run f calls) (i.packets k)
      ∙ ap (λ r. found (find_key k q) ∷ r) (run_lem limit calls q f i e)
  run_lem limit (measure ∷ calls) q f i e =
      ap (λ n. holds n ∷ run f calls) i.size
      ∙ ap (λ r. holds (length q) ∷ r) (run_lem limit calls q f i e)
  run_lem limit (reset ∷ calls) q f i e =
      ap (λ r. emptied ∷ r)
        (run_lem limit calls [] (clear f) (clear-Implements q f i) (unfold clear in e))

  length-room :
      (limit : ℕ) (q : Queue P) → length q ≤ limit → limit ≢ 0 → suc (length (room limit q)) ≤ limit
  unfolding room without_oldest
  length-room limit [] h n = ground arith
  length-room limit (x ∷ q) h n = ground arith

  -- An insertion never leaves more packets than the limit.
  length-push :
      (limit k : ℕ) (p : P) (q : Queue P) → length q ≤ limit → length (push limit k p q).1 ≤ limit
  unfolding push
  length-push limit k p q h =
      ground (arith, length-room limit q, length-append (room limit q) ((k, p) ∷ []))

  -- A new backlog answers any sequence of calls as the queue with its limit does: it refuses a
  -- sequence number that it has, it evicts what was inserted first, and it finds exactly the packets
  -- that are left.
  pub run-run_queue :
      (limit : ℕ) (calls : List (Call P)) → run (new limit) calls ≡ run_queue limit [] calls
  unfolding new
  run-run_queue limit calls = run_lem limit calls [] (new limit) (new-Implements limit) refl

  -- No reply tells of more packets than `limit`.
  abbrev pub IsWithin : ℕ → List (Reply P) → Type 0
  IsWithin limit [] = Unit
  IsWithin limit (holds n ∷ replies) = (n ≤ limit) × IsWithin limit replies
  IsWithin limit (_ ∷ replies) = IsWithin limit replies

  run_queue-IsWithin :
      (limit : ℕ) (calls : List (Call P)) (q : Queue P)
      → length q ≤ limit
      → IsWithin limit (run_queue limit q calls)
  unfolding run_queue
  run_queue-IsWithin limit [] q h = tt
  run_queue-IsWithin limit (put k p ∷ calls) q h =
      run_queue-IsWithin limit calls (push limit k p q).1 (length-push limit k p q h)
  run_queue-IsWithin limit (look k ∷ calls) q h = run_queue-IsWithin limit calls q h
  run_queue-IsWithin limit (measure ∷ calls) q h = (h, run_queue-IsWithin limit calls q h)
  run_queue-IsWithin limit (reset ∷ calls) q h = run_queue-IsWithin limit calls [] (omega arith)

  -- Whatever is called on a new backlog, it never holds more packets than its limit.
  pub run-IsWithin : (limit : ℕ) (calls : List (Call P)) → IsWithin limit (run (new limit) calls)
  run-IsWithin limit calls =
      subst (IsWithin limit) (sym (run-run_queue limit calls))
        (run_queue-IsWithin limit calls [] (omega arith))
