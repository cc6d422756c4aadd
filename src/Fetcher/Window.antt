-- ===== src/Fetcher/Window.antt =====
-- What keeps the window: the pending Interests are older than the queued ones.
use m_svs.Base.{
  ℕ, suc, ◌%◌, ◌^◌, ◌≤◌, ◌<◌, ◌≡◌, refl, true, List, [], ◌∷◌, ◌++◌, length, ltb, none, arith,
  if_cases,
}
use m_svs.Std.Ord.{nat_ord}
use m_svs.Std.Map.{
  find, insert, find-insert, find-erase-none, erase-IsSorted, erase, has, IsSorted, insert-IsSorted,
  length-insert_new, length-erase,
}
use m_svs.Fetcher.{
  QueuedInterest, Call, Fetcher, window_size, note, process, process_queue, express_queued,
  finished, on_timeout, is_zero,
}

module _ {I : Type 0} where
  -- The ids rise strictly from `n`.
  abbrev pub Rises : ℕ → List (QueuedInterest I) → Type 0
  Rises n [] = Unit {0}
  Rises n (q ∷ rest) = (n < q.id) × Rises q.id rest

  abbrev pub last_id : ℕ → List (QueuedInterest I) → ℕ
  last_id n [] = n
  last_id n (q ∷ rest) = last_id q.id rest

  -- The pending ids are in order and not above `mark`, from which the queued ids rise to the counter.
  pub record IsOrdered (queue : List (QueuedInterest I)) (f : Fetcher I) : Type 0 where
    pub mark : ℕ
    pub old : (k : ℕ) → mark < k → find k f.pending_interests ≡ none
    pub rises : Rises mark queue
    pub recent : last_id mark queue ≤ f.interest_id_counter
    pub sorted : IsSorted f.pending_interests
    pub bounded : length f.pending_interests ≤ window_size

  pub record IsTidy (f : Fetcher I) : Type 0 where
    pub ordered : IsOrdered f.interest_queue f
    pub busy : 0 < length f.interest_queue → window_size ≤ length f.pending_interests

  -- Sending the first of the queue, when the window has room.
  pub sent-IsOrdered :
      (q : QueuedInterest I) (rest : List (QueuedInterest I)) (f : Fetcher I)
      → IsOrdered (q ∷ rest) f
      → length f.pending_interests < window_size
      → IsOrdered rest (
          note
            (Call.express q)
            (record f { pending_interests = insert q.id q f.pending_interests }))
  sent-IsOrdered q rest f h room =
      let pending = f.pending_interests in
      record {
        mark = q.id;
        old = λ k l. ground (arith, find-insert k q.id q pending, h.old k, h.rises.0);
        rises = h.rises.1;
        recent = h.recent;
        sorted = insert-IsSorted q.id q pending h.sorted;
        bounded = omega (arith, length-insert_new q.id q pending (h.old q.id h.rises.0));
      }

  process-IsTidy :
      (queue : List (QueuedInterest I)) (f : Fetcher I)
      → IsOrdered queue f
      → IsTidy (process queue f)
  unfolding process
  process-IsTidy [] f h = record {
    ordered = record {
      mark = h.mark;
      old = h.old;
      rises = tt;
      recent = h.recent;
      sorted = h.sorted;
      bounded = h.bounded;
    };
    busy = λ l. omega arith;
  }
  process-IsTidy (q ∷ rest) f h =
      let pending = f.pending_interests in
      if_cases IsTidy (ltb (length pending) window_size)
        (λ e. process-IsTidy rest _ (sent-IsOrdered q rest f h (ground arith)))
        (λ e. record {
          ordered = record {
            mark = h.mark;
            old = h.old;
            rises = h.rises;
            recent = h.recent;
            sorted = h.sorted;
            bounded = h.bounded;
          };
          busy = λ l. ground arith;
        })

  queued :
      (n : ℕ) (queue : List (QueuedInterest I)) (q : QueuedInterest I)
      → Rises n queue
      → last_id n queue < q.id
      → Rises n (queue ++ (q ∷ [])) × (last_id n (queue ++ (q ∷ [])) ≡ q.id)
  queued n [] q r l = ((l, tt), refl)
  queued n (p ∷ queue) q r l = let later = queued p.id queue q r.1 l in ((r.0, later.0), later.1)

  pub queued-IsOrdered :
      (qi : QueuedInterest I) (f : Fetcher I)
      → suc f.interest_id_counter < 2 ^ 64
      → IsOrdered f.interest_queue f
      → let q = record qi { id = suc f.interest_id_counter % 2 ^ 64 } in
        let queue = f.interest_queue ++ (q ∷ []) in
        IsOrdered queue (record f { interest_id_counter = q.id; interest_queue = queue })
  queued-IsOrdered qi f room h =
      let q = record qi { id = suc f.interest_id_counter % 2 ^ 64 } in
      let added = queued h.mark f.interest_queue q h.rises (omega (arith, h.recent)) in
      record {
        mark = h.mark;
        old = h.old;
        rises = added.0;
        recent = omega (arith, added.1);
        sorted = h.sorted;
        bounded = h.bounded;
      }

  -- `expressInterest` keeps a fetcher tidy, short of 2 ^ 64 Interests.
  pub express-IsTidy :
      (qi : QueuedInterest I) (f : Fetcher I)
      → suc f.interest_id_counter < 2 ^ 64
      → IsOrdered f.interest_queue f
      → IsTidy (express_queued qi f)
  unfolding express_queued process_queue
  express-IsTidy qi f room h = process-IsTidy _ _ (queued-IsOrdered qi f room h)

  pub erased-IsOrdered :
      (k : ℕ) (f : Fetcher I)
      → IsTidy f
      → has k f.pending_interests ≡ true
      → IsOrdered f.interest_queue (record f { pending_interests = erase k f.pending_interests })
  erased-IsOrdered k f t found =
      let h = t.ordered in
      record {
        mark = h.mark;
        old = λ i l. find-erase-none i k f.pending_interests (h.old i l);
        rises = h.rises;
        recent = h.recent;
        sorted = erase-IsSorted k f.pending_interests h.sorted;
        bounded = omega (arith, h.bounded, length-erase k f.pending_interests found);
      }

  pub note-IsTidy : (call : Call I) (f : Fetcher I) → IsTidy f → IsTidy (note call f)
  note-IsTidy call f t =
      let h = t.ordered in
      record {
        ordered = record {
          mark = h.mark;
          old = h.old;
          rises = h.rises;
          recent = h.recent;
          sorted = h.sorted;
          bounded = h.bounded;
        };
        busy = t.busy;
      }

  pub finished-IsTidy :
      (qi : QueuedInterest I) (f : Fetcher I)
      → IsTidy f
      → has qi.id f.pending_interests ≡ true
      → IsTidy (finished qi f)
  unfolding finished process_queue
  finished-IsTidy qi f t found =
      process-IsTidy f.interest_queue _ (erased-IsOrdered qi.id f t found)

  pub timeout-IsTidy :
      (qi : QueuedInterest I) (f : Fetcher I)
      → suc f.interest_id_counter < 2 ^ 64
      → IsTidy f
      → has qi.id f.pending_interests ≡ true
      → IsTidy (on_timeout qi f)
  unfolding on_timeout process_queue
  timeout-IsTidy qi f room t found =
      let h = erased-IsOrdered qi.id f t found in
      if_cases IsTidy (is_zero qi.n_retries)
        (λ _. note-IsTidy _ _ (process-IsTidy f.interest_queue _ h))
        (λ _. express-IsTidy _ _ room h)
