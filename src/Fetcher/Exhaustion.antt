-- ===== src/Fetcher/Exhaustion.antt =====
-- The fetcher gives up: the face's replies use up the retries.
use m_svs.Base.{
  ℕ, zero, suc, ◌+◌, ◌%◌, ◌^◌, ◌≤◌, ◌<◌, ◌≡◌, refl, Bool, true, false, List, [], ◌∷◌, ◌++◌, some,
  none, length, ltb, arith, if_cases, ap, is_some,
}
use m_svs.Std.Ord.{nat_ord}
use m_svs.Std.Map.{Map, find, insert, erase, has}
use m_svs.Double.{ℤ, pos, negsuc}
use m_svs.Fetcher.{
  QueuedInterest, Fetcher, window_size, process, process_queue, express_queued, finished, on_data,
  on_nack, on_timeout, is_zero, pred,
}
use m_svs.Fetcher.Window.{IsOrdered, erased-IsOrdered, sent-IsOrdered, queued-IsOrdered}
use m_svs.Fetcher.Run.{Step, Reach, Reach-IsTidy}

-- How many replies an Interest may still wait for; one with a negative number of retries counts as
-- none.
abbrev pub attempts : ℤ → ℕ
attempts (pos n) = suc n
attempts (negsuc n) = 0

-- Whether a reply counts.
abbrev pub counts : ℤ → ℕ
counts (pos n) = 1
counts (negsuc n) = 0

counts-attempts : (z : ℤ) → counts z ≤ attempts z
counts-attempts (pos n) = omega arith
counts-attempts (negsuc n) = omega arith

attempts-pred : (z : ℤ) → is_zero z ≡ false → counts z + attempts (pred z) ≤ attempts z
attempts-pred (pos zero) h = ground arith
attempts-pred (pos (suc n)) h = omega arith
attempts-pred (negsuc n) h = omega arith

module _ {I : Type 0} where
  abbrev pub queue_work : List (QueuedInterest I) → ℕ
  queue_work [] = 0
  queue_work (q ∷ rest) = attempts q.n_retries + queue_work rest

  abbrev pub pending_work : Map ℕ (QueuedInterest I) → ℕ
  pending_work [] = 0
  pending_work ((k, q) ∷ rest) = attempts q.n_retries + pending_work rest

  abbrev pub work : Fetcher I → ℕ
  work f = queue_work f.interest_queue + pending_work f.pending_interests

  pending_work-insert :
      (k : ℕ) (q : QueuedInterest I) (m : Map ℕ (QueuedInterest I))
      → find k m ≡ none
      → pending_work (insert k q m) ≡ attempts q.n_retries + pending_work m
  unfolding find insert
  pending_work-insert k q [] h = omega arith
  pending_work-insert k q ((j, w) ∷ m) h = ground (arith, pending_work-insert k q m)

  pending_work-erase :
      (k : ℕ) (q : QueuedInterest I) (m : Map ℕ (QueuedInterest I))
      → find k m ≡ some q
      → attempts q.n_retries + pending_work (erase k m) ≡ pending_work m
  unfolding find erase
  pending_work-erase k q [] h = ground arith
  pending_work-erase k q ((j, w) ∷ m) h = ground (arith, pending_work-erase k q m)

  queue_work-append :
      (l : List (QueuedInterest I)) (q : QueuedInterest I)
      → queue_work (l ++ (q ∷ [])) ≡ queue_work l + attempts q.n_retries
  queue_work-append [] q = omega arith
  queue_work-append (x ∷ l) q = omega (arith, queue_work-append l q)

  work-process :
      (queue : List (QueuedInterest I)) (f : Fetcher I)
      → IsOrdered queue f
      → work (process queue f) ≡ queue_work queue + pending_work f.pending_interests
  unfolding process
  work-process [] f h = refl
  work-process (q ∷ rest) f h =
      let pending = f.pending_interests in
      let added = pending_work-insert q.id q pending (h.old q.id h.rises.0) in
      if_cases
        (λ (g : Fetcher I). work g ≡ attempts q.n_retries + queue_work rest + pending_work pending)
        (ltb (length pending) window_size)
        (λ e. omega (arith, added, work-process rest _ (sent-IsOrdered q rest f h (ground arith))))
        (λ e. refl)

  work-express :
      (qi : QueuedInterest I) (f : Fetcher I)
      → suc f.interest_id_counter < 2 ^ 64
      → IsOrdered f.interest_queue f
      → work (express_queued qi f) ≡ attempts qi.n_retries + work f
  unfolding express_queued process_queue
  work-express qi f room h =
      let q = record qi { id = suc f.interest_id_counter % 2 ^ 64 } in
      omega (
        arith,
        work-process _ _ (queued-IsOrdered qi f room h),
        queue_work-append f.interest_queue q,
      )

  -- A reply of the face to a pending Interest, with its count.
  pub data Reply (f : Fetcher I) : ℕ → Fetcher I → Type 0 where
    timed_out :
        (qi : QueuedInterest I)
        → suc f.interest_id_counter < 2 ^ 64
        → find qi.id f.pending_interests ≡ some qi
        → Reply f (counts qi.n_retries) (on_timeout qi f)
    nacked :
        (qi : QueuedInterest I)
        → find qi.id f.pending_interests ≡ some qi
        → Reply f (counts qi.n_retries) (on_nack qi f)
    data_came :
        (has_validator : Bool) (qi : QueuedInterest I)
        → find qi.id f.pending_interests ≡ some qi
        → Reply f (counts qi.n_retries) (on_data has_validator qi f)

  pub data Replies : Fetcher I → ℕ → Fetcher I → Type 0 where
    done : {f : Fetcher I} → Replies f 0 f
    more : {m n : ℕ} {f g h : Fetcher I} → Reply f m g → Replies g n h → Replies f (m + n) h

  found :
      (qi : QueuedInterest I) (f : Fetcher I)
      → find qi.id f.pending_interests ≡ some qi
      → has qi.id f.pending_interests ≡ true
  found qi f e = ap is_some e

  work-finished :
      (qi : QueuedInterest I) (f : Fetcher I)
      → Reach f
      → find qi.id f.pending_interests ≡ some qi
      → attempts qi.n_retries + work (finished qi f) ≡ work f
  unfolding finished process_queue
  work-finished qi f r e = omega (
    arith,
    pending_work-erase qi.id qi f.pending_interests e,
    work-process f.interest_queue _ (erased-IsOrdered qi.id f (Reach-IsTidy f r) (found qi f e)),
  )

  work-on_timeout :
      (qi : QueuedInterest I) (f : Fetcher I)
      → Reach f
      → suc f.interest_id_counter < 2 ^ 64
      → find qi.id f.pending_interests ≡ some qi
      → counts qi.n_retries + work (on_timeout qi f) ≤ work f
  unfolding on_timeout process_queue
  work-on_timeout qi f r room e =
      let ordered = erased-IsOrdered qi.id f (Reach-IsTidy f r) (found qi f e) in
      let erased = record f { pending_interests = erase qi.id f.pending_interests } in
      let left = pending_work-erase qi.id qi f.pending_interests e in
      let again = record qi { n_retries = pred qi.n_retries } in
      if_cases (λ (g : Fetcher I). counts qi.n_retries + work g ≤ work f) (is_zero qi.n_retries)
        (λ _.
          omega (
            arith,
            left,
            work-process f.interest_queue erased ordered,
            counts-attempts qi.n_retries,
          ))
        (λ some_left. omega (
          arith,
          left,
          work-express again erased room ordered,
          attempts-pred qi.n_retries some_left,
        ))

  Reply-work : (f g : Fetcher I) (n : ℕ) → Reach f → Reply f n g → n + work g ≤ work f
  unfolding on_nack on_data
  Reply-work f g n r (Reply.timed_out qi room e) = work-on_timeout qi f r room e
  Reply-work f g n r (Reply.nacked qi e) =
      omega (arith, work-finished qi f r e, counts-attempts qi.n_retries)
  Reply-work f g n r (Reply.data_came has_validator qi e) =
      omega (arith, work-finished qi f r e, counts-attempts qi.n_retries)

  Reply-Reach : (f g : Fetcher I) (n : ℕ) → Reach f → Reply f n g → Reach g
  Reply-Reach f g n r (Reply.timed_out qi room e) =
      Reach.next r (Step.timed_out qi room (found qi f e))
  Reply-Reach f g n r (Reply.nacked qi e) = Reach.next r (Step.nacked qi (found qi f e))
  Reply-Reach f g n r (Reply.data_came has_validator qi e) =
      Reach.next r (Step.data_came has_validator qi (found qi f e))

  pub Replies-work : (f g : Fetcher I) (n : ℕ) → Reach f → Replies f n g → n + work g ≤ work f
  Replies-work f g n r Replies.done = omega arith
  Replies-work f h n r (Replies.more {m = m} {n = k} {g = g} reply rest) =
      omega (arith, Reply-work f g m r reply, Replies-work g h k (Reply-Reach f g m r reply) rest)
