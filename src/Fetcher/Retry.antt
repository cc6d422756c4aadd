-- ===== src/Fetcher/Retry.antt =====
-- No Interest is lost: each one leaves the fetcher by an answer.
use m_svs.Base.{
  ℕ, suc, ◌+◌, ◌%◌, ◌^◌, ◌<◌, ◌≡◌, refl, true, List, [], ◌∷◌, length, length-append, ltb, arith,
  if◌then◌else◌, if_cases,
}
use m_svs.Std.Ord.{nat_ord}
use m_svs.Std.Map.{erase, has, length-insert_new, length-erase}
use m_svs.Fetcher.{
  QueuedInterest, Fetcher, window_size, process, process_queue, express_queued, finished,
  on_timeout, is_zero, pred,
}
use m_svs.Fetcher.Window.{IsOrdered, erased-IsOrdered, sent-IsOrdered, queued-IsOrdered}
use m_svs.Fetcher.Run.{Reach, Reach-IsTidy}

module _ {I : Type 0} where
  -- The Interests that the fetcher has not finished with.
  abbrev pub outstanding : Fetcher I → ℕ
  outstanding f = length f.interest_queue + length f.pending_interests

  outstanding-process :
      (queue : List (QueuedInterest I)) (f : Fetcher I)
      → IsOrdered queue f
      → outstanding (process queue f) ≡ length queue + length f.pending_interests
  unfolding process
  outstanding-process [] f h = refl
  outstanding-process (q ∷ rest) f h =
      let pending = f.pending_interests in
      let added = length-insert_new q.id q pending (h.old q.id h.rises.0) in
      if_cases (λ (g : Fetcher I). outstanding g ≡ suc (length rest) + length pending)
        (ltb (length pending) window_size)
        (λ e.
          omega
            (arith, added, outstanding-process rest _ (sent-IsOrdered q rest f h (ground arith))))
        (λ e. refl)

  outstanding-express :
      (qi : QueuedInterest I) (f : Fetcher I)
      → suc f.interest_id_counter < 2 ^ 64
      → IsOrdered f.interest_queue f
      → outstanding (express_queued qi f) ≡ suc (outstanding f)
  unfolding express_queued process_queue
  outstanding-express qi f room h =
      let q = record qi { id = suc f.interest_id_counter % 2 ^ 64 } in
      omega (
        arith,
        outstanding-process _ _ (queued-IsOrdered qi f room h),
        length-append f.interest_queue (q ∷ []),
      )

  -- A timeout of a pending Interest ends it if it has no retries left; otherwise as many Interests
  -- stay outstanding as before.
  pub outstanding-on_timeout :
      (qi : QueuedInterest I) (f : Fetcher I)
      → Reach f
      → suc f.interest_id_counter < 2 ^ 64
      → has qi.id f.pending_interests ≡ true
      → outstanding (on_timeout qi f) + (if is_zero qi.n_retries then 1 else 0) ≡ outstanding f
  unfolding on_timeout process_queue
  outstanding-on_timeout qi f r room found =
      let h = erased-IsOrdered qi.id f (Reach-IsTidy f r) found in
      let erased = record f { pending_interests = erase qi.id f.pending_interests } in
      let one = length-erase qi.id f.pending_interests found in
      ground (
        arith,
        one,
        outstanding-process f.interest_queue erased h,
        outstanding-express (record qi { n_retries = pred qi.n_retries }) erased room h,
      )

  -- Data or a Nack for a pending Interest ends one Interest.
  pub outstanding-finished :
      (qi : QueuedInterest I) (f : Fetcher I)
      → Reach f
      → has qi.id f.pending_interests ≡ true
      → suc (outstanding (finished qi f)) ≡ outstanding f
  unfolding finished process_queue
  outstanding-finished qi f r found = omega (
    arith,
    length-erase qi.id f.pending_interests found,
    outstanding-process f.interest_queue _ (erased-IsOrdered qi.id f (Reach-IsTidy f r) found),
  )
