-- ===== src/Fetcher/Run.antt =====
-- The events of a fetcher, and that its window is never exceeded nor left open.
use m_svs.Base.{suc, ◌^◌, ◌≤◌, ◌<◌, ◌≡◌, refl, Bool, true, [], length, arith, if_cases}
use m_svs.Std.Ord.{nat_ord}
use m_svs.Std.Map.{find, has}
use m_svs.Fetcher.{
  QueuedInterest, Fetcher, window_size, express_interest, on_data, on_data_validated,
  on_validation_failed, retry, on_nack, on_timeout, is_positive,
}
use m_svs.Double.{ℤ}
use m_svs.Fetcher.Window.{IsTidy, express-IsTidy, finished-IsTidy, timeout-IsTidy, note-IsTidy}

module _ {I : Type 0} where
  -- One event: the face's callbacks come with an Interest that is pending.
  pub data Step (f : Fetcher I) : Fetcher I → Type 0 where
    request :
        (on_fail : ℤ) (interest : I) (n_retries : ℤ)
        → suc f.interest_id_counter < 2 ^ 64
        → Step f (express_interest on_fail interest n_retries f)
    data_came :
        (has_validator : Bool) (qi : QueuedInterest I)
        → has qi.id f.pending_interests ≡ true
        → Step f (on_data has_validator qi f)
    validated : (qi : QueuedInterest I) → Step f (on_data_validated qi f)
    refused : (qi : QueuedInterest I) → Step f (on_validation_failed qi f)
    again : (qi : QueuedInterest I) → suc f.interest_id_counter < 2 ^ 64 → Step f (retry qi f)
    nacked : (qi : QueuedInterest I) → has qi.id f.pending_interests ≡ true → Step f (on_nack qi f)
    timed_out :
        (qi : QueuedInterest I)
        → suc f.interest_id_counter < 2 ^ 64
        → has qi.id f.pending_interests ≡ true
        → Step f (on_timeout qi f)

  abbrev pub initial : Fetcher I
  initial = record {
    interest_id_counter = 0;
    pending_interests = [];
    interest_queue = [];
    calls = [];
  }

  pub data Reach : Fetcher I → Type 0 where
    new : Reach initial
    next : {f g : Fetcher I} → Reach f → Step f g → Reach g

  Step-IsTidy : (f g : Fetcher I) → Step f g → IsTidy f → IsTidy g
  unfolding express_interest on_data on_validation_failed retry on_nack
  Step-IsTidy f g (Step.request on_fail interest n_retries room) t =
      express-IsTidy _ f room t.ordered
  Step-IsTidy f g (Step.data_came has_validator qi found) t =
      note-IsTidy _ _ (finished-IsTidy qi f t found)
  Step-IsTidy f g (Step.validated qi) t = note-IsTidy _ f t
  Step-IsTidy f g (Step.refused qi) t =
      if_cases IsTidy (is_positive qi.n_retries_on_validation_fail) (λ _. note-IsTidy _ f t)
        (λ _. t)
  Step-IsTidy f g (Step.again qi room) t = express-IsTidy _ f room t.ordered
  Step-IsTidy f g (Step.nacked qi found) t = note-IsTidy _ _ (finished-IsTidy qi f t found)
  Step-IsTidy f g (Step.timed_out qi room found) t = timeout-IsTidy qi f room t found

  pub Reach-IsTidy : (f : Fetcher I) → Reach f → IsTidy f
  unfolding find
  Reach-IsTidy f Reach.new = record {
    ordered = record {
      mark = 0;
      old = λ k l. refl;
      rises = tt;
      recent = omega arith;
      sorted = tt;
      bounded = omega arith;
    };
    busy = λ l. omega arith;
  }
  Reach-IsTidy f (Reach.next {f = g} r s) = Step-IsTidy g f s (Reach-IsTidy g r)

  -- After any events at most ten Interests are pending, and exactly ten while another waits.
  pub Reach-window :
      (f : Fetcher I)
      → Reach f
      → (length f.pending_interests ≤ window_size)
        × (0 < length f.interest_queue → length f.pending_interests ≡ window_size)
  Reach-window f r =
      let t = Reach-IsTidy f r in
      (t.ordered.bounded, λ l. omega (arith, t.ordered.bounded, t.busy l))
