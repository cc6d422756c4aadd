-- ===== src/Fetcher.antt =====
-- ndn-svs/fetcher.hpp and fetcher.cpp: `class Fetcher`, a window of pending Interests before a queue.
-- `I` is an Interest with the callbacks bound to it. What a handler asks of the face, the validator,
-- the scheduler and the application is appended to `calls`.
pub mod Window
pub mod Run
pub mod Retry
pub mod Exhaustion
mod Tests
use m_svs.Base.{
  ℕ, zero, suc, ◌+◌, ◌%◌, ◌^◌, Bool, true, false, not, ◌&&◌, List, [], ◌∷◌, ◌++◌, length, ltb,
  if◌then◌else◌,
}
use m_svs.Std.Ord.{nat_ord}
use m_svs.Std.Map.{Map, insert, erase}
use m_svs.Double.{ℤ, pos, negsuc}

pub record QueuedInterest (I : Type 0) : Type 0 where
  pub id : ℕ
  pub interest : I
  pub n_retries : ℤ
  pub n_retries_on_validation_fail : ℤ

pub data Call (I : Type 0) : Type 0 where
  express : QueuedInterest I → Call I
  after_satisfied : QueuedInterest I → Call I
  after_nacked : QueuedInterest I → Call I
  after_timeout : QueuedInterest I → Call I
  validate : QueuedInterest I → Call I
  retry_later : QueuedInterest I → Call I

pub record Fetcher (I : Type 0) : Type 0 where
  pub interest_id_counter : ℕ
  pub pending_interests : Map ℕ (QueuedInterest I)
  pub interest_queue : List (QueuedInterest I)
  pub calls : List (Call I)

abbrev pub window_size : ℕ
window_size = 10

-- n - 1. The numbers are `int`s; a count that starts at -1 would pass the least of them, where the
-- decrement is undefined, only after 2 ^ 31 timeouts of one Interest.
abbrev pub pred : ℤ → ℤ
pred (pos (suc n)) = pos n
pred (pos zero) = negsuc 0
pred (negsuc n) = negsuc (suc n)

abbrev pub is_zero : ℤ → Bool
is_zero (pos zero) = true
is_zero (pos (suc n)) = false
is_zero (negsuc n) = false

abbrev pub is_positive : ℤ → Bool
is_positive (pos zero) = false
is_positive (pos (suc n)) = true
is_positive (negsuc n) = false

module _ {I : Type 0} where
  abbrev pub note : Call I → Fetcher I → Fetcher I
  note call f = record f { calls = f.calls ++ (call ∷ []) }

  -- The loop, on the queue: what stays in it, with the rest of the state.
  unfoldable pub process : List (QueuedInterest I) → Fetcher I → Fetcher I
  process [] f = record f { interest_queue = [] }
  process (i ∷ rest) f =
      let later = process rest (
        note (Call.express i)
          (record f { pending_interests = insert i.id i f.pending_interests })) in
      if ltb (length f.pending_interests) window_size
      then later
      else record f { interest_queue = i ∷ rest }

  unfoldable pub process_queue : Fetcher I → Fetcher I
  process_queue f = process f.interest_queue f

  -- The private `expressInterest`, whose argument's id is replaced. The nonce is no part of `I`.
  unfoldable pub express_queued : QueuedInterest I → Fetcher I → Fetcher I
  express_queued qi f =
      let id = suc f.interest_id_counter % 2 ^ 64 in
      process_queue (record f {
        interest_id_counter = id;
        interest_queue = f.interest_queue ++ (record qi { id = id } ∷ []);
      })

  -- The public `expressInterest`, which puts the same in the queue; `n_retries_on_validation_fail` is
  -- the security options' value.
  unfoldable pub express_interest : ℤ → I → ℤ → Fetcher I → Fetcher I
  express_interest n_retries_on_validation_fail interest n_retries f =
      express_queued
        (record {
          id = suc f.interest_id_counter % 2 ^ 64;
          interest = interest;
          n_retries = n_retries;
          n_retries_on_validation_fail = n_retries_on_validation_fail;
        })
        f

  unfoldable pub finished : QueuedInterest I → Fetcher I → Fetcher I
  finished qi f = process_queue (record f { pending_interests = erase qi.id f.pending_interests })

  unfoldable pub on_data : Bool → QueuedInterest I → Fetcher I → Fetcher I
  on_data has_validator qi f =
      note (if has_validator then Call.validate qi else Call.after_satisfied qi) (finished qi f)

  abbrev pub on_data_validated : QueuedInterest I → Fetcher I → Fetcher I
  on_data_validated qi f = note (Call.after_satisfied qi) f

  -- Nothing follows the `return`: the failure callback is not called.
  unfoldable pub on_validation_failed : QueuedInterest I → Fetcher I → Fetcher I
  on_validation_failed qi f =
      if is_positive qi.n_retries_on_validation_fail then note (Call.retry_later qi) f else f

  -- The scheduled event.
  unfoldable pub retry : QueuedInterest I → Fetcher I → Fetcher I
  retry qi f =
      express_queued
        (record qi { n_retries_on_validation_fail = pred qi.n_retries_on_validation_fail }) f

  unfoldable pub on_nack : QueuedInterest I → Fetcher I → Fetcher I
  on_nack qi f = note (Call.after_nacked qi) (finished qi f)

  unfoldable pub on_timeout : QueuedInterest I → Fetcher I → Fetcher I
  on_timeout qi f =
      let erased = record f { pending_interests = erase qi.id f.pending_interests } in
      if is_zero qi.n_retries
      then note (Call.after_timeout qi) (process_queue erased)
      else express_queued (record qi { n_retries = pred qi.n_retries }) erased
