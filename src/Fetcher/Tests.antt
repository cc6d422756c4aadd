-- ===== src/Fetcher/Tests.antt =====
-- A fetcher with one Interest pending.
use m_svs.Base.{ℕ, ◌+◌, ◌≤◌, ◌<◌, ◌≡◌, refl, length, arith}
use m_svs.Std.Ord.{nat_ord}
use m_svs.Std.Map.{find, insert, erase}
use m_svs.Double.{pos}
use m_svs.Fetcher.{
  QueuedInterest, Fetcher, window_size, express_queued, express_interest, process_queue, process,
  on_timeout,
}
use m_svs.Fetcher.Run.{Step, Reach, initial, Reach-window}
use m_svs.Fetcher.Exhaustion.{Reply, Replies, work, Replies-work}

abbrev one : Fetcher ℕ
one = express_interest (pos 1) 77 (pos 2) initial

one-Reach : Reach one
one-Reach = Reach.next Reach.new (Step.request (pos 1) 77 (pos 2) (omega arith))

Reach-window_example :
    (length one.pending_interests ≤ window_size)
    × (0 < length one.interest_queue → length one.pending_interests ≡ window_size)
Reach-window_example = Reach-window one one-Reach

-- The Interest as it is pending, under the id 1.
abbrev sent : QueuedInterest ℕ
sent = record { id = 1; interest = 77; n_retries = pos 2; n_retries_on_validation_fail = pos 1 }

timeout : Reply one 1 (on_timeout sent one)
unfolding express_interest express_queued process_queue process find insert
timeout = Reply.timed_out sent (omega arith) refl

Replies-work_example : 1 + 0 + work (on_timeout sent one) ≤ work one
Replies-work_example =
    Replies-work one (on_timeout sent one) (1 + 0) one-Reach (Replies.more timeout Replies.done)

-- The Interest may still wait for three replies, and for two after the timeout.
works : (work one ≡ 3) × (work (on_timeout sent one) ≡ 2)
unfolding express_interest express_queued process_queue process find insert on_timeout erase
works = (refl, refl)
