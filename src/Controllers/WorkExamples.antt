-- ===== src/Controllers/WorkExamples.antt =====
-- A queue that gives a number of items and then shuts down, with the count of the items that are taken.
use ceph_provider.Prelude.{ℕ, zero, suc, ◌-◌, ◌≤◌, String, true, Option, none, some, ◌≡◌, arith}
use ceph_provider.Errors.{new}
use ceph_provider.Exec.{Result, ok, pure, fail}
use ceph_provider.Exec.Keeps.{Keeps-fail}
use ceph_provider.Exec.Triple.{Triple, Triple-pure}
use ceph_provider.External.{WorkQueue}
use ceph_provider.Controllers.Start.{work}
use ceph_provider.Controllers.Workers.{Within, Took, QueueLaws, work_ends}

abbrev World : Type 0
World = ℕ × ℕ

abbrev take_item : ℕ → ℕ → Result (Option String) × World
take_item zero k = (ok none, (0, k))
take_item (suc n) k = (ok (some "a"), (n, suc k))

abbrev queue : WorkQueue World
queue = record {
  get = λ w. take_item w.0 w.1;
  add = λ id. pure tt;
  add_rate_limited = λ id. pure tt;
  forget = λ id. pure tt;
  finish = λ id w. (ok tt, (w.0, w.1 - 1));
}

abbrev pending : World → ℕ
pending w = w.0

abbrev held : World → ℕ
held w = w.1

take_item-Took :
    (n k items taken : ℕ)
    → items ≤ n
    → taken ≡ k
    → Took pending held n k (take_item items taken).0 (take_item items taken).1
take_item-Took n k zero taken h e = e
take_item-Took zero k (suc items) taken h e = elim h [ ]
take_item-Took (suc n) k (suc items) taken h e = (omega arith, omega arith)

queue_laws : QueueLaws pending held queue
queue_laws = record {
  takes = λ n k. record { at = λ w h. take_item-Took n k w.0 w.1 h.0 h.1 };
  finishes = λ n k id. record { at = λ w h. (h.0, omega arith) };
  retries = λ n k id. Triple-pure tt (λ w h. h);
  forgets = λ n k id. Triple-pure tt (λ w h. h);
}

-- No reconciliation succeeds.
work_ends_example :
    Triple
      (Within pending held 3 0)
      (work queue (λ id. fail (new "no connection")) 4)
      (λ x w. (x ≡ ok true) × (held w ≡ 0))
work_ends_example =
    work_ends pending held queue queue_laws (λ id. fail (new "no connection"))
      (λ n k id. Keeps-fail (new "no connection")) 4 3 0 (omega arith)
